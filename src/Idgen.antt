-- ===== src/Idgen.antt =====
-- pkg/idgen/snowflake.go: the snowflake generator of one process. The injected clock is a list of
-- readings, in the order in which `g.now()` returns them; `none` means that the call still waits
-- for a reading. The mutex makes a call of `Next` atomic, so calls are steps.
pub mod Layout
pub mod Order
pub mod Supply
mod Examples
use f.Prelude.{
  ℕ, zero, suc, ◌+◌, ◌*◌, ◌-◌, ◌^◌, bit_or, bit_and, ℤ, pos, negsuc, Bool, true, false, Option,
  none, some, List, [], ◌∷◌, ltb, leb, ltb_ℤ, leb_ℤ, eqb_ℤ, ◌==◌, if◌then◌else◌, Result, ok, err,
  reject, ◌>>◌, add64, sub64, int64, u64, u32, shl64, shr, to_u64,
}
use f.Ident.{node_seq_bits, svc_type_bits, max_node_seq}

abbrev pub seq_bits : ℕ
seq_bits = 12

abbrev pub worker_id_bits : ℕ
worker_id_bits = node_seq_bits + svc_type_bits

abbrev pub timestamp_bits : ℕ
timestamp_bits = 41

abbrev pub max_seq : ℕ
max_seq = 2 ^ seq_bits - 1

abbrev pub max_worker_id : ℕ
max_worker_id = 2 ^ worker_id_bits - 1

abbrev pub worker_shift : ℕ
worker_shift = seq_bits

abbrev pub ts_shift : ℕ
ts_shift = seq_bits + worker_id_bits

-- `SpinTolerance.Milliseconds()`
abbrev pub spin_tolerance : ℤ
spin_tolerance = pos 10

-- 2024-01-01T00:00:00Z in Unix milliseconds.
abbrev pub default_epoch : ℤ
default_epoch = pos 1704067200000

pub data IdError : Type 0 where
  worker_id_out_of_range clock_backwards is_halted before_epoch timestamp_overflow : IdError

pub record Generator : Type 0 where
  pub worker_id : ℕ
  pub epoch_ms : ℤ
  pub last_ts : ℤ
  pub seq : ℕ
  pub halted : Bool

unfoldable pub new : ℕ → Result IdError Generator
new worker_id = do
  reject (ltb max_worker_id worker_id) worker_id_out_of_range
  ok (record {
    worker_id = worker_id;
    epoch_ms = default_epoch;
    last_ts = negsuc 0;
    seq = 0;
    halted = false;
  })

-- What a call leaves: its result, the generator, and the readings that it did not take.
abbrev pub Outcome : Type 0
Outcome = Option (Result IdError ℕ × Generator × List ℤ)

-- `for now < g.lastTS { time.Sleep(…); now = g.now() }`
pub catch_up : ℤ → ℤ → List ℤ → Option (ℤ × List ℤ)
catch_up last now [] = if ltb_ℤ now last then none else some (now, [])
catch_up last now (t ∷ ts) = if ltb_ℤ now last then catch_up last t ts else some (now, t ∷ ts)

pub wait_next_milli : ℤ → ℤ → List ℤ → Option (ℤ × List ℤ)
wait_next_milli last now [] = if leb_ℤ now last then none else some (now, [])
wait_next_milli last now (t ∷ ts) =
    if leb_ℤ now last then wait_next_milli last t ts else some (now, t ∷ ts)

-- `uint64(elapsed)<<tsShift | g.workerID<<workerShift | g.seq`
pub compose : ℤ → ℕ → ℕ → ℕ
compose elapsed worker seq =
    bit_or (bit_or (shl64 (to_u64 elapsed) ts_shift) (shl64 worker worker_shift)) seq

-- The end of `Next`, from `g.lastTS = now` on.
pub stamp : Generator → ℤ → List ℤ → Outcome
stamp g now ts =
    let g' = record g { last_ts = now } in
    let elapsed = sub64 now g.epoch_ms in
    if ltb_ℤ elapsed (pos 0)
    then some (err before_epoch, g', ts)
    else if leb_ℤ (pos (2 ^ timestamp_bits)) elapsed
    then some (err timestamp_overflow, g', ts)
    else some (ok (compose elapsed g.worker_id g.seq), g', ts)

abbrev pub stamp_after : Generator → Option (ℤ × List ℤ) → Outcome
stamp_after g none = none
stamp_after g (some (now, ts)) = stamp g now ts

-- The sequence number within a millisecond; the 4097th waits for the next millisecond.
pub number : Generator → ℤ → List ℤ → Outcome
number g now ts =
    let seq' = bit_and (u64 (g.seq + 1)) max_seq in
    if eqb_ℤ now g.last_ts
    then (if seq' == 0
        then stamp_after (record g { seq = 0 }) (wait_next_milli g.last_ts now ts)
        else stamp (record g { seq = seq' }) now ts)
    else stamp (record g { seq = 0 }) now ts

abbrev pub number_after : Generator → Option (ℤ × List ℤ) → Outcome
number_after g none = none
number_after g (some (now, ts)) = number g now ts

-- The clock went back: wait for a small step, halt at a large one.
pub settle : Generator → ℤ → List ℤ → Outcome
settle g now ts =
    if ltb_ℤ now g.last_ts
    then (if leb_ℤ (sub64 g.last_ts now) spin_tolerance
        then number_after g (catch_up g.last_ts now ts)
        else some (err clock_backwards, record g { halted = true }, ts))
    else number g now ts

pub next : Generator → List ℤ → Outcome
next g [] = none
next g (now ∷ ts) =
    if g.halted
    then (if leb_ℤ now g.last_ts
        then some (err is_halted, g, ts)
        else settle (record g { halted = false }) now ts)
    else settle g now ts

-- `NextN`: the identifiers made before the first error, and that error.
abbrev pub Batch : Type 0
Batch = Option (List ℕ × Option IdError × Generator × List ℤ)

abbrev pub push_id : ℕ → Batch → Batch
push_id id none = none
push_id id (some (ids, e, g, ts)) = some (id ∷ ids, e, g, ts)

abbrev pub next_n_after : (Generator → List ℤ → Batch) → Outcome → Batch
next_n_after rest none = none
next_n_after rest (some (err e, g, ts)) = some ([], some e, g, ts)
next_n_after rest (some (ok id, g, ts)) = push_id id (rest g ts)

pub next_n : ℕ → Generator → List ℤ → Batch
next_n zero g ts = some ([], none, g, ts)
next_n (suc n) g ts = next_n_after (next_n n) (next g ts)

-- An identifier taken apart; the timestamp in Unix milliseconds.
pub record Parts : Type 0 where
  pub timestamp : ℤ
  pub worker_id : ℕ
  pub seq : ℕ
  pub svc_type : ℕ
  pub node_seq : ℕ

unfoldable pub parse : ℕ → Parts
parse id =
    let worker = u32 (bit_and (shr id worker_shift) max_worker_id) in
    record {
      timestamp = add64 (int64 (pos (shr id ts_shift))) default_epoch;
      worker_id = worker;
      seq = u32 (bit_and id max_seq);
      svc_type = shr worker node_seq_bits;
      node_seq = bit_and worker max_node_seq;
    }
