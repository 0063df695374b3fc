-- ===== src/Idgen/Order.antt =====
-- One call of `Next` of pkg/idgen/snowflake.go: the ranges, the order of generators, and the steps.
use f.Prelude.{
  ℕ, ◌+◌, ◌≤◌, ◌<◌, ◌≡◌, ◌⊎◌, inl, arith, ℤ, pos, pos_part, neg_part, false, Option, none, some,
  List, [], ◌∷◌, ◌≤ℤ◌, ◌<ℤ◌, ok, err, bit_and, bit_and-mask, u64, sub64, eqb_ℤ_sound, All, ◌^◌, ◌%◌,
  two63,
}
use f.Idgen.{
  Generator, Outcome, default_epoch, catch_up, wait_next_milli, compose, stamp, stamp_after, number,
  number_after, settle, next,
}

-- A millisecond count from -1 (the value before the first identifier) up.
abbrev pub IsStamp : ℤ → Type 0
IsStamp t = (neg_part t ≤ 1) × (pos_part t < two63)

-- The ranges that `New` establishes and every call keeps.
pub record IsValid (g : Generator) : Type 0 where
  pub worker_fits : g.worker_id < 1024
  pub seq_fits : g.seq < 4096
  pub epoch_default : g.epoch_ms ≡ default_epoch
  pub last_fits : IsStamp g.last_ts

-- The generator moved from `g` to `h`: by time, or within one millisecond by number.
abbrev pub NotBefore : Generator → Generator → Type 0
NotBefore g h = (g.last_ts <ℤ h.last_ts) ⊎ ((g.last_ts ≡ h.last_ts) × (g.seq ≤ h.seq))

abbrev pub After : Generator → Generator → Type 0
After g h = (g.last_ts <ℤ h.last_ts) ⊎ ((g.last_ts ≡ h.last_ts) × (g.seq < h.seq))

-- The identifier of the generator's millisecond, worker and number.
abbrev pub Encodes : ℕ → Generator → Type 0
Encodes id h =
    (id ≡ compose (sub64 h.last_ts h.epoch_ms) h.worker_id h.seq)
    × (pos 0 ≤ℤ sub64 h.last_ts h.epoch_ms)
    × (sub64 h.last_ts h.epoch_ms <ℤ pos (2 ^ 41))

-- The outcome of a call that starts from `g`.
abbrev pub Keeps : Generator → Outcome → Type 0
Keeps g none = Unit {0}
Keeps g (some (err e, h, ts)) =
    IsValid h × NotBefore g h × (h.worker_id ≡ g.worker_id) × All IsStamp ts
Keeps g (some (ok id, h, ts)) =
    IsValid h × After g h × (h.worker_id ≡ g.worker_id) × All IsStamp ts × Encodes id h

abbrev Waited : (ℤ → Type 0) → Option (ℤ × List ℤ) → Type 0
Waited P none = Unit {0}
Waited P (some (t, rest)) = P t × IsStamp t × All IsStamp rest

catch_up_ge :
    (last now : ℤ) (ts : List ℤ)
    → IsStamp now
    → All IsStamp ts
    → Waited (λ t. last ≤ℤ t) (catch_up last now ts)
unfolding catch_up
catch_up_ge last now [] h a = ground arith
catch_up_ge last now (u ∷ us) h a = ground (arith, catch_up_ge last u us)

wait_next_milli_gt :
    (last now : ℤ) (ts : List ℤ)
    → IsStamp now
    → All IsStamp ts
    → Waited (λ t. last <ℤ t) (wait_next_milli last now ts)
unfolding wait_next_milli
wait_next_milli_gt last now [] h a = ground arith
wait_next_milli_gt last now (u ∷ us) h a = ground (arith, wait_next_milli_gt last u us)

-- `stamp` with a number that is new for its millisecond.
stamp-Keeps :
    (g s : Generator) (now : ℤ) (ts : List ℤ)
    → IsValid s
    → s.worker_id ≡ g.worker_id
    → IsStamp now
    → All IsStamp ts
    → ((g.last_ts <ℤ now) ⊎ ((g.last_ts ≡ now) × (g.seq < s.seq)))
    → Keeps g (stamp s now ts)
unfolding stamp
stamp-Keeps g s now ts v w f a h = ground arith

stamp_after-Keeps :
    (g s : Generator) (o : Option (ℤ × List ℤ))
    → IsValid s
    → s.worker_id ≡ g.worker_id
    → Waited (λ t. g.last_ts <ℤ t) o
    → Keeps g (stamp_after s o)
stamp_after-Keeps g s none v w h = tt
stamp_after-Keeps g s (some (t, rest)) v w h = stamp-Keeps g s t rest v w h.1 h.2 (inl h.0)

next_seq : (n : ℕ) → n < 4096 → bit_and (u64 (n + 1)) 4095 ≡ (n + 1) % 4096
next_seq n h = omega (arith, bit_and-mask 12 (u64 (n + 1)))

number-Keeps :
    (g : Generator) (now : ℤ) (ts : List ℤ)
    → IsValid g
    → IsStamp now
    → All IsStamp ts
    → g.last_ts ≤ℤ now
    → Keeps g (number g now ts)
unfolding number
number-Keeps g now ts v f a h =
    let numbered = record g { seq = bit_and (u64 (g.seq + 1)) 4095 } in
    let reset = record g { seq = 0 } in
    ground (
      arith,
      next_seq g.seq,
      eqb_ℤ_sound now g.last_ts,
      stamp-Keeps g numbered now ts,
      stamp-Keeps g reset now ts,
      stamp_after-Keeps g reset (wait_next_milli g.last_ts now ts),
      wait_next_milli_gt g.last_ts now ts,
    )

number_after-Keeps :
    (g : Generator) (o : Option (ℤ × List ℤ))
    → IsValid g
    → Waited (λ t. g.last_ts ≤ℤ t) o
    → Keeps g (number_after g o)
number_after-Keeps g none v h = tt
number_after-Keeps g (some (t, rest)) v h = number-Keeps g t rest v h.1 h.2 h.0

settle-Keeps :
    (g : Generator) (now : ℤ) (ts : List ℤ)
    → IsValid g
    → IsStamp now
    → All IsStamp ts
    → Keeps g (settle g now ts)
unfolding settle
settle-Keeps g now ts v f a = ground (
  arith,
  number_after-Keeps g (catch_up g.last_ts now ts) v,
  catch_up_ge g.last_ts now ts f a,
  number-Keeps g now ts v f a,
)

-- Every call of `Next`, failing or not, keeps the worker and the epoch and never moves the
-- generator back; a call that returns an identifier moves it forward and encodes it.
pub next-Keeps : (g : Generator) (ts : List ℤ) → IsValid g → All IsStamp ts → Keeps g (next g ts)
unfolding next
next-Keeps g [] v a = tt
next-Keeps g (now ∷ ts) v a =
    let resumed = record g { halted = false } in
    let valid : IsValid resumed = record {
      worker_fits = v.worker_fits;
      seq_fits = v.seq_fits;
      epoch_default = v.epoch_default;
      last_fits = v.last_fits;
    } in
    ground (arith, settle-Keeps g now ts v a.0 a.1, settle-Keeps resumed now ts valid a.0 a.1)
