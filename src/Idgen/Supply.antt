-- ===== src/Idgen/Supply.antt =====
-- Sequences of calls of pkg/idgen/snowflake.go over the life of a generator.
use f.Prelude.{
  ℕ, zero, suc, ◌+◌, ◌*◌, ◌-◌, ◌/◌, ◌%◌, bit_and, u64, ◌≤◌, ◌<◌, ◌≡◌, ◌≢◌, ◌⊎◌, refl, arith, ℤ, pos,
  pos_part, neg_part, true, false, subst, Option, none, some, List, [], ◌∷◌, ◌≤ℤ◌, ◌<ℤ◌, ok, err,
  sub64, sub64-exact, -ℤ_parts, ◌-ℤ◌, parts_disjoint, eq_of_parts, All,
}
use f.Idgen.{
  Generator, Outcome, clock_backwards, is_halted, catch_up, wait_next_milli, compose, parse, stamp,
  stamp_after, number, number_after, settle, next, Batch,
}
use f.Idgen.Layout.{compose-sum, parse-sum}
use f.Idgen.Order.{IsValid, IsStamp, NotBefore, After, Encodes, Keeps, next-Keeps}

elapsed_parts :
    (h : Generator)
    → IsValid h
    → (pos_part (sub64 h.last_ts h.epoch_ms) + neg_part h.last_ts + 1704067200000
        ≡ neg_part (sub64 h.last_ts h.epoch_ms) + pos_part h.last_ts)
elapsed_parts h v = ground (
  arith,
  -ℤ_parts h.last_ts h.epoch_ms,
  sub64-exact h.last_ts h.epoch_ms,
  parts_disjoint (h.last_ts -ℤ h.epoch_ms),
  parts_disjoint h.last_ts,
)

compose_at :
    (t : ℤ) (w s : ℕ)
    → pos 0 ≤ℤ t
    → pos_part t < 2199023255552
    → w < 1024
    → s < 4096
    → compose t w s ≡ pos_part t * 4194304 + w * 4096 + s
compose_at (pos n) w s h k hw hs = compose-sum n w s k hw hs
compose_at t w s h k hw hs = absurd (omega arith)

-- The number that an identifier of the generator is.
pub Encodes-value :
    (h : Generator) (b : ℕ)
    → IsValid h
    → Encodes b h
    → (pos 1704067200000 ≤ℤ h.last_ts)
      × (b ≡ (pos_part h.last_ts - 1704067200000) * 4194304 + h.worker_id * 4096 + h.seq)
Encodes-value h b v e =
    let sum = compose_at (sub64 h.last_ts h.epoch_ms) h.worker_id h.seq in
    ground (
      arith,
      elapsed_parts h v,
      sum,
      parts_disjoint h.last_ts,
      parts_disjoint (sub64 h.last_ts h.epoch_ms),
    )

-- `a` lies at or under the generator's position.
abbrev pub Floor : ℕ → Generator → Type 0
Floor a g =
    (pos 1704067200000 ≤ℤ g.last_ts)
    × (a ≤ (pos_part g.last_ts - 1704067200000) * 4194304 + g.worker_id * 4096 + g.seq)

Floor-mono :
    (a : ℕ) (g h : Generator)
    → IsValid g
    → IsValid h
    → h.worker_id ≡ g.worker_id
    → NotBefore g h
    → Floor a g
    → Floor a h
Floor-mono a g h v w e n f = ground (arith, parts_disjoint g.last_ts, parts_disjoint h.last_ts)

Floor-lt :
    (a b : ℕ) (g h : Generator)
    → IsValid g
    → IsValid h
    → h.worker_id ≡ g.worker_id
    → After g h
    → Encodes b h
    → Floor a g
    → (a < b) × Floor b h
Floor-lt a b g h v w e n c f =
    ground (arith, parts_disjoint g.last_ts, parts_disjoint h.last_ts, Encodes-value h b w c)

-- Every identifier is above the one before it.
abbrev pub IsAscending : ℕ → List ℕ → Type 0
IsAscending a [] = Unit
IsAscending a (x ∷ xs) = (a < x) × IsAscending x xs

abbrev pub ids_of : Batch → List ℕ
ids_of none = []
ids_of (some (ids, e, g, ts)) = ids

-- The identifiers of `n` calls, whatever calls fail in between; a call that never returns is
-- the last one.
abbrev pub issued_after : (Generator → List ℤ → List ℕ) → Outcome → List ℕ
issued_after rest none = []
issued_after rest (some (ok id, g, ts)) = id ∷ rest g ts
issued_after rest (some (err e, g, ts)) = rest g ts

unfoldable pub issued : ℕ → Generator → List ℤ → List ℕ
issued zero g ts = []
issued (suc n) g ts = issued_after (issued n) (next g ts)

module _ (n : ℕ)
    (later : (g : Generator) (ts : List ℤ) (a : ℕ)
      → IsValid g
      → All IsStamp ts
      → Floor a g
      → IsAscending a (issued n g ts)) where
  issued_after-IsAscending :
      (g : Generator) (o : Outcome) (a : ℕ)
      → IsValid g
      → Keeps g o
      → Floor a g
      → IsAscending a (issued_after (issued n) o)
  issued_after-IsAscending g none a v k f = tt
  issued_after-IsAscending g (some (err e, h, ts)) a v k f =
      later h ts a k.0 k.3 (Floor-mono a g h v k.0 k.2 k.1 f)
  issued_after-IsAscending g (some (ok id, h, ts)) a v k f =
      let (above, floor) = Floor-lt a id g h v k.0 k.2 k.1 k.4 f in
      (above, later h ts id k.0 k.3 floor)

pub issued-IsAscending :
    (n : ℕ) (g : Generator) (ts : List ℤ) (a : ℕ)
    → IsValid g
    → All IsStamp ts
    → Floor a g
    → IsAscending a (issued n g ts)
unfolding issued
issued-IsAscending zero g ts a v s f = tt
issued-IsAscending (suc n) g ts a v s f =
    issued_after-IsAscending n (issued-IsAscending n) g (next g ts) a v (next-Keeps g ts v s) f

-- A list with no lower bound in front.
abbrev pub IsIncreasing : List ℕ → Type 0
IsIncreasing [] = Unit
IsIncreasing (x ∷ xs) = IsAscending x xs

module _ (n : ℕ)
    (first : (g : Generator) (ts : List ℤ)
      → IsValid g
      → All IsStamp ts
      → IsIncreasing (issued n g ts)) where
  issued_after-IsIncreasing :
      (g : Generator) (o : Outcome)
      → IsValid g
      → Keeps g o
      → IsIncreasing (issued_after (issued n) o)
  issued_after-IsIncreasing g none v k = tt
  issued_after-IsIncreasing g (some (err e, h, ts)) v k = first h ts k.0 k.3
  issued_after-IsIncreasing g (some (ok id, h, ts)) v k =
      issued-IsAscending n h ts id k.0 k.3 (omega (arith, Encodes-value h id k.0 k.4))

-- From any valid generator, over any number of calls and whatever the clock does (steps back, a
-- halt and the recovery from it included), the identifiers are strictly increasing, so none is
-- returned twice.
pub issued-IsIncreasing :
    (n : ℕ) (g : Generator) (ts : List ℤ)
    → IsValid g
    → All IsStamp ts
    → IsIncreasing (issued n g ts)
unfolding issued
issued-IsIncreasing zero g ts v s = tt
issued-IsIncreasing (suc n) g ts v s =
    issued_after-IsIncreasing n (issued-IsIncreasing n) g (next g ts) v (next-Keeps g ts v s)

parse-Encodes :
    (h : Generator) (w id : ℕ)
    → IsValid h
    → Encodes id h
    → h.worker_id ≡ w
    → parse id ≡ record {
      timestamp = h.last_ts;
      worker_id = w;
      seq = h.seq;
      svc_type = w / 128;
      node_seq = w % 128;
    }
parse-Encodes h w id v c e =
    let millis = pos_part h.last_ts - 1704067200000 in
    ground (
      arith,
      Encodes-value h id v c,
      parse-sum millis h.worker_id h.seq,
      elapsed_parts h v,
      parts_disjoint h.last_ts,
      eq_of_parts (pos (millis + 1704067200000)) h.last_ts,
    )

-- An identifier of a valid generator taken apart is the millisecond, the worker and the number of
-- the generator that the call leaves, and the worker's service and process number.
pub parse-next :
    (g h : Generator) (ts rest : List ℤ) (id : ℕ)
    → IsValid g
    → All IsStamp ts
    → next g ts ≡ some (ok id, h, rest)
    → parse id ≡ record {
      timestamp = h.last_ts;
      worker_id = g.worker_id;
      seq = h.seq;
      svc_type = g.worker_id / 128;
      node_seq = g.worker_id % 128;
    }
parse-next g h ts rest id v s e = parse-Encodes h g.worker_id id keeps.0 keeps.4 keeps.2
  where
    keeps : Keeps g (some (ok id, h, rest))
    keeps = subst (Keeps g) e (next-Keeps g ts v s)

-- A backward step of more than 10 ms, to a time that is not negative, stops the generator, which
-- then refuses every call until the clock has passed the last identifier's millisecond.
pub next_halts :
    (g : Generator) (now later : ℤ) (ts us : List ℤ)
    → IsValid g
    → pos 0 ≤ℤ now
    → g.halted ≡ false
    → pos 10 <ℤ g.last_ts -ℤ now
    → later ≤ℤ g.last_ts
    → let stopped = record g { halted = true } in
      (next g (now ∷ ts) ≡ some (err clock_backwards, stopped, ts))
      × (next stopped (later ∷ us) ≡ some (err is_halted, stopped, us))
unfolding next settle
next_halts g now later ts us v f e h k = ground (
  arith,
  sub64-exact g.last_ts now,
  -ℤ_parts g.last_ts now,
  parts_disjoint (g.last_ts -ℤ now),
  parts_disjoint now,
  parts_disjoint g.last_ts,
)

-- Some reading lies after `last`.
abbrev pub Passes : ℤ → List ℤ → Type 0
Passes last [] = ⊥
Passes last (t ∷ ts) = (last <ℤ t) ⊎ Passes last ts

abbrev Waits : (ℤ → List ℤ → Type 0) → Option (ℤ × List ℤ) → Type 0
Waits P none = ⊥
Waits P (some (t, rest)) = P t rest

catch_up-some :
    (last now : ℤ) (ts : List ℤ)
    → ((last <ℤ now) ⊎ Passes last ts)
    → Waits (λ t rest. (last <ℤ t) ⊎ Passes last rest) (catch_up last now ts)
unfolding catch_up
catch_up-some last now [] p = ground arith
catch_up-some last now (t ∷ ts) p = ground (arith, catch_up-some last t ts)

wait_next_milli-some :
    (last now : ℤ) (ts : List ℤ)
    → ((last <ℤ now) ⊎ Passes last ts)
    → wait_next_milli last now ts ≢ none
unfolding wait_next_milli
wait_next_milli-some last now [] p = ground arith
wait_next_milli-some last now (t ∷ ts) p = ground (arith, wait_next_milli-some last t ts)

stamp-some : (g : Generator) (now : ℤ) (ts : List ℤ) → stamp g now ts ≢ none
unfolding stamp
stamp-some g now ts = ground arith

stamp_after-some : (g : Generator) (o : Option (ℤ × List ℤ)) → o ≢ none → stamp_after g o ≢ none
stamp_after-some g none h = absurd (h refl)
stamp_after-some g (some (t, rest)) h = stamp-some g t rest

number-some :
    (g : Generator) (now : ℤ) (ts : List ℤ)
    → ((g.last_ts <ℤ now) ⊎ Passes g.last_ts ts)
    → number g now ts ≢ none
unfolding number
number-some g now ts p = ground (
  arith,
  stamp-some (record g { seq = bit_and (u64 (g.seq + 1)) 4095 }) now ts,
  stamp-some (record g { seq = 0 }) now ts,
  stamp_after-some (record g { seq = 0 }) (wait_next_milli g.last_ts now ts),
  wait_next_milli-some g.last_ts now ts p,
)

number_after-some :
    (g : Generator) (o : Option (ℤ × List ℤ))
    → Waits (λ t rest. (g.last_ts <ℤ t) ⊎ Passes g.last_ts rest) o
    → number_after g o ≢ none
number_after-some g none p = absurd p
number_after-some g (some (t, rest)) p = number-some g t rest p

settle-some :
    (g : Generator) (now : ℤ) (ts : List ℤ)
    → ((g.last_ts <ℤ now) ⊎ Passes g.last_ts ts)
    → settle g now ts ≢ none
unfolding settle
settle-some g now ts p = ground (
  arith,
  number-some g now ts p,
  number_after-some g (catch_up g.last_ts now ts),
  catch_up-some g.last_ts now ts p,
)

-- The waiting loops end: a call returns as soon as some reading lies after the last identifier's
-- millisecond.
pub next_returns : (g : Generator) (ts : List ℤ) → Passes g.last_ts ts → next g ts ≢ none
unfolding next
next_returns g [] p = absurd p
next_returns g (now ∷ ts) p =
    ground (arith, settle-some g now ts p, settle-some (record g { halted = false }) now ts p)
