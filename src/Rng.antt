-- ===== src/Rng.antt =====
-- pkg/rng/rng.go: seeds and the reproducible random source. The stream of the standard library's
-- ChaCha8 generator is a parameter: its state, its start from a seed, and one bounded draw.
pub mod Seed
pub mod Pick
mod Examples
use f.Prelude.{
  ℕ, zero, suc, ◌+◌, ◌-◌, ◌<◌, ◌≡◌, ℤ, pos, pos_part, ltb, leb, ltb_ℤ, leb_ℤ, ◌==◌, if◌then◌else◌,
  Bool, true, false, ◌||◌, Option, none, some, List, [], ◌∷◌, length, add64, u64,
}

-- `draw n` is `r.IntN(n)` or `r.Int64N(n)` for a positive n: a number below n and the next state.
pub record Stream : Type 1 where
  pub State : Type 0
  pub start : List ℕ → State
  pub draw : ℕ → State → ℕ × State
  pub draw_below : (n : ℕ) (s : State) → 0 < n → (draw n s).0 < n

pub record Source (G : Stream) : Type 0 where
  pub seed : List ℕ
  pub r : G.State
  pub consumed : ℕ

module _ (G : Stream) where
  -- `New`
  unfoldable pub new : List ℕ → Source G
  new seed = record { seed = seed; r = G.start seed; consumed = 0 }

  unfoldable pub roll : ℕ → Source G → ℕ × Source G
  roll n s =
      let drawn = G.draw n s.r in
      (drawn.0, record s { r = drawn.1; consumed = u64 (s.consumed + 1) })

  -- `IntN` and `Int64N` panic on a bound that is not positive: `none`.
  unfoldable pub int_n : ℕ → Source G → Option (ℕ × Source G)
  int_n n s = if n == 0 then none else some (roll n s)

  -- `Chance`
  unfoldable pub chance : ℤ → ℤ → Source G → Bool × Source G
  unfolding roll
  chance num den s =
      if leb_ℤ num (pos 0) || leb_ℤ den (pos 0)
      then (false, s)
      else if leb_ℤ den num
      then (true, s)
      else let (v, s') = roll (pos_part den) s in (ltb v (pos_part num), s')

-- The sum of the positive weights.
pub total_weight : ℤ → List ℤ → ℤ
total_weight total [] = total
total_weight total (w ∷ ws) = total_weight (if ltb_ℤ (pos 0) w then add64 total w else total) ws

-- The second loop of `WeightedPick`: `i` is the index of the head; past the end it is the last index.
unfoldable pub pick_from : ℕ → List ℤ → ℕ → ℕ
pick_from i [] r = i - 1
pick_from i (w ∷ ws) r =
    if leb_ℤ w (pos 0)
    then pick_from (i + 1) ws r
    else if ltb r (pos_part w)
    then i
    else pick_from (i + 1) ws (r - pos_part w)

-- `WeightedPick`; `none` is -1.
module _ (G : Stream) where
  unfoldable pub weighted_pick : List ℤ → Source G → Option ℕ × Source G
  unfolding total_weight pick_from roll
  weighted_pick ws s =
      let total = total_weight (pos 0) ws in
      if leb_ℤ total (pos 0)
      then (none, s)
      else let (v, s') = roll G (pos_part total) s in (some (pick_from 0 ws v), s')
