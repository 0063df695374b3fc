-- ===== src/Rng/Pick.antt =====
-- Weighted picks of pkg/rng/rng.go.
use f.Prelude.{
  ℕ, zero, suc, ◌+◌, ◌-◌, ◌≤◌, ◌<◌, ◌≡◌, arith, ℤ, pos, negsuc, pos_part, List, [], ◌∷◌, length,
  some, two63, ◌+ℤ◌, add64-exact, +ℤ_parts, get_or, dec_lt, eq_of_parts,
}
use f.Rng.{Stream, Source, total_weight, pick_from, weighted_pick}

-- The weight that an entry really has: a negative one counts as 0.
unfoldable pub weight_sum : List ℤ → ℕ
weight_sum [] = 0
weight_sum (w ∷ ws) = pos_part w + weight_sum ws

-- The weights before entry i.
unfoldable pub weight_before : List ℤ → ℕ → ℕ
weight_before [] i = 0
weight_before (w ∷ ws) zero = 0
weight_before (w ∷ ws) (suc i) = pos_part w + weight_before ws i

total_weight-sum :
    (t : ℕ) (ws : List ℤ)
    → t + weight_sum ws < two63
    → total_weight (pos t) ws ≡ pos (t + weight_sum ws)
unfolding total_weight weight_sum
total_weight-sum t [] h = ground arith
total_weight-sum t (pos w ∷ ws) h = ground (
  arith,
  add64-exact (pos t) (pos w),
  +ℤ_parts (pos t) (pos w),
  eq_of_parts (pos t +ℤ pos w) (pos (t + w)),
  total_weight-sum (t + w) ws,
  total_weight-sum t ws,
)
total_weight-sum t (negsuc w ∷ ws) h = ground (arith, total_weight-sum t ws)

total_weight-eq :
    (ws : List ℤ) → weight_sum ws < two63 → total_weight (pos 0) ws ≡ pos (weight_sum ws)
total_weight-eq ws h = ground (arith, total_weight-sum 0 ws)

-- The roll r falls into the interval of entry k.
pick_from-lem :
    (i : ℕ) (ws : List ℤ) (r k : ℕ)
    → weight_before ws k ≤ r
    → r < weight_before ws k + pos_part (get_or ws k (pos 0))
    → pick_from i ws r ≡ i + k
unfolding pick_from weight_before
pick_from-lem i [] r k h l = absurd (omega arith)
pick_from-lem i (w ∷ ws) r zero h l = ground arith
pick_from-lem i (w ∷ ws) r (suc k) h l =
    ground (arith, pick_from-lem (i + 1) ws r k, pick_from-lem (i + 1) ws (r - pos_part w) k)

-- The entry whose interval holds the roll.
abbrev pub IsPicked : List ℤ → ℕ → ℕ → Type 0
IsPicked ws r k =
    (k < length ws)
    × (weight_before ws k ≤ r)
    × (r < weight_before ws k + pos_part (get_or ws k (pos 0)))

picked : (ws : List ℤ) (r : ℕ) → r < weight_sum ws → (k : ℕ) × IsPicked ws r k
unfolding weight_sum weight_before
picked [] r h = absurd (omega arith)
picked (w ∷ ws) r h = elim (dec_lt r (pos_part w)) [
  | yes l ↦ (0, (omega arith, omega arith, omega arith))
  | no m ↦
      let (k, p) = picked ws (r - pos_part w) (omega arith) in
      (suc k, (omega arith, omega arith, omega arith))
]

-- When the weights sum to a positive int64, the pick is the entry into whose share of the sum the
-- draw falls: entry k for exactly weight(k) of the draws, an entry of weight 0 never.
pub weighted_pick-share :
    (G : Stream) (ws : List ℤ) (s : Source G)
    → 0 < weight_sum ws
    → weight_sum ws < two63
    → (k : ℕ) × (IsPicked ws (G.draw (weight_sum ws) s.r).0 k) × ((weighted_pick G ws s).0 ≡ some k)
unfolding weighted_pick
weighted_pick-share G ws s h l =
    let (k, p) = picked ws (G.draw (weight_sum ws) s.r).0 (G.draw_below (weight_sum ws) s.r h) in
    (
      k,
      p,
      rw (total_weight-eq ws l)
          (ground (arith, pick_from-lem 0 ws (G.draw (weight_sum ws) s.r).0 k p.1 p.2)),
    )
