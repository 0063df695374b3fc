-- ===== src/Rng/Examples.antt =====
-- Runs of pkg/rng/rng.go on a counter in place of the generator, and its theorems at concrete values.
use f.Prelude.{
  ℕ, ◌+◌, ◌%◌, ◌<◌, ◌≡◌, refl, arith, ℤ, pos, length, some, List, [], ◌∷◌, ok, true, All, add64,
}
use f.Rng.{Stream, Source, roll, chance, weighted_pick, pick_from}
use f.Rng.Seed.{hex, parse_seed, parse_seed-hex}
use f.Rng.Pick.{IsPicked, weight_sum, weighted_pick-share}

-- A stream that counts: draw k gives k modulo the bound.
abbrev counter : Stream
counter = record {
  State = ℕ;
  start = λ seed. length seed;
  draw = λ n s. (s % n, s + 1);
  draw_below = λ n s h. omega arith;
}

abbrev fresh : Source counter
fresh = record { seed = 1 ∷ 2 ∷ []; r = 7; consumed = 0 }

abbrev weights : List ℤ
weights = pos 2 ∷ pos 0 ∷ pos 3 ∷ []

picks_last : (weighted_pick counter weights fresh).0 ≡ some 2
unfolding weighted_pick roll pick_from add64
picks_last = refl

always : (chance counter (pos 3) (pos 3) fresh).0 ≡ true
unfolding chance
always = refl

weighted_pick-share_example :
    (k : ℕ) × IsPicked weights 2 k × ((weighted_pick counter weights fresh).0 ≡ some k)
unfolding weight_sum
weighted_pick-share_example = weighted_pick-share counter weights fresh (omega arith) (omega arith)

abbrev seed : List ℕ
seed =
    0 ∷ 255 ∷ 16 ∷ 171 ∷ 0 ∷ 0 ∷ 0 ∷ 0 ∷ 1 ∷ 2 ∷ 3 ∷ 4 ∷ 5 ∷ 6 ∷ 7 ∷ 8 ∷ 9 ∷ 10 ∷ 11 ∷ 12 ∷ 13 ∷ 14
    ∷ 15 ∷ 16 ∷ 17 ∷ 18 ∷ 19 ∷ 20 ∷ 21 ∷ 22 ∷ 23 ∷ 24 ∷ []

seed_bytes : All (λ b. b < 256) seed
seed_bytes = ground arith

parse_seed-hex_example : parse_seed (hex seed) ≡ ok seed
parse_seed-hex_example = parse_seed-hex seed seed_bytes refl
