-- ===== src/Lobby/Gacha/Examples.antt =====
-- Draws of internal/lobby/gacha.go from a small pool, and the theorem on its guarantees there.
use f.Prelude.{◌≡◌, refl, arith, pos, some, [], ◌∷◌, true, false, add64}
use f.Rng.{Stream, Source, weighted_pick, roll, pick_from}
use f.Rng.Pick.{weight_sum}
use f.Lobby.Gacha.{
  GachaEntry, GachaPool, GachaPityState, at_least, count_draw, draw_one, draw_among, pick_by_rarity,
  top_draw,
}
use f.Lobby.Gacha.Pity.{CanGuarantee, Draws, draw_one_lem}

abbrev common : GachaEntry
common = record { tpl_id = 1; rarity = 3; weight = pos 90; count = pos 1 }

abbrev hero : GachaEntry
hero = record { tpl_id = 2; rarity = 5; weight = pos 10; count = pos 1 }

abbrev pool : GachaPool
pool = record {
  id = "spring";
  cost = pos 160;
  currency = 1;
  entries = common ∷ hero ∷ [];
  pity_top = 90;
  pity_high = 10;
  top_rarity = 5;
  high_rarity = 4;
  ten_pull_guarantee = true;
}

pool-CanGuarantee : CanGuarantee pool
unfolding at_least weight_sum
pool-CanGuarantee = record {
  top_some = omega arith;
  top_fits = omega arith;
  high_some = omega arith;
  high_fits = omega arith;
  all_some = omega arith;
  all_fits = omega arith;
  top_over_high = omega arith;
  top_set = omega arith;
}

-- The 90th draw without a hero.
abbrev patient : GachaPityState
patient = record { pool_id = "spring"; since_top = 89; since_high = 9; total_draws = 89 }

abbrev zeroes : Stream
zeroes = record {
  State = Unit {0};
  start = λ seed. tt;
  draw = λ n s. (0, s);
  draw_below = λ n s h. h;
}

abbrev source : Source zeroes
source = record { seed = []; r = tt; consumed = 0 }

hero_at_last : (draw_one zeroes pool patient source false).0 ≡ some hero
unfolding draw_one top_draw count_draw pick_by_rarity draw_among at_least weighted_pick roll
    pick_from add64
hero_at_last = refl

draw_one_lem_example :
    Draws zeroes pool (count_draw patient) false (draw_one zeroes pool patient source false)
draw_one_lem_example = draw_one_lem zeroes pool patient source false pool-CanGuarantee
