-- ===== src/Rg/Examples.antt =====
-- Runs of pkg/rg/rg.go, and its theorems at a concrete state.
use f.Prelude.{◌≡◌, refl, arith, ℤ, pos, ◌+ℤ◌, ◌*ℤ◌, ◌-ℤ◌, true, some, add64, sub64}
use f.Rg.{
  PlayerRg, RgLimits, empty_rg, effective, check_bet, apply_bet, is_excluded, over_bet, over_loss,
  over_session, day_start_of, floor_day, daily_bet_reached,
}
use f.Rg.Limits.{Within, check_bet-Within}

abbrev shanghai : RgLimits
shanghai = record {
  daily_bet_limit = pos 1000;
  daily_loss_limit = pos 500;
  session_limit = pos 3600;
  reset_offset_minutes = pos 480;
  notice_interval = pos 0;
}

-- 2024-01-01T00:00:00Z is 8 hours into the day in Shanghai.
abbrev new_year : ℤ
new_year = pos 1704067200000

abbrev player : PlayerRg
player = record empty_rg { daily_bet = pos 400; daily_win = pos 100 }

day_in_zone : day_start_of new_year (pos 480) ≡ pos 1704038400000
unfolding day_start_of floor_day ◌*ℤ◌ ◌+ℤ◌ ◌-ℤ◌
day_in_zone = refl

refused : (check_bet (some player) (pos 700) new_year shanghai).code ≡ daily_bet_reached
unfolding check_bet is_excluded over_bet effective add64
refused = refl

let_through : (check_bet (some player) (pos 200) new_year shanghai).allowed ≡ true
unfolding check_bet is_excluded over_bet over_loss over_session effective add64 sub64
let_through = refl

check_bet-Within_example :
    (after : PlayerRg) × (apply_bet (some player) (pos 200) ≡ some after)
    × Within after new_year shanghai
check_bet-Within_example =
    check_bet-Within player (pos 200) new_year shanghai (omega arith) (omega arith) (omega arith)
      let_through
