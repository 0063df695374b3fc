-- ===== src/Lobby/Spin/Examples.antt =====
-- A round of one paid and one free spin, internal/lobby/slots.go, and the theorems on it.
use f.Prelude.{
  ◌≤ℤ◌, ◌*ℤ◌, ◌+ℤ◌, some, none, ℕ, ◌+◌, ◌-◌, ◌<◌, ◌≡◌, ◌≢◌, refl, arith, pos, ◌-ℤ◌, true, false,
  List, [], ◌∷◌, ok, All, add64, sub64, mul64, div64, ◌==◌, if◌then◌else◌,
}
use f.Rng.{Stream, Source, int_n, roll}
use f.Rng as rng
use f.Rng.Seed.{hex, parse_seed, decode}
use f.Rg.{
  empty_rg, RgLimits, check_bet, is_excluded, over_bet, over_loss, over_session, allow, notice_for,
  effective, rollover, day_start_of, floor_day,
}
use f.Slots.{
  SlotMachine, SpinResult, spin, spin_reels, settle_spin, finish_spin, column, eval_lines,
  eval_line, candidate_symbols, best_of, run_length, fills, payout_for, find_pays, eval_scatter,
  count_symbol, count_reel, free_spins_for, jackpot_draw,
}
use f.Lobby.Bag.{Wallet, set_balance}
use f.Lobby.Spin.{
  Round, SpinCommit, committed, commit_of, paid_spin, free_spin, resume, fast_forward, advance,
  new_round, prepare_spin, check_round, check_paid, rg_after_checks, valid_bet,
}
use f.Lobby.Spin.Guards.{prepare_spin-paid_spin}
use f.Lobby.Spin.Money.{committed-money, total_of}

-- The scatter 8 is in sight at stop 0, so every spin there gives free spins.
abbrev machine : SlotMachine
machine = record {
  rows = 2;
  reels = (8 ∷ 1 ∷ 2 ∷ []) ∷ (1 ∷ 2 ∷ 3 ∷ []) ∷ (2 ∷ 1 ∷ 3 ∷ []) ∷ [];
  paylines = (0 ∷ 0 ∷ 0 ∷ []) ∷ (1 ∷ 1 ∷ 1 ∷ []) ∷ [];
  paytable = (1, pos 0 ∷ pos 0 ∷ pos 5 ∷ []) ∷ [];
  wild = 9;
  scatter = 8;
  scatter_pays = pos 1 ∷ [];
  free_spins = 3 ∷ [];
  free_spin_multiplier = 2;
  free_spin_retrigger = true;
  bet_levels = pos 10 ∷ [];
  currency = 1;
  jackpot_pool = "";
  jackpot_contrib_bp = pos 0;
  jackpot_chance_num = pos 0;
  jackpot_chance_den = pos 0;
}

abbrev zeroes : Stream
zeroes = record {
  State = Unit {0};
  start = λ seed. tt;
  draw = λ n s. (0, s);
  draw_below = λ n s h. h;
}

abbrev seed : List ℕ
seed =
    0 ∷ 1 ∷ 2 ∷ 3 ∷ 4 ∷ 5 ∷ 6 ∷ 7 ∷ 8 ∷ 9 ∷ 10 ∷ 11 ∷ 12 ∷ 13 ∷ 14 ∷ 15 ∷ 16 ∷ 17 ∷ 18 ∷ 19 ∷ 20
    ∷ 21 ∷ 22 ∷ 23 ∷ 24 ∷ 25 ∷ 26 ∷ 27 ∷ 28 ∷ 29 ∷ 30 ∷ 255 ∷ []

seed_bytes : All (λ b. b < 256) seed
seed_bytes = ground arith

abbrev purse : Wallet
purse c = if c == 1 then pos 100 else pos 0

abbrev seen : ℕ → SpinResult
seen mult = record {
  grid = (8 ∷ 1 ∷ []) ∷ (1 ∷ 2 ∷ []) ∷ (2 ∷ 1 ∷ []) ∷ [];
  stops = 0 ∷ 0 ∷ 0 ∷ [];
  lines = [];
  line_win = pos 0;
  scatter = 1;
  scatter_win = pos 10;
  multiplier = mult;
  total_win = if mult == 1 then pos 10 else pos 20;
  free_spins_awarded = 3;
  jackpot_hit = false;
}

abbrev opening : Round
opening = new_round machine "fruits" "v1" (pos 1000) (pos 10) 77 seed

abbrev opened : SpinCommit
opened = committed machine false (pos 1000) purse empty_rg opening (pos 10) (seen 1)

first_spin : paid_spin zeroes machine (pos 1000) purse empty_rg seed opening ≡ ok opened
unfolding paid_spin spin spin_reels settle_spin finish_spin column eval_lines eval_line
    candidate_symbols best_of run_length fills payout_for find_pays eval_scatter count_symbol
    count_reel free_spins_for jackpot_draw int_n roll rng.new commit_of set_balance add64 sub64
    mul64 div64
first_spin = refl

abbrev again : SpinCommit
again = committed machine true (pos 2000) opened.wallet opened.rg opened.round (pos 10) (seen 2)

second_spin : free_spin zeroes machine (pos 2000) opened.wallet opened.rg opened.round ≡ ok again
unfolding free_spin resume fast_forward parse_seed decode hex advance spin spin_reels settle_spin
    finish_spin column eval_lines eval_line candidate_symbols best_of run_length fills payout_for
    find_pays eval_scatter count_symbol count_reel free_spins_for jackpot_draw int_n roll rng.new
    commit_of set_balance add64 sub64 mul64 div64
second_spin = refl

left : 0 < opened.round.free_spins_left
unfolding advance
left = omega arith

committed-money_example :
    (opened.wallet 1 ≡ pos (100 - 10 + 10))
    × (total_of opened.entries ≡ pos 10 -ℤ pos 10)
    × ((t : ℕ) → t ≢ 1 → opened.wallet t ≡ purse t)
committed-money_example =
    committed-money machine false (pos 1000) purse empty_rg opening 10 10 100 (seen 1) refl refl
      (omega arith) (omega arith) (omega arith)

-- A request for a paid spin, and one for the free spin that follows.
abbrev limits : RgLimits
limits = record {
  daily_bet_limit = pos 1000;
  daily_loss_limit = pos 0;
  session_limit = pos 0;
  reset_offset_minutes = pos 0;
  notice_interval = pos 0;
}

paid_request :
    prepare_spin zeroes
      (some machine)
      "fruits"
      limits
      "v1"
      (pos 1000)
      (pos 10)
      (some seed)
      (some 77)
      purse
      empty_rg
      none
    ≡ ok opened
unfolding prepare_spin check_round check_paid rg_after_checks valid_bet check_bet is_excluded
    over_bet over_loss over_session allow notice_for effective rollover day_start_of floor_day ◌*ℤ◌
    ◌+ℤ◌ ◌-ℤ◌ paid_spin spin spin_reels settle_spin finish_spin column eval_lines eval_line
    candidate_symbols best_of run_length fills payout_for find_pays eval_scatter count_symbol
    count_reel free_spins_for jackpot_draw int_n roll rng.new commit_of set_balance add64 sub64
    mul64 div64
paid_request = refl

prepare_spin-paid_spin_example :
    (valid_bet machine.bet_levels (pos 10) ≡ true)
    × (pos 10 ≤ℤ purse 1)
    × ((check_bet (some (rollover empty_rg (pos 1000) limits).0) (pos 10) (pos 1000) limits).allowed
        ≡ true)
    × ((s : List ℕ) × (n : ℕ) × (some seed ≡ some s)
        × (some 77 ≡ some n)
        × (paid_spin zeroes machine
              (pos 1000)
              purse
              (rollover empty_rg (pos 1000) limits).0
              s
              (new_round machine "fruits" "v1" (pos 1000) (pos 10) n s)
            ≡ ok opened))
prepare_spin-paid_spin_example =
    prepare_spin-paid_spin zeroes machine "fruits" "v1" limits (pos 1000) (pos 10) (some seed)
      (some 77) purse empty_rg opened paid_request

free_request :
    prepare_spin zeroes
      (some machine)
      "fruits"
      limits
      "v1"
      (pos 2000)
      (pos 999999)
      none
      none
      opened.wallet
      opened.rg
      (some opened.round)
    ≡ ok again
unfolding prepare_spin check_round free_spin resume fast_forward parse_seed decode hex advance spin
    spin_reels settle_spin finish_spin column eval_lines eval_line candidate_symbols best_of
    run_length fills payout_for find_pays eval_scatter count_symbol count_reel free_spins_for
    jackpot_draw int_n roll rng.new commit_of set_balance add64 sub64 mul64 div64
free_request = refl
