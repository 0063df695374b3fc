-- ===== src/Lobby/Spin/Orders/Examples.antt =====
-- A paid and a free spin under two orders of a paytable with a tie, internal/lobby/slots.go, and the
-- theorems on them.
use f.Prelude.{
  ℕ, ◌<◌, ◌≡◌, refl, arith, pos, ℤ, true, false, List, [], ◌∷◌, ok, All, add64, sub64, mul64, div64,
  ◌==◌, if◌then◌else◌,
}
use f.Rng.{Stream, int_n, roll}
use f.Rng as rng
use f.Rng.Seed.{hex, parse_seed, decode}
use f.Rg.{empty_rg}
use f.Slots.{
  SlotMachine, SpinResult, spin, spin_reels, settle_spin, finish_spin, column, eval_lines,
  eval_line, candidate_symbols, symbols_but, best_of, run_length, fills, payout_for, find_pays,
  eval_scatter, count_symbol, count_reel, free_spins_for, jackpot_draw,
}
use f.Slots.Lines.{IsMachine}
use f.Slots.Payout.{SameTable, with_table}
use f.Lobby.Bag.{Wallet, set_balance}
use f.Lobby.Spin.{
  Round, SpinCommit, committed, commit_of, paid_spin, free_spin, resume, fast_forward, advance,
  new_round,
}
use f.Lobby.Spin.Aligned.{IsPlayed, paid_spin_lem}
use f.Lobby.Spin.Orders.{Replays, free_spin-Replays, paid_spin-Replays}

-- At stop 0 the scatter 8 is in sight and the second line shows three wilds, which pay the same for
-- the symbols 1 and 2.
abbrev machine : SlotMachine
machine = record {
  rows = 2;
  reels = (8 ∷ 9 ∷ 2 ∷ []) ∷ (1 ∷ 9 ∷ 3 ∷ []) ∷ (2 ∷ 9 ∷ 3 ∷ []) ∷ [];
  paylines = (0 ∷ 0 ∷ 0 ∷ []) ∷ (1 ∷ 1 ∷ 1 ∷ []) ∷ [];
  paytable = (1, pos 0 ∷ pos 0 ∷ pos 5 ∷ []) ∷ (2, pos 0 ∷ pos 0 ∷ pos 5 ∷ []) ∷ [];
  wild = 9;
  scatter = 8;
  scatter_pays = pos 1 ∷ [];
  free_spins = 3 ∷ [];
  free_spin_multiplier = 2;
  free_spin_retrigger = true;
  bet_levels = pos 10 ∷ [];
  currency = 1;
  jackpot_pool = "";
  jackpot_contrib_bp = pos 0;
  jackpot_chance_num = pos 0;
  jackpot_chance_den = pos 0;
}

machine-IsMachine : IsMachine machine
machine-IsMachine = record {
  rows_pos = omega arith;
  reels_some = omega arith;
  strips_long = ground arith;
  lines_some = omega arith;
  lines_fit = ground arith;
}

abbrev turned : List (ℕ × List ℤ)
turned = (2, pos 0 ∷ pos 0 ∷ pos 5 ∷ []) ∷ (1, pos 0 ∷ pos 0 ∷ pos 5 ∷ []) ∷ []

there : SameTable machine.paytable turned
unfolding find_pays
there s = ground arith

back : SameTable turned machine.paytable
unfolding find_pays
back s = ground arith

abbrev zeroes : Stream
zeroes = record {
  State = Unit {0};
  start = λ seed. tt;
  draw = λ n s. (0, s);
  draw_below = λ n s h. h;
}

abbrev seed : List ℕ
seed =
    0 ∷ 1 ∷ 2 ∷ 3 ∷ 4 ∷ 5 ∷ 6 ∷ 7 ∷ 8 ∷ 9 ∷ 10 ∷ 11 ∷ 12 ∷ 13 ∷ 14 ∷ 15 ∷ 16 ∷ 17 ∷ 18 ∷ 19 ∷ 20
    ∷ 21 ∷ 22 ∷ 23 ∷ 24 ∷ 25 ∷ 26 ∷ 27 ∷ 28 ∷ 29 ∷ 30 ∷ 255 ∷ []

seed_bytes : All (λ b. b < 256) seed
seed_bytes = ground arith

abbrev purse : Wallet
purse c = if c == 1 then pos 100 else pos 0

-- The result of a spin that reports the symbol `s` for the line of wilds.
abbrev seen : ℕ → ℕ → SpinResult
seen s mult = record {
  grid = (8 ∷ 9 ∷ []) ∷ (1 ∷ 9 ∷ []) ∷ (2 ∷ 9 ∷ []) ∷ [];
  stops = 0 ∷ 0 ∷ 0 ∷ [];
  lines = record { line = 1; symbol = s; count = 3; payout = pos 25 } ∷ [];
  line_win = pos 25;
  scatter = 1;
  scatter_win = pos 10;
  multiplier = mult;
  total_win = if mult == 1 then pos 35 else pos 70;
  free_spins_awarded = 3;
  jackpot_hit = false;
}

abbrev opening : Round
opening = new_round machine "fruits" "v1" (pos 1000) (pos 10) 77 seed

abbrev opened : SpinCommit
opened = committed machine false (pos 1000) purse empty_rg opening (pos 10) (seen 1 1)

first_spin : paid_spin zeroes machine (pos 1000) purse empty_rg seed opening ≡ ok opened
unfolding paid_spin spin spin_reels settle_spin finish_spin column eval_lines eval_line
    candidate_symbols symbols_but best_of run_length fills payout_for find_pays eval_scatter
    count_symbol count_reel free_spins_for jackpot_draw int_n roll rng.new commit_of set_balance
    add64 sub64 mul64 div64
first_spin = refl

paid_spin-Replays_example : Replays zeroes machine machine-IsMachine turned seed [] opened
paid_spin-Replays_example =
    paid_spin-Replays zeroes machine machine-IsMachine machine.paytable turned "fruits" "v1"
      (pos 1000) (pos 10) 77 seed purse empty_rg opened there seed_bytes refl first_spin

opened-IsPlayed : IsPlayed zeroes machine seed opened.round (seen 1 1 ∷ [])
opened-IsPlayed =
    (paid_spin_lem zeroes machine "fruits" "v1" (pos 1000) (pos 10) 77 seed purse empty_rg opened
      seed_bytes refl first_spin).0

-- The free spin runs forward and plays in the other order.
abbrev again : SpinCommit
again =
    committed (with_table machine turned) true (pos 2000) opened.wallet opened.rg opened.round
      (pos 10) (seen 2 2)

second_spin :
    free_spin zeroes (with_table machine turned) (pos 2000) opened.wallet opened.rg opened.round
    ≡ ok again
unfolding free_spin resume fast_forward parse_seed decode hex advance spin spin_reels settle_spin
    finish_spin column eval_lines eval_line candidate_symbols symbols_but best_of run_length fills
    payout_for find_pays eval_scatter count_symbol count_reel free_spins_for jackpot_draw int_n roll
    rng.new commit_of set_balance add64 sub64 mul64 div64
second_spin = refl

left : 0 < opened.round.free_spins_left
unfolding advance
left = omega arith

free_spin-Replays_example :
    Replays zeroes machine machine-IsMachine machine.paytable seed (seen 1 1 ∷ []) again
free_spin-Replays_example =
    free_spin-Replays zeroes machine machine-IsMachine machine.paytable turned machine.paytable
      (pos 2000) opened.wallet opened.rg seed opened.round (seen 1 1 ∷ []) again there back
      opened-IsPlayed (omega arith) left second_spin
