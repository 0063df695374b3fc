-- ===== src/Slots/Examples.antt =====
-- A small machine and its spins, internal/slots/engine.go, and the theorems on it.
use f.Prelude.{ℕ, ◌≡◌, refl, arith, ℤ, pos, some, List, [], ◌∷◌, ok, true, false, mul64, add64}
use f.Rng.{Stream, Source}
use f.Slots.{
  SlotMachine, SpinResult, LineWin, spin, eval_line, eval_lines, candidate_symbols, symbols_but,
  best_of, run_length, fills, payout_for, find_pays,
}
use f.Slots.Lines.{IsMachine, spin_total}
use f.Slots.Payout.{SameTable, with_table, eval_lines_order}

-- Three reels of two visible symbols; 9 is the wild, 8 the scatter.
abbrev machine : SlotMachine
machine = record {
  rows = 2;
  reels = (1 ∷ 9 ∷ 2 ∷ []) ∷ (1 ∷ 2 ∷ 8 ∷ []) ∷ (2 ∷ 1 ∷ 9 ∷ []) ∷ [];
  paylines = (0 ∷ 0 ∷ 0 ∷ []) ∷ (1 ∷ 1 ∷ 1 ∷ []) ∷ [];
  paytable = (1, pos 0 ∷ pos 0 ∷ pos 5 ∷ []) ∷ (2, pos 0 ∷ pos 2 ∷ pos 5 ∷ []) ∷ [];
  wild = 9;
  scatter = 8;
  scatter_pays = pos 1 ∷ [];
  free_spins = 3 ∷ [];
  free_spin_multiplier = 2;
  free_spin_retrigger = true;
  bet_levels = pos 10 ∷ [];
  currency = 1;
  jackpot_pool = "";
  jackpot_contrib_bp = pos 0;
  jackpot_chance_num = pos 0;
  jackpot_chance_den = pos 0;
}

machine-IsMachine : IsMachine machine
machine-IsMachine = record {
  rows_pos = omega arith;
  reels_some = omega arith;
  strips_long = ground arith;
  lines_some = omega arith;
  lines_fit = ground arith;
}

abbrev zeroes : Stream
zeroes = record {
  State = Unit {0};
  start = λ seed. tt;
  draw = λ n s. (0, s);
  draw_below = λ n s h. h;
}

abbrev source : Source zeroes
source = record { seed = []; r = tt; consumed = 0 }

spin_total_example :
    (r : SpinResult) × (after : Source zeroes) × (spin zeroes (some machine) source (pos 10) 1 false
      ≡ ok (r, after))
spin_total_example =
    spin_total zeroes machine source (pos 10) 1 false machine-IsMachine (omega arith)

-- The same table in the other order of iteration.
abbrev turned : List (ℕ × List ℤ)
turned = (2, pos 0 ∷ pos 2 ∷ pos 5 ∷ []) ∷ (1, pos 0 ∷ pos 0 ∷ pos 5 ∷ []) ∷ []

same : SameTable machine.paytable turned
unfolding find_pays
same s = ground arith

-- A line of wilds pays the same for symbols 1 and 2, and each order reports another symbol.
abbrev wilds : List (List ℕ)
wilds = (9 ∷ []) ∷ (9 ∷ []) ∷ (9 ∷ []) ∷ []

abbrev as_symbol : ℕ → List LineWin × ℤ
as_symbol s = (record { line = 0; symbol = s; count = 3; payout = pos 50 } ∷ [], pos 50)

first_order :
    eval_lines
      (with_table machine machine.paytable)
      wilds
      (pos 10)
      0
      (pos 0)
      ((0 ∷ 0 ∷ 0 ∷ []) ∷ [])
    ≡ some (as_symbol 1)
unfolding eval_lines eval_line candidate_symbols symbols_but best_of run_length fills payout_for
    find_pays mul64 add64
first_order = refl

other_order :
    eval_lines (with_table machine turned) wilds (pos 10) 0 (pos 0) ((0 ∷ 0 ∷ 0 ∷ []) ∷ [])
    ≡ some (as_symbol 2)
unfolding eval_lines eval_line candidate_symbols symbols_but best_of run_length fills payout_for
    find_pays mul64 add64
other_order = refl

eval_lines_order_example : pos 50 ≡ pos 50
eval_lines_order_example =
    eval_lines_order machine wilds (pos 10) machine.paytable turned same 0 (pos 0) (pos 50) (pos 50)
      ((0 ∷ 0 ∷ 0 ∷ []) ∷ []) (as_symbol 1).0 (as_symbol 2).0 first_order other_order
