-- ===== src/Slots.antt =====
-- pkg/gameconf/gameconf.go (SlotMachine) and internal/slots/engine.go: one spin of a slot machine and
-- the replay of a round. A panic of the code (an index out of range, a division by zero, an
-- empty strip) is the error `panics`. A map is an association list in its iteration order.
pub mod Lines
pub mod Payout
pub mod Orders
pub mod Reports
mod Examples
use text.Mathlib.Text.{◌==◌ as str_eq}
use f.Prelude.{
  ℕ, zero, suc, ◌+◌, ◌-◌, ◌*◌, ◌/◌, ◌%◌, ℤ, pos, ltb, leb, ltb_ℤ, leb_ℤ, ◌==◌, if◌then◌else◌, Bool,
  true, false, ◌||◌, ◌&&◌, not, Option, none, some, List, [], ◌∷◌, ◌++◌, length, get_elem?, add64,
  mul64, div64, u32, Result, ok, err, ◌>>=◌, ◌>>◌, require, reject, String, map,
}
use f.Rng.{Stream, Source, int_n, chance}

pub record SlotMachine : Type 0 where
  pub rows : ℕ
  pub reels : List (List ℕ)
  pub paylines : List (List ℕ)
  pub paytable : List (ℕ × List ℤ)
  pub wild : ℕ
  pub scatter : ℕ
  pub scatter_pays : List ℤ
  pub free_spins : List ℕ
  pub free_spin_multiplier : ℕ
  pub free_spin_retrigger : Bool
  pub bet_levels : List ℤ
  pub currency : ℕ
  pub jackpot_pool : String
  pub jackpot_contrib_bp : ℤ
  pub jackpot_chance_num : ℤ
  pub jackpot_chance_den : ℤ

abbrev pub Grid : Type 0
Grid = List (List ℕ)

pub record LineWin : Type 0 where
  pub line : ℕ
  pub symbol : ℕ
  pub count : ℕ
  pub payout : ℤ

pub record SpinResult : Type 0 where
  pub grid : Grid
  pub stops : List ℕ
  pub lines : List LineWin
  pub line_win : ℤ
  pub scatter : ℕ
  pub scatter_win : ℤ
  pub multiplier : ℕ
  pub total_win : ℤ
  pub free_spins_awarded : ℕ
  pub jackpot_hit : Bool

pub data SpinError : Type 0 where
  no_machine bad_bet panics : SpinError

abbrev pub or_panic : {A : Type 0} → Option A → Result SpinError A
or_panic none = err panics
or_panic (some a) = ok a

-- The visible part of a strip from a stop: `strip[(stop+r) % len(strip)]` for r below the rows.
abbrev pub push : {A : Type 0} → Option A → Option (List A) → Option (List A)
push none xs = none
push (some x) none = none
push (some x) (some xs) = some (x ∷ xs)

unfoldable pub column : List ℕ → ℕ → ℕ → Option (List ℕ)
column strip at zero = some []
column strip at (suc n) = push (get_elem? strip (at % length strip)) (column strip (at + 1) n)

-- `payoutFor`
unfoldable pub find_pays : ℕ → List (ℕ × List ℤ) → Option (List ℤ)
find_pays sym [] = none
find_pays sym ((s, pays) ∷ table) = if s == sym then some pays else find_pays sym table

abbrev pub times : Option ℤ → ℤ → Option ℤ
times none bet = none
times (some p) bet = some (mul64 p bet)

abbrev pub pay_of : Option (List ℤ) → ℕ → ℤ → Option ℤ
pay_of none count line_bet = some (pos 0)
pay_of (some pays) count line_bet =
    if ltb (length pays) count then some (pos 0) else times (get_elem? pays (count - 1)) line_bet

unfoldable pub payout_for : List (ℕ × List ℤ) → ℕ → ℕ → ℤ → Option ℤ
unfolding find_pays
payout_for table sym count line_bet =
    if count == 0 then some (pos 0) else pay_of (find_pays sym table) count line_bet

-- `candidateSymbols`
unfoldable pub symbols_but : ℕ → List (ℕ × List ℤ) → List ℕ
symbols_but scatter [] = []
symbols_but scatter ((s, pays) ∷ table) =
    let rest = symbols_but scatter table in if s == scatter then rest else s ∷ rest

unfoldable pub candidate_symbols : SlotMachine → ℕ → List ℕ
unfolding symbols_but
candidate_symbols m first =
    if first == m.scatter
    then []
    else if not (first == m.wild)
    then first ∷ []
    else symbols_but m.scatter m.paytable

-- How many reels from the left a symbol fills on a line.
unfoldable pub fills : SlotMachine → ℕ → ℕ → Bool
fills m sym s = s == sym || (s == m.wild && not (sym == m.scatter))

abbrev pub one_more : Option ℕ → Option ℕ
one_more none = none
one_more (some n) = some (suc n)

unfoldable pub run_length : SlotMachine → ℕ → Grid → List ℕ → Option ℕ
unfolding fills
run_length m sym grid [] = some 0
run_length m sym [] (row ∷ line) = none
run_length m sym (reel ∷ grid) (row ∷ line) = elim (get_elem? reel row) [
  | none ↦ none
  | some s ↦ elim (fills m sym s) [ true ↦ one_more (run_length m sym grid line) | false ↦ some 0 ]
]

-- The loop over the candidates of one line.
abbrev pub better : LineWin → ℕ → ℕ → ℕ → ℤ → LineWin
better best li sym count payout =
    if ltb_ℤ best.payout payout
    then record { line = li; symbol = sym; count = count; payout = payout }
    else best

unfoldable pub best_of : SlotMachine → Grid → List ℕ → ℤ → ℕ → LineWin → List ℕ → Option LineWin
unfolding run_length payout_for
best_of m grid line line_bet li best [] = some best
best_of m grid line line_bet li best (sym ∷ syms) = elim (run_length m sym grid line) [
  | none ↦ none
  | some count ↦ elim (payout_for m.paytable sym count line_bet) [
    | none ↦ none
    | some payout ↦ best_of m grid line line_bet li (better best li sym count payout) syms
  ]
]

abbrev pub no_win : ℕ → LineWin
no_win li = record { line = li; symbol = 0; count = 0; payout = pos 0 }

-- `grid[0][line[0]]`
abbrev pub first_symbol : Grid → List ℕ → Option ℕ
first_symbol [] line = none
first_symbol (reel ∷ grid) [] = none
first_symbol (reel ∷ grid) (row ∷ line) = get_elem? reel row

unfoldable pub eval_line : SlotMachine → Grid → List ℕ → ℤ → ℕ → Option LineWin
unfolding candidate_symbols best_of
eval_line m grid line line_bet li = elim (first_symbol grid line) [
  | none ↦ none
  | some first ↦ best_of m grid line line_bet li (no_win li) (candidate_symbols m first)
]

-- `evalLines`, from the line with index `li`.
abbrev pub add_win : LineWin → Option (List LineWin × ℤ) → Option (List LineWin × ℤ)
add_win best none = none
add_win best (some (wins, total)) =
    if ltb_ℤ (pos 0) best.payout then some (best ∷ wins, total) else some (wins, total)

abbrev pub sum_win : ℤ → LineWin → ℤ
sum_win total best = if ltb_ℤ (pos 0) best.payout then add64 total best.payout else total

unfoldable pub eval_lines :
    SlotMachine → Grid → ℤ → ℕ → ℤ → List (List ℕ) → Option (List LineWin × ℤ)
unfolding eval_line
eval_lines m grid line_bet li total [] = some ([], total)
eval_lines m grid line_bet li total (line ∷ lines) = elim (eval_line m grid line line_bet li) [
  | none ↦ none
  | some best ↦ add_win best (eval_lines m grid line_bet (li + 1) (sum_win total best) lines)
]

-- `evalScatter`
unfoldable pub count_reel : ℕ → List ℕ → ℕ
count_reel sym [] = 0
count_reel sym (s ∷ reel) = if s == sym then 1 + count_reel sym reel else count_reel sym reel

unfoldable pub count_symbol : ℕ → Grid → ℕ
unfolding count_reel
count_symbol sym [] = 0
count_symbol sym (reel ∷ grid) = count_reel sym reel + count_symbol sym grid

-- Entry k of a list, or its last one past the end.
abbrev pub at_most_last : {A : Type 0} → List A → ℕ → Option A
at_most_last xs i = get_elem? xs (if leb (length xs) i then length xs - 1 else i)

abbrev pub with_count : ℕ → Option ℤ → Option (ℕ × ℤ)
with_count count none = none
with_count count (some win) = some (count, win)

unfoldable pub eval_scatter : SlotMachine → Grid → ℤ → Option (ℕ × ℤ)
unfolding count_symbol
eval_scatter m grid bet =
    let count = count_symbol m.scatter grid in
    if count == 0 || length m.scatter_pays == 0
    then some (count, pos 0)
    else with_count count (times (at_most_last m.scatter_pays (count - 1)) bet)

-- `freeSpinsFor`
unfoldable pub free_spins_for : SlotMachine → ℕ → Bool → Option ℕ
free_spins_for m scatter free =
    if scatter == 0 || length m.free_spins == 0
    then some 0
    else if free && not m.free_spin_retrigger
    then some 0
    else at_most_last m.free_spins (scatter - 1)

module _ (G : Stream) where
  -- The stop and the visible column of every reel, one draw for each.
  unfoldable pub spin_reels : ℕ → List (List ℕ) → Source G → Option (List ℕ × Grid × Source G)
  unfolding column int_n
  spin_reels rows [] src = some ([], [], src)
  spin_reels rows (strip ∷ strips) src = elim (int_n G (length strip) src) [
    | none ↦ none
    | some (stop, src') ↦ elim (column strip stop rows) [
      | none ↦ none
      | some reel ↦ elim (spin_reels rows strips src') [
        | none ↦ none
        | some (stops, grid, src'') ↦ some (stop ∷ stops, reel ∷ grid, src'')
      ]
    ]
  ]

  -- The jackpot draw, made on a paid spin only.
  unfoldable pub jackpot_draw : SlotMachine → Bool → Source G → Bool × Source G
  unfolding chance
  jackpot_draw m free src =
      if not free && not (str_eq m.jackpot_pool "") && ltb_ℤ (pos 0) m.jackpot_chance_den
      then chance G m.jackpot_chance_num m.jackpot_chance_den src
      else (false, src)

  -- The result from the line wins on, with what the scatters pay and the free spins for them.
  unfoldable pub finish_spin :
      SlotMachine
      → ℕ
      → Bool
      → List ℕ
      → Grid
      → Source G
      → List LineWin × ℤ
      → ℕ × ℤ
      → ℕ
      → SpinResult × Source G
  unfolding jackpot_draw
  finish_spin m mult free stops grid src (wins, line_win) (scatters, scatter_win) awarded =
      let drawn = jackpot_draw m free src in
      (
        record {
          grid = grid;
          stops = stops;
          lines = wins;
          line_win = line_win;
          scatter = scatters;
          scatter_win = scatter_win;
          multiplier = mult;
          total_win = mul64 (add64 line_win scatter_win) (pos mult);
          free_spins_awarded = awarded;
          jackpot_hit = drawn.0;
        },
        drawn.1,
      )

  -- The rest of `Spin` once the reels have stopped.
  unfoldable pub settle_spin :
      SlotMachine
      → ℤ
      → ℕ
      → Bool
      → List ℕ × Grid × Source G
      → Result SpinError (SpinResult × Source G)
  unfolding eval_lines eval_scatter free_spins_for finish_spin
  settle_spin m bet mult free (stops, grid, src) = do
    require (ltb 0 (length m.paylines)) panics
    won ← or_panic (eval_lines m grid (div64 bet (length m.paylines)) 0 (pos 0) m.paylines)
    scattered ← or_panic (eval_scatter m grid bet)
    awarded ← or_panic (free_spins_for m scattered.0 free)
    ok (finish_spin m mult free stops grid src won scattered awarded)

  -- `Spin`; a nil machine is `none`.
  unfoldable pub spin :
      Option SlotMachine → Source G → ℤ → ℕ → Bool → Result SpinError (SpinResult × Source G)
  unfolding spin_reels settle_spin
  spin none src bet multiplier free = err no_machine
  spin (some m) src bet multiplier free = do
    reject (leb_ℤ bet (pos 0)) bad_bet
    spun ← or_panic (spin_reels m.rows m.reels src)
    settle_spin m bet (if multiplier == 0 then 1 else multiplier) free spun

  -- `Replay`: the free spins left, the multiplier, and the loop.
  unfoldable pub replay_from :
      ℕ → SlotMachine → ℤ → ℕ → ℕ → Source G → Result SpinError (List SpinResult × Source G)
  unfolding spin
  replay_from zero m bet free_left multiplier src = ok ([], src)
  replay_from (suc n) m bet free_left multiplier src = do
    let free = ltb 0 free_left
    (r, src') ← spin (some m) src bet (if free then multiplier else 1) free
    let left = if free then free_left - 1 else free_left
    let won = ltb 0 r.free_spins_awarded
    (rs, src'') ←
        replay_from n m bet (if won then u32 (left + r.free_spins_awarded) else left)
          (if won
            then (if m.free_spin_multiplier == 0 then 1 else m.free_spin_multiplier)
            else multiplier)
          src'
    ok (r ∷ rs, src'')
