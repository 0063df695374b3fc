-- ===== src/Slots/Lines.antt =====
-- Machines that pass the configuration check, in internal/slots/engine.go.
use f.Prelude.{
  ◌-◌, ◌%◌, leb, ltb, ◌||◌, ◌&&◌, not, Bool-cases, mul64, ℕ, zero, suc, ◌+◌, ◌≤◌, ◌<◌, ◌≡◌, ◌≢◌,
  refl, arith, ℤ, pos, ◌<ℤ◌, Option, none, some, List, [], ◌∷◌, length, All, ok, get_elem?-some,
  Bool, Option-cases, inl, inr, ap, div64, if◌then◌else◌, ◌==◌,
}
use f.Rng.{Stream, Source, roll}
use f.Slots.{
  at_most_last, pay_of, find_pays, eval_scatter, free_spins_for, count_symbol, SlotMachine, Grid,
  LineWin, SpinResult, column, run_length, better, best_of, no_win, eval_line, eval_lines,
  candidate_symbols, payout_for, sum_win, spin_reels, settle_spin, finish_spin, spin,
}

-- What the configuration check of pkg/gameconf/gameconf.go asks of the shape of a machine.
pub record IsMachine (m : SlotMachine) : Type 0 where
  pub rows_pos : 0 < m.rows
  pub reels_some : 0 < length m.reels
  pub strips_long : All (λ strip. m.rows ≤ length strip) m.reels
  pub lines_some : 0 < length m.paylines
  pub lines_fit :
      All (λ line. (length line ≡ length m.reels) × All (λ row. row < m.rows) line) m.paylines

-- A grid of `n` reels that show `rows` symbols each.
abbrev pub HasShape : ℕ → ℕ → Grid → Type 0
HasShape n rows grid = (length grid ≡ n) × All (λ reel. length reel ≡ rows) grid

column-some :
    (strip : List ℕ) (at n : ℕ)
    → 0 < length strip
    → (reel : List ℕ) × (column strip at n ≡ some reel) × (length reel ≡ n)
unfolding column
column-some strip at zero h = ([], refl, refl)
column-some strip at (suc n) h =
    let (s, shown) = get_elem?-some strip (at % length strip) (ground (arith, h)) in
    let (reel, e, long) = column-some strip (at + 1) n h in
    (s ∷ reel, rw shown (rw e refl), ap suc long)

-- The entry of a table that the code looks up is there.
at_most_last-some :
    {A : Type 0} (xs : List A) (i : ℕ) → 0 < length xs → (x : A) × (at_most_last xs i ≡ some x)
at_most_last-some xs i h =
    get_elem?-some xs (if leb (length xs) i then length xs - 1 else i) (ground arith)

pay_of-some :
    (pays : Option (List ℤ)) (count : ℕ) (bet : ℤ)
    → 0 < count
    → (p : ℤ) × (pay_of pays count bet ≡ some p)
pay_of-some none count bet h = (pos 0, refl)
pay_of-some (some pays) count bet h = elim (Bool-cases (ltb (length pays) count)) [
  | inl short ↦ (pos 0, rw short refl)
  | inr long ↦
      let (p, e) = get_elem?-some pays (count - 1) (ground (arith, long, h)) in
      (mul64 p bet, rw long (rw e refl))
]

payout_for-some :
    (table : List (ℕ × List ℤ)) (sym count : ℕ) (bet : ℤ)
    → (p : ℤ) × (payout_for table sym count bet ≡ some p)
unfolding payout_for
payout_for-some table sym count bet = elim (Bool-cases (count == 0)) [
  | inl z ↦ (pos 0, rw z refl)
  | inr c ↦
      let (p, e) = pay_of-some (find_pays sym table) count bet (ground (arith, c)) in (p, rw c e)
]

eval_scatter-some :
    (m : SlotMachine) (grid : Grid) (bet : ℤ) → (won : ℕ × ℤ) × (eval_scatter m grid bet ≡ some won)
unfolding eval_scatter
eval_scatter-some m grid bet =
    let count = count_symbol m.scatter grid in
    elim (Bool-cases (count == 0 || length m.scatter_pays == 0)) [
      | inl z ↦ ((count, pos 0), rw z refl)
      | inr c ↦
          let (p, e) = at_most_last-some m.scatter_pays (count - 1) (ground (arith, c)) in
          ((count, mul64 p bet), rw c (rw e refl))
    ]

free_spins_for-some :
    (m : SlotMachine) (scatter : ℕ) (free : Bool)
    → (n : ℕ) × (free_spins_for m scatter free ≡ some n)
unfolding free_spins_for
free_spins_for-some m scatter free = elim (Bool-cases (scatter == 0 || length m.free_spins == 0)) [
  | inl z ↦ (0, rw z refl)
  | inr c ↦ elim (Bool-cases (free && not m.free_spin_retrigger)) [
    | inl f ↦ (0, rw c (rw f refl))
    | inr f ↦
        let (n, e) = at_most_last-some m.free_spins (scatter - 1) (ground (arith, c)) in
        (n, rw c (rw f e))
  ]
]

abbrev IsSome : {A : Type 0} → Option A → Type 0
IsSome o = o ≢ none

run_length-IsSome :
    (m : SlotMachine) (sym rows : ℕ) (grid : Grid) (line : List ℕ)
    → length line ≡ length grid
    → All (λ reel. length reel ≡ rows) grid
    → All (λ row. row < rows) line
    → IsSome (run_length m sym grid line)
unfolding run_length
run_length-IsSome m sym rows grid [] e s r = ground arith
run_length-IsSome m sym rows [] (row ∷ line) e s r = absurd (omega arith)
run_length-IsSome m sym rows (reel ∷ grid) (row ∷ line) e s r =
    let (a, found) = get_elem?-some reel row (omega arith) in
    ground (arith, found, run_length-IsSome m sym rows grid line (omega arith) s.1 r.1)

best_of-IsSome :
    (m : SlotMachine) (rows : ℕ) (grid : Grid) (line : List ℕ) (bet : ℤ) (li : ℕ) (best : LineWin)
    (syms : List ℕ)
    → length line ≡ length grid
    → All (λ reel. length reel ≡ rows) grid
    → All (λ row. row < rows) line
    → IsSome (best_of m grid line bet li best syms)
unfolding best_of
best_of-IsSome m rows grid line bet li best [] e s r = ground arith
best_of-IsSome m rows grid line bet li best (sym ∷ syms) e s r =
    elim (Option-cases (run_length m sym grid line)) [
      | inl missing ↦ absurd (run_length-IsSome m sym rows grid line e s r missing)
      | inr (count, found) ↦
          let (paid, pays) = payout_for-some m.paytable sym count bet in
          let next = better best li sym count paid in
          ground (arith, found, pays, best_of-IsSome m rows grid line bet li next syms e s r)
    ]

eval_line-IsSome :
    (m : SlotMachine) (rows : ℕ) (grid : Grid) (line : List ℕ) (bet : ℤ) (li : ℕ)
    → 0 < length grid
    → length line ≡ length grid
    → All (λ reel. length reel ≡ rows) grid
    → All (λ row. row < rows) line
    → IsSome (eval_line m grid line bet li)
unfolding eval_line
eval_line-IsSome m rows [] line bet li p e s r = absurd (omega arith)
eval_line-IsSome m rows (reel ∷ grid) [] bet li p e s r = absurd (omega arith)
eval_line-IsSome m rows (reel ∷ grid) (row ∷ line) bet li p e s r =
    let (a, found) = get_elem?-some reel row (omega arith) in
    ground (
      arith,
      found,
      best_of-IsSome m rows (reel ∷ grid) (row ∷ line) bet li (no_win li) (candidate_symbols m a) e
          s r,
    )

eval_lines-IsSome :
    (m : SlotMachine) (rows : ℕ) (grid : Grid) (bet : ℤ) (li : ℕ) (total : ℤ)
    (lines : List (List ℕ))
    → 0 < length grid
    → All (λ reel. length reel ≡ rows) grid
    → All (λ line. (length line ≡ length grid) × All (λ row. row < rows) line) lines
    → IsSome (eval_lines m grid bet li total lines)
unfolding eval_lines
eval_lines-IsSome m rows grid bet li total [] p s a = ground arith
eval_lines-IsSome m rows grid bet li total (line ∷ lines) p s a =
    elim (Option-cases (eval_line m grid line bet li)) [
      | inl missing ↦ absurd (eval_line-IsSome m rows grid line bet li p a.0.0 s a.0.1 missing)
      | inr (best, found) ↦ ground (
        arith,
        found,
        eval_lines-IsSome m rows grid bet (li + 1) (sum_win total best) lines p s a.1,
      )
    ]

module _ (G : Stream) where
  -- The reels stop, and the grid has the machine's shape.
  abbrev Spun : ℕ → ℕ → Option (List ℕ × Grid × Source G) → Type 0
  Spun n rows o =
      (stops : List ℕ) × (grid : Grid) × (src : Source G) × (o ≡ some (stops, grid, src))
      × HasShape n rows grid

  spin_reels-Spun :
      (rows : ℕ) (reels : List (List ℕ)) (src : Source G)
      → 0 < rows
      → All (λ strip. rows ≤ length strip) reels
      → Spun (length reels) rows (spin_reels G rows reels src)
  unfolding spin_reels
  spin_reels-Spun rows [] src p a = ([], [], src, refl, (refl, tt))
  spin_reels-Spun rows (strip ∷ strips) src p a =
      let rolled = roll G (length strip) src in
      let (reel, shown, long) = column-some strip rolled.0 rows (omega (arith, p, a.0)) in
      let (stops, grid, after, e, (n, s)) = spin_reels-Spun rows strips rolled.1 p a.1 in
      (
        rolled.0 ∷ stops,
        reel ∷ grid,
        after,
        ground (arith, shown, e, p, a.0),
        (ap suc n, (long, s)),
      )

  settled :
      (m : SlotMachine) (bet : ℤ) (mult : ℕ) (free : Bool) (stops : List ℕ) (grid : Grid)
      (src : Source G)
      → 0 < length m.paylines
      → eval_lines m grid (div64 bet (length m.paylines)) 0 (pos 0) m.paylines ≢ none
      → (r : SpinResult) × (after : Source G) × (settle_spin G m bet mult free (stops, grid, src)
          ≡ ok (r, after))
  unfolding settle_spin
  settled m bet mult free stops grid src p some_lines =
      elim (Option-cases (eval_lines m grid (div64 bet (length m.paylines)) 0 (pos 0) m.paylines)) [
        | inl missing ↦ absurd (some_lines missing)
        | inr (won, found) ↦
            let (scattered, shown) = eval_scatter-some m grid bet in
            let (awarded, free_spins) = free_spins_for-some m scattered.0 free in
            let finished = finish_spin G m mult free stops grid src won scattered awarded in
            (finished.0, finished.1, ground (arith, found, shown, free_spins))
      ]

  -- A machine of a checked configuration and a positive bet give a result, whatever the draws: no
  -- index is out of range and nothing is divided by zero.
  pub spin_total :
      (m : SlotMachine) (src : Source G) (bet : ℤ) (mult : ℕ) (free : Bool)
      → IsMachine m
      → pos 0 <ℤ bet
      → (r : SpinResult) × (after : Source G) × (spin G (some m) src bet mult free ≡ ok (r, after))
  unfolding spin
  spin_total m src bet mult free v b =
      let (stops, grid, spun, e, (n, s)) =
        spin_reels-Spun m.rows m.reels src v.rows_pos v.strips_long in
      let some_lines =
        eval_lines-IsSome m m.rows grid (div64 bet (length m.paylines)) 0 (pos 0) m.paylines
          (omega arith) s (rw n v.lines_fit) in
      let (r, after, f) =
        settled m bet (if mult == 0 then 1 else mult) free stops grid spun v.lines_some
          some_lines in
      (r, after, ground (arith, e, f))
