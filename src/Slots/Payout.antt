-- ===== src/Slots/Payout.antt =====
-- The payout of lines, internal/slots/engine.go, and the order in which a Go map is iterated.
use f.Prelude.{
  ℕ, ◌+◌, ◌≡◌, ◌≢◌, refl, sym, ap, arith, ℤ, ◌≤ℤ◌, none, some, List, [], ◌∷◌, Has, Option-cases,
  Bool-cases, inl, inr, ◌⊎◌, eq_of_parts, ltb_ℤ, ◌∙◌,
}
use f.Slots.{
  SlotMachine, Grid, LineWin, run_length, better, best_of, no_win, first_symbol, eval_line,
  eval_lines, candidate_symbols, symbols_but, find_pays, payout_for, sum_win,
}

module _ (m : SlotMachine) (grid : Grid) (line : List ℕ) (bet : ℤ) (li : ℕ) where
  -- The candidate `s` pays `p` on the line.
  abbrev Pays : ℕ → ℤ → Type 0
  Pays s p =
      (c : ℕ) × (run_length m s grid line ≡ some c) × (payout_for m.paytable s c bet ≡ some p)

  -- A candidate that is tried has its payout, and the rest are tried after it.
  pub best_of-cons :
      (b w : LineWin) (x : ℕ) (syms : List ℕ)
      → best_of m grid line bet li b (x ∷ syms) ≡ some w
      → (c : ℕ) × (paid : ℤ) × (run_length m x grid line ≡ some c)
        × (payout_for m.paytable x c bet ≡ some paid)
        × (best_of m grid line bet li (better b li x c paid) syms ≡ some w)
  unfolding best_of
  best_of-cons b w x syms e = elim (Option-cases (run_length m x grid line)) [
    | inl missing ↦ absurd (ground (arith, missing))
    | inr (c, found) ↦ elim (Option-cases (payout_for m.paytable x c bet)) [
      | inl missing ↦ absurd (ground (arith, found, missing))
      | inr (paid, pays) ↦ (c, paid, found, pays, ground (arith, found, pays))
    ]
  ]

  best_of-bound :
      (b w : LineWin) (syms : List ℕ)
      → best_of m grid line bet li b syms ≡ some w
      → (b.payout ≤ℤ w.payout) × ((s : ℕ) (p : ℤ) → Has s syms → Pays s p → p ≤ℤ w.payout)
  best_of-bound b w [] e = unfold best_of in (ground arith, λ s p h. absurd h)
  best_of-bound b w (x ∷ syms) e =
      let (c, paid, found, pays, more) = best_of-cons b w x syms e in
      let (low, all) = best_of-bound (better b li x c paid) w syms more in
      (ground arith, λ s p h q. bound_step s p c paid found low all h q pays)
    where
      bound_step :
          (s : ℕ) (p : ℤ) (c : ℕ) (paid : ℤ)
          → run_length m x grid line ≡ some c
          → (better b li x c paid).payout ≤ℤ w.payout
          → ((s : ℕ) (p : ℤ) → Has s syms → Pays s p → p ≤ℤ w.payout)
          → Has s (x ∷ syms)
          → Pays s p
          → payout_for m.paytable x c bet ≡ some paid
          → p ≤ℤ w.payout
      bound_step s p c paid found low all (inl same) (d, run, pay) e' =
          ground (arith, same, run, pay, found, e')
      bound_step s p c paid found low all (inr later) q e' = all s p later q

  best_of-attained :
      (b w : LineWin) (syms : List ℕ)
      → best_of m grid line bet li b syms ≡ some w
      → (w.payout ≡ b.payout) ⊎ ((s : ℕ) × Has s syms × Pays s w.payout)
  best_of-attained b w [] e = unfold best_of in inl (ground arith)
  best_of-attained b w (x ∷ syms) e =
      let (c, paid, found, pays, more) = best_of-cons b w x syms e in
      elim (best_of-attained (better b li x c paid) w syms more) [
        | inr (s, h, p) ↦ inr (s, inr h, p)
        | inl kept ↦ elim (Bool-cases (ltb_ℤ b.payout paid)) [
          | inl above ↦ inr (x, inl refl, (c, found, pays ∙ ap some (ground (arith, kept, above))))
          | inr less ↦ inl (ground (arith, kept, less))
        ]
      ]

-- The keys that are tried are those of the map but the scatter.
symbols_but-Has :
    (scatter s : ℕ) (table : List (ℕ × List ℤ))
    → Has s (symbols_but scatter table)
    → (s ≢ scatter) × (find_pays s table ≢ none)
unfolding symbols_but find_pays
symbols_but-Has scatter s [] h = absurd h
symbols_but-Has scatter s ((x, pays) ∷ table) h = ground (arith, symbols_but-Has scatter s table)

Has-symbols_but :
    (scatter s : ℕ) (table : List (ℕ × List ℤ))
    → s ≢ scatter
    → find_pays s table ≢ none
    → Has s (symbols_but scatter table)
unfolding symbols_but find_pays
Has-symbols_but scatter s [] n f = absurd (f refl)
Has-symbols_but scatter s ((x, pays) ∷ table) n f = ground (arith, Has-symbols_but scatter s table)

-- Two iteration orders of one paytable: every symbol has the same pays in both.
abbrev pub SameTable : List (ℕ × List ℤ) → List (ℕ × List ℤ) → Type 0
SameTable t u = (s : ℕ) → find_pays s t ≡ find_pays s u

abbrev pub with_table : SlotMachine → List (ℕ × List ℤ) → SlotMachine
with_table m t = record m { paytable = t }

run_length-with_table :
    (m : SlotMachine) (t : List (ℕ × List ℤ)) (s : ℕ) (grid : Grid) (line : List ℕ)
    → run_length (with_table m t) s grid line ≡ run_length m s grid line
unfolding run_length
run_length-with_table m t s grid [] = refl
run_length-with_table m t s [] (row ∷ line) = refl
run_length-with_table m t s (reel ∷ grid) (row ∷ line) =
    ground (arith, run_length-with_table m t s grid line)

candidates-with_table :
    (m : SlotMachine) (t u : List (ℕ × List ℤ)) (first s : ℕ)
    → SameTable t u
    → Has s (candidate_symbols (with_table m t) first)
    → Has s (candidate_symbols (with_table m u) first)
unfolding candidate_symbols
candidates-with_table m t u first s same h =
    ground (arith, symbols_but-Has m.scatter s t, Has-symbols_but m.scatter s u, same s)

payout_for-same :
    (t u : List (ℕ × List ℤ)) (s c : ℕ) (bet : ℤ)
    → SameTable t u
    → payout_for u s c bet ≡ payout_for t s c bet
unfolding payout_for
payout_for-same t u s c bet same = ground (arith, same s)

module _ (m : SlotMachine) (grid : Grid) (line : List ℕ) (bet : ℤ) (li : ℕ) where
  Pays-with_table :
      (t u : List (ℕ × List ℤ)) (s : ℕ) (p : ℤ)
      → SameTable t u
      → Pays (with_table m t) grid line bet li s p
      → Pays (with_table m u) grid line bet li s p
  Pays-with_table t u s p same (c, run, pay) = (
    c,
    run_length-with_table m u s grid line ∙ sym (run_length-with_table m t s grid line) ∙ run,
    payout_for-same t u s c bet same ∙ pay,
  )

  best_of-le :
      (t u : List (ℕ × List ℤ)) (first : ℕ) (w v : LineWin)
      → SameTable t u
      → best_of
          (with_table m t)
          grid
          line
          bet
          li
          (no_win li)
          (candidate_symbols (with_table m t) first)
        ≡ some w
      → best_of
          (with_table m u)
          grid
          line
          bet
          li
          (no_win li)
          (candidate_symbols (with_table m u) first)
        ≡ some v
      → w.payout ≤ℤ v.payout
  best_of-le t u first w v same e f =
      let bound =
        best_of-bound (with_table m u) grid line bet li (no_win li) v
          (candidate_symbols (with_table m u) first) f in
      elim (best_of-attained (with_table m t) grid line bet li (no_win li) w
        (candidate_symbols (with_table m t) first) e) [
          | inl zero_win ↦ rw zero_win bound.0
          | inr (s, has, pays) ↦
              bound.1 s w.payout (candidates-with_table m t u first s same has)
                (Pays-with_table t u s w.payout same pays)
        ]

  eval_line-le :
      (t u : List (ℕ × List ℤ)) (w v : LineWin)
      → SameTable t u
      → eval_line (with_table m t) grid line bet li ≡ some w
      → eval_line (with_table m u) grid line bet li ≡ some v
      → w.payout ≤ℤ v.payout
  unfolding eval_line
  eval_line-le t u w v same e f = elim (Option-cases (first_symbol grid line)) [
    | inl missing ↦ absurd (ground (arith, missing))
    | inr (first, found) ↦
        best_of-le t u first w v same (ground (arith, found)) (ground (arith, found))
  ]

  -- The payout of a line does not depend on the order in which the paytable is iterated. (The
  -- symbol and the count that are reported may.)
  pub eval_line_order :
      (t u : List (ℕ × List ℤ)) (w v : LineWin)
      → SameTable t u
      → eval_line (with_table m t) grid line bet li ≡ some w
      → eval_line (with_table m u) grid line bet li ≡ some v
      → w.payout ≡ v.payout
  eval_line_order t u w v same e f =
      eq_of_parts w.payout v.payout
        (omega (arith, eval_line-le t u w v same e f, eval_line-le u t v w (λ s. sym (same s)) f e))

eval_lines-cons :
    (m : SlotMachine) (grid : Grid) (bet : ℤ) (li : ℕ) (total a : ℤ) (line : List ℕ)
    (lines : List (List ℕ)) (ws : List LineWin)
    → eval_lines m grid bet li total (line ∷ lines) ≡ some (ws, a)
    → (best : LineWin) × (rest : List LineWin) × (eval_line m grid line bet li ≡ some best)
      × (eval_lines m grid bet (li + 1) (sum_win total best) lines ≡ some (rest, a))
unfolding eval_lines
eval_lines-cons m grid bet li total a line lines ws e =
    elim (Option-cases (eval_line m grid line bet li)) [
      | inl missing ↦ absurd (ground (arith, missing))
      | inr (best, found) ↦
          elim (Option-cases (eval_lines m grid bet (li + 1) (sum_win total best) lines)) [
            | inl missing ↦ absurd (ground (arith, found, missing))
            | inr ((rest, b), more) ↦ (best, rest, found, ground (arith, found, more))
          ]
    ]

module _ (m : SlotMachine) (grid : Grid) (bet : ℤ) (t u : List (ℕ × List ℤ))
    (same : SameTable t u) where
  -- The total of all the lines does not depend on the iteration order of the paytable, so a
  -- replay in another process pays the same.
  pub eval_lines_order :
      (li : ℕ) (total a b : ℤ) (lines : List (List ℕ)) (ws vs : List LineWin)
      → eval_lines (with_table m t) grid bet li total lines ≡ some (ws, a)
      → eval_lines (with_table m u) grid bet li total lines ≡ some (vs, b)
      → a ≡ b
  unfolding eval_lines
  eval_lines_order li total a b [] ws vs e f = ground arith
  eval_lines_order li total a b (line ∷ lines) ws vs e f =
      let (w, ws', ew, er) = eval_lines-cons (with_table m t) grid bet li total a line lines ws e in
      let (v, vs', fv, fr) = eval_lines-cons (with_table m u) grid bet li total b line lines vs f in
      let paid = eval_line_order m grid line bet li t u w v same ew fv in
      let total_same : sum_win total v ≡ sum_win total w = rw paid refl in
      eval_lines_order (li + 1) (sum_win total w) a b lines ws' vs' er (rw total_same at fr)
