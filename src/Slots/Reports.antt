-- ===== src/Slots/Reports.antt =====
-- internal/slots/engine.go: the lines that two iteration orders of the paytable report.
use f.Prelude.{
  ℕ, ◌+◌, ◌≡◌, refl, sym, ap, ◌∙◌, arith, ℤ, pos, ltb_ℤ, if◌then◌else◌, none, some, Option, List,
  [], ◌∷◌, map, Option-cases, Bool-cases, inl, inr,
}
use f.Slots.{
  SlotMachine, Grid, LineWin, SpinResult, better, best_of, no_win, first_symbol, eval_line,
  eval_lines, candidate_symbols, sum_win,
}
use f.Slots.Payout.{SameTable, with_table, best_of-cons, eval_line_order}

-- A result without what depends on the order: which of several equal candidates a line reports.
abbrev pub forget : LineWin → LineWin
forget w = record w { symbol = 0; count = 0 }

abbrev pub core : SpinResult → SpinResult
core r = record r { lines = map forget r.lines }

pub some-injective : {A : Type 0} (a b : A) → ◌≡◌ {A = Option A} (some a) (some b) → a ≡ b
some-injective {A} a b h = ap (or a) h
  where
    or : A → Option A → A
    or d none = d
    or d (some x) = x

best_of-line :
    (m : SlotMachine) (grid : Grid) (line : List ℕ) (bet : ℤ) (li : ℕ) (b w : LineWin)
    (syms : List ℕ)
    → b.line ≡ li
    → best_of m grid line bet li b syms ≡ some w
    → w.line ≡ li
best_of-line m grid line bet li b w [] q e =
    unfold best_of in (ap (λ x. x.line) (sym (some-injective b w e)) ∙ q)
best_of-line m grid line bet li b w (x ∷ syms) q e =
    let (c, paid, found, pays, more) = best_of-cons m grid line bet li b w x syms e in
    best_of-line m grid line bet li (better b li x c paid) w syms (ground (arith, q)) more

eval_line-line :
    (m : SlotMachine) (grid : Grid) (line : List ℕ) (bet : ℤ) (li : ℕ) (w : LineWin)
    → eval_line m grid line bet li ≡ some w
    → w.line ≡ li
unfolding eval_line
eval_line-line m grid line bet li w e = elim (Option-cases (first_symbol grid line)) [
  | inl missing ↦ absurd (ground (arith, missing))
  | inr (first, found) ↦
      best_of-line m grid line bet li (no_win li) w (candidate_symbols m first) refl
        (ground (arith, found))
]

abbrev kept : LineWin → List LineWin → List LineWin
kept best rest = if ltb_ℤ (pos 0) best.payout then best ∷ rest else rest

eval_lines-wins :
    (m : SlotMachine) (grid : Grid) (bet : ℤ) (li : ℕ) (total a : ℤ) (line : List ℕ)
    (lines : List (List ℕ)) (ws : List LineWin)
    → eval_lines m grid bet li total (line ∷ lines) ≡ some (ws, a)
    → (best : LineWin) × (rest : List LineWin) × (eval_line m grid line bet li ≡ some best)
      × (eval_lines m grid bet (li + 1) (sum_win total best) lines ≡ some (rest, a))
      × (ws ≡ kept best rest)
unfolding eval_lines
eval_lines-wins m grid bet li total a line lines ws e =
    elim (Option-cases (eval_line m grid line bet li)) [
      | inl missing ↦ absurd (ground (arith, missing))
      | inr (best, found) ↦
          elim (Option-cases (eval_lines m grid bet (li + 1) (sum_win total best) lines)) [
            | inl missing ↦ absurd (ground (arith, found, missing))
            | inr ((rest, b), more) ↦
                (best, rest, found, ground (arith, found, more), ground (arith, found, more))
          ]
    ]

kept-forget :
    (w v : LineWin) (ws vs : List LineWin)
    → w.payout ≡ v.payout
    → w.line ≡ v.line
    → map forget ws ≡ map forget vs
    → map forget (kept w ws) ≡ map forget (kept v vs)
kept-forget w v ws vs p l h = elim (Bool-cases (ltb_ℤ (pos 0) v.payout)) [
  | inl c ↦ rw p (rw c (rw l (rw h refl)))
  | inr c ↦ rw p (rw c h)
]

module _ (m : SlotMachine) (grid : Grid) (bet : ℤ) (t u : List (ℕ × List ℤ))
    (same : SameTable t u) where
  pub eval_lines-forget :
      (li : ℕ) (total a b : ℤ) (lines : List (List ℕ)) (ws vs : List LineWin)
      → eval_lines (with_table m t) grid bet li total lines ≡ some (ws, a)
      → eval_lines (with_table m u) grid bet li total lines ≡ some (vs, b)
      → map forget ws ≡ map forget vs
  eval_lines-forget li total a b [] ws vs e f =
      unfold eval_lines in
      (let x = ap (λ (p : List LineWin × ℤ). p.0) (some-injective ([], total) (ws, a) e) in
        let y = ap (λ (p : List LineWin × ℤ). p.0) (some-injective ([], total) (vs, b) f) in
        ap (map forget) (sym x ∙ y))
  eval_lines-forget li total a b (line ∷ lines) ws vs e f =
      let (w, ws', ew, er, ek) =
        eval_lines-wins (with_table m t) grid bet li total a line lines ws e in
      let (v, vs', fv, fr, fk) =
        eval_lines-wins (with_table m u) grid bet li total b line lines vs f in
      let paid = eval_line_order m grid line bet li t u w v same ew fv in
      let total_same : sum_win total v ≡ sum_win total w = rw paid refl in
      let rest =
        eval_lines-forget (li + 1) (sum_win total w) a b lines ws' vs' er (rw total_same at fr) in
      let at =
        eval_line-line (with_table m t) grid line bet li w ew
        ∙ sym (eval_line-line (with_table m u) grid line bet li v fv) in
      ap (map forget) ek ∙ kept-forget w v ws' vs' paid at rest ∙ sym (ap (map forget) fk)
