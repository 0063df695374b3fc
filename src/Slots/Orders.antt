-- ===== src/Slots/Orders.antt =====
-- internal/slots/engine.go: spins that iterate the paytable in different orders.
use f.Prelude.{
  ℕ, ◌≡◌, refl, sym, ap, subst, ◌∙◌, arith, ℤ, pos, ltb, leb_ℤ, ◌==◌, if◌then◌else◌, Bool, some,
  Option, List, map, length, div64, Option-cases, Bool-cases, inl, inr, ok, err, Result, ◌<ℤ◌,
}
use f.Rng.{Stream, Source}
use f.Slots.{
  SlotMachine, Grid, LineWin, SpinResult, SpinError, eval_lines, eval_scatter, free_spins_for,
  spin_reels, settle_spin, finish_spin, jackpot_draw, spin,
}
use f.Slots.Lines.{IsMachine, spin_total}
use f.Slots.Payout.{SameTable, with_table, eval_lines_order}
use f.Slots.Reports.{forget, core, some-injective, eval_lines-forget}

ok-injective : {A E : Type 0} (a b : A) → ◌≡◌ {A = Result E A} (ok a) (ok b) → a ≡ b
ok-injective {A} {E} a b h = ap (or a) h
  where
    or : A → Result E A → A
    or d (ok x) = x
    or d (err e) = d

with_table-IsMachine :
    (m : SlotMachine) (t : List (ℕ × List ℤ)) → IsMachine m → IsMachine (with_table m t)
with_table-IsMachine m t v = record {
  rows_pos = v.rows_pos;
  reels_some = v.reels_some;
  strips_long = v.strips_long;
  lines_some = v.lines_some;
  lines_fit = v.lines_fit;
}

-- Scatters and free spins do not look at the paytable.
scatter-same :
    (m : SlotMachine) (t u : List (ℕ × List ℤ)) (grid : Grid) (bet : ℤ) (sc sc' : ℕ × ℤ)
    → eval_scatter (with_table m t) grid bet ≡ some sc
    → eval_scatter (with_table m u) grid bet ≡ some sc'
    → ◌≡◌ {A = Option (ℕ × ℤ)} (some sc) (some sc')
unfolding eval_scatter
scatter-same m t u grid bet sc sc' e f = sym e ∙ f

free-same :
    (m : SlotMachine) (t u : List (ℕ × List ℤ)) (sc sc' : ℕ × ℤ) (free : Bool) (aw aw' : ℕ)
    → sc ≡ sc'
    → free_spins_for (with_table m t) sc.0 free ≡ some aw
    → free_spins_for (with_table m u) sc'.0 free ≡ some aw'
    → ◌≡◌ {A = Option ℕ} (some aw) (some aw')
unfolding free_spins_for
free-same m t u sc sc' free aw aw' q e f = sym e ∙ ap (λ x. free_spins_for m x.0 free) q ∙ f

module _ (G : Stream) where
  -- What a spin that gives a result has gone through.
  pub record Parts (m : SlotMachine) (src : Source G) (bet : ℤ) (mult : ℕ) (free : Bool)
      (r : SpinResult) (s : Source G) : Type 0 where
    pub stops : List ℕ
    pub grid : Grid
    pub src' : Source G
    pub won : List LineWin × ℤ
    pub scattered : ℕ × ℤ
    pub awarded : ℕ
    pub spun : spin_reels G m.rows m.reels src ≡ some (stops, grid, src')
    pub lines : eval_lines m grid (div64 bet (length m.paylines)) 0 (pos 0) m.paylines ≡ some won
    pub scatters : eval_scatter m grid bet ≡ some scattered
    pub free_spins : free_spins_for m scattered.0 free ≡ some awarded
    pub finished :
        finish_spin G m (if mult == 0 then 1 else mult) free stops grid src' won scattered awarded
        ≡ (r, s)

  settle-parts :
      (m : SlotMachine) (src : Source G) (bet : ℤ) (mult : ℕ) (free : Bool) (r : SpinResult)
      (s : Source G) (stops : List ℕ) (grid : Grid) (src' : Source G)
      → spin_reels G m.rows m.reels src ≡ some (stops, grid, src')
      → settle_spin G m bet (if mult == 0 then 1 else mult) free (stops, grid, src') ≡ ok (r, s)
      → Parts m src bet mult free r s
  unfolding settle_spin
  settle-parts m src bet mult free r s stops grid src' spun h =
      elim (Bool-cases (ltb 0 (length m.paylines))) [
        | inr c ↦ absurd (ground (arith, c, h))
        | inl c ↦
            elim (Option-cases
              (eval_lines m grid (div64 bet (length m.paylines)) 0 (pos 0) m.paylines)) [
                | inl missing ↦ absurd (ground (arith, c, missing, h))
                | inr (won, lines) ↦ elim (Option-cases (eval_scatter m grid bet)) [
                  | inl missing ↦ absurd (ground (arith, c, lines, missing, h))
                  | inr (scattered, scatters) ↦
                      elim (Option-cases (free_spins_for m scattered.0 free)) [
                        | inl missing ↦ absurd (ground (arith, c, lines, scatters, missing, h))
                        | inr (awarded, free_spins) ↦ record {
                          stops = stops;
                          grid = grid;
                          src' = src';
                          won = won;
                          scattered = scattered;
                          awarded = awarded;
                          spun = spun;
                          lines = lines;
                          scatters = scatters;
                          free_spins = free_spins;
                          finished =
                              ok-injective {E = SpinError}
                                (finish_spin G m (if mult == 0 then 1 else mult) free stops grid
                                  src' won scattered awarded)
                                (r, s) (ground (arith, c, lines, scatters, free_spins, h));
                        }
                      ]
                ]
              ]
      ]

  spin-parts :
      (m : SlotMachine) (src : Source G) (bet : ℤ) (mult : ℕ) (free : Bool) (r : SpinResult)
      (s : Source G)
      → spin G (some m) src bet mult free ≡ ok (r, s)
      → (pos 0 <ℤ bet) × Parts m src bet mult free r s
  unfolding spin
  spin-parts m src bet mult free r s h = elim (Bool-cases (leb_ℤ bet (pos 0))) [
    | inl bad ↦ absurd (ground (arith, bad, h))
    | inr good ↦ elim (Option-cases (spin_reels G m.rows m.reels src)) [
      | inl missing ↦ absurd (ground (arith, good, missing, h))
      | inr ((stops, grid, src'), spun) ↦ (
        ground (arith, good),
        settle-parts m src bet mult free r s stops grid src' spun (ground (arith, good, spun, h)),
      )
    ]
  ]

  -- The part of a spin after the reels have stopped.
  abbrev Rest :
      (m : SlotMachine) → ℤ → ℕ → Bool → SpinResult × Source G → List ℕ × Grid × Source G → Type 0
  Rest m bet mult free out x =
      (won : List LineWin × ℤ) × (scattered : ℕ × ℤ) × (awarded : ℕ) × (eval_lines m x.1
          (div64 bet (length m.paylines)) 0 (pos 0) m.paylines
        ≡ some won)
      × (eval_scatter m x.1 bet ≡ some scattered)
      × (free_spins_for m scattered.0 free ≡ some awarded)
      × (finish_spin G m (if mult == 0 then 1 else mult) free x.0 x.1 x.2 won scattered awarded
          ≡ out)

  -- Two results of the same draws, up to what the order decides.
  abbrev Agree : SpinResult × Source G → SpinResult × Source G → Type 0
  Agree x y = (core x.0 ≡ core y.0) × (x.1 ≡ y.1)

  finish-Agree :
      (m : SlotMachine) (t u : List (ℕ × List ℤ)) (mult : ℕ) (free : Bool) (stops : List ℕ)
      (grid : Grid) (src : Source G) (won won' : List LineWin × ℤ) (sc sc' : ℕ × ℤ) (aw aw' : ℕ)
      → map forget won.0 ≡ map forget won'.0
      → won.1 ≡ won'.1
      → sc ≡ sc'
      → aw ≡ aw'
      → Agree
          (finish_spin G (with_table m t) mult free stops grid src won sc aw)
          (finish_spin G (with_table m u) mult free stops grid src won' sc' aw')
  unfolding finish_spin jackpot_draw
  finish-Agree m t u mult free stops grid src won won' sc sc' aw aw' l a p q =
      rw l (rw a (rw p (rw q (refl, refl))))

  Rest-Agree :
      (m : SlotMachine) (t u : List (ℕ × List ℤ)) (bet : ℤ) (mult : ℕ) (free : Bool)
      (x : List ℕ × Grid × Source G) (out out' : SpinResult × Source G)
      → SameTable t u
      → Rest (with_table m t) bet mult free out x
      → Rest (with_table m u) bet mult free out' x
      → Agree out out'
  Rest-Agree m t u bet mult free x out out' same (won, sc, aw, l, e, f, g)
        (won', sc', aw', l', e', f', g') =
      let unit = div64 bet (length m.paylines) in
      let total =
        eval_lines_order m x.1 unit t u same 0 (pos 0) won.1 won'.1 m.paylines won.0 won'.0 l l' in
      let wins =
        eval_lines-forget m x.1 unit t u same 0 (pos 0) won.1 won'.1 m.paylines won.0 won'.0 l l' in
      let sc_same : sc ≡ sc' = some-injective sc sc' (scatter-same m t u x.1 bet sc sc' e e') in
      let aw_same : aw ≡ aw' =
        some-injective aw aw' (free-same m t u sc sc' free aw aw' sc_same f f') in
      let agree =
        finish-Agree m t u (if mult == 0 then 1 else mult) free x.0 x.1 x.2 won won' sc sc' aw aw'
          wins total sc_same aw_same in
      let played =
        finish_spin G (with_table m t) (if mult == 0 then 1 else mult) free x.0 x.1 x.2 won sc aw in
      subst (λ o. Agree o out') g (subst (λ o. Agree played o) g' agree)

  -- A spin of a checked machine with another order gives the same result, up to the reported symbols,
  -- and leaves the random source in the same state.
  pub spin-order :
      (m : SlotMachine) (t u : List (ℕ × List ℤ)) (src : Source G) (bet : ℤ) (mult : ℕ)
      (free : Bool) (r : SpinResult) (s : Source G)
      → SameTable t u
      → IsMachine m
      → spin G (some (with_table m t)) src bet mult free ≡ ok (r, s)
      → (r' : SpinResult) × (spin G (some (with_table m u)) src bet mult free ≡ ok (r', s))
        × (core r ≡ core r')
  spin-order m t u src bet mult free r s same v h =
      let (good, p) = spin-parts (with_table m t) src bet mult free r s h in
      let (r', s', e) =
        spin_total G (with_table m u) src bet mult free (with_table-IsMachine m u v) good in
      let q = (spin-parts (with_table m u) src bet mult free r' s' e).1 in
      let reels : ◌≡◌ {A = List ℕ × Grid × Source G} (q.stops, q.grid, q.src')
          (p.stops, p.grid, p.src') =
        some-injective (q.stops, q.grid, q.src') (p.stops, p.grid, p.src') (sym q.spun ∙ p.spun) in
      let mine : Rest (with_table m t) bet mult free (r, s) (p.stops, p.grid, p.src') =
        (p.won, p.scattered, p.awarded, p.lines, p.scatters, p.free_spins, p.finished) in
      let other : Rest (with_table m u) bet mult free (r', s') (p.stops, p.grid, p.src') =
        subst (Rest (with_table m u) bet mult free (r', s')) reels
          (q.won, q.scattered, q.awarded, q.lines, q.scatters, q.free_spins, q.finished) in
      let agree =
        Rest-Agree m t u bet mult free (p.stops, p.grid, p.src') (r, s) (r', s') same mine other in
      (r', e ∙ ap (λ x. ok (r', x)) (sym agree.1), agree.0)
