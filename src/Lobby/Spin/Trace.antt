-- ===== src/Lobby/Spin/Trace.antt =====
-- Sequences of spins of internal/slots/engine.go on one random source, as `fastForward` of
-- internal/lobby/slots.go and `Replay` run them.
use f.Prelude.{
  ℕ, ◌+◌, ◌-◌, ◌<◌, ◌≡◌, refl, sym, ap, ◌∙◌, arith, ℤ, ltb, ◌==◌, if◌then◌else◌, ◌&&◌, List, [],
  ◌∷◌, ◌++◌, length, ok, err, Result, u32, some, ◌⊎◌, inl, inr,
}
use f.Rng.{Stream, Source}
use f.Slots.{SlotMachine, SpinResult, SpinError, spin, replay_from}
use f.Lobby.Spin.{fast_forward}

pub Result-cases :
    {E A : Type 0} (r : Result E A) → ((a : A) × (r ≡ ok a)) ⊎ ((e : E) × (r ≡ err e))
Result-cases (ok a) = inl (a, refl)
Result-cases (err e) = inr (e, refl)

-- The free spins left and the multiplier after a spin.
abbrev pub next_left : ℕ → SpinResult → ℕ
next_left left r =
    let left' = if ltb 0 left then left - 1 else left in
    if ltb 0 r.free_spins_awarded then u32 (left' + r.free_spins_awarded) else left'

abbrev pub next_mult : SlotMachine → ℕ → SpinResult → ℕ
next_mult m mult r =
    if ltb 0 r.free_spins_awarded && ltb 0 m.free_spin_multiplier
    then m.free_spin_multiplier
    else mult

-- Without a multiplier in the configuration it is 1 throughout.
abbrev pub IsMult : SlotMachine → ℕ → Type 0
IsMult m mult = (0 < mult) × (m.free_spin_multiplier ≡ 0 → mult ≡ 1)

module _ (G : Stream) (m : SlotMachine) (bet : ℤ) where
  abbrev pub spin_at : ℕ → ℕ → Source G → Result SpinError (SpinResult × Source G)
  spin_at left mult s = spin G (some m) s bet (if ltb 0 left then mult else 1) (ltb 0 left)

  -- The spins `rs`, one after another on one source, end in `e`: free spins left, multiplier, source.
  abbrev pub Trace : ℕ → ℕ → Source G → List SpinResult → ℕ × ℕ × Source G → Type 0
  Trace left mult s [] e = e ≡ (left, mult, s)
  Trace left mult s (r ∷ rs) e =
      (s' : Source G) × (spin_at left mult s ≡ ok (r, s'))
      × Trace (next_left left r) (next_mult m mult r) s' rs e

  pub Trace-snoc :
      (left mult : ℕ) (s : Source G) (rs : List SpinResult) (l' μ' : ℕ) (s1 s2 : Source G)
      (r : SpinResult)
      → Trace left mult s rs (l', μ', s1)
      → spin_at l' μ' s1 ≡ ok (r, s2)
      → Trace left mult s (rs ++ (r ∷ [])) (next_left l' r, next_mult m μ' r, s2)
  Trace-snoc left mult s [] l' μ' s1 s2 r t e =
      let same : ◌≡◌ {A = ℕ × ℕ × Source G} (l', μ', s1) (left, mult, s) = t in
      (
        s2,
        sym (ap (λ (x : ℕ × ℕ × Source G). spin_at x.0 x.1 x.2) same) ∙ e,
        ap (λ (x : ℕ × ℕ × Source G). (next_left x.0 r, next_mult m x.1 r, s2)) same,
      )
  Trace-snoc left mult s (q ∷ rs) l' μ' s1 s2 r (s', e', t) e =
      (s', e', Trace-snoc (next_left left q) (next_mult m mult q) s' rs l' μ' s1 s2 r t e)

  pub Trace-forward :
      (left mult : ℕ) (s : Source G) (rs : List SpinResult) (e : ℕ × ℕ × Source G)
      → Trace left mult s rs e
      → fast_forward G (length rs) m bet left mult s ≡ ok e
  unfolding fast_forward
  Trace-forward left mult s [] e t = ap ok (sym t)
  Trace-forward left mult s (r ∷ rs) e (s', f, t) =
      rw f (Trace-forward (next_left left r) (next_mult m mult r) s' rs e t)

  pub next_mult-IsMult : (mult : ℕ) (r : SpinResult) → IsMult m mult → IsMult m (next_mult m mult r)
  next_mult-IsMult mult r h = (ground (arith, h.0), λ z. ground (arith, h.1, z))

  same_mult :
      (mult : ℕ) (r : SpinResult)
      → IsMult m mult
      → (if ltb 0 r.free_spins_awarded
          then (if m.free_spin_multiplier == 0 then 1 else m.free_spin_multiplier)
          else mult)
        ≡ next_mult m mult r
  same_mult mult r h = ground (arith, h.1)

  pub Trace-replay :
      (left mult : ℕ) (s : Source G) (rs : List SpinResult) (e : ℕ × ℕ × Source G)
      → IsMult m mult
      → Trace left mult s rs e
      → replay_from G (length rs) m bet left mult s ≡ ok (rs, e.2)
  unfolding replay_from
  Trace-replay left mult s [] e h t = ap (λ (x : ℕ × ℕ × Source G). ok ([], x.2)) (sym t)
  Trace-replay left mult s (r ∷ rs) e h (s', f, t) = rw f (
      rw (same_mult mult r h) (
        rw
          (Trace-replay (next_left left r) (next_mult m mult r) s' rs e (next_mult-IsMult mult r h)
            t)
          refl))
