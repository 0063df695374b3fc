-- ===== src/Lobby/Spin/Guards.antt =====
-- The checks of `handleSpin`, internal/lobby/slots.go, on the requests that come to a commit.
use text.Mathlib.Text.{◌==◌ as str_eq}
use f.Prelude.{
  ℕ, ◌<◌, ◌≡◌, refl, ap, subst, arith, ℤ, ◌≤ℤ◌, ltb, ltb_ℤ, Bool, true, false, not, if◌then◌else◌,
  Option, none, some, List, Result, ok, err, ◌>>=◌, require, reject, String,
}
use f.Rng.{Stream}
use f.Rg.{PlayerRg, RgLimits, rollover, check_bet}
use f.Slots.{SlotMachine}
use f.Lobby.Bag.{Wallet}
use f.Lobby.Spin.{
  Round, SpinCommit, SpinRefusal, valid_bet, check_round, check_paid, rg_after_checks, or_missing,
  no_seed, no_round_id, bet_invalid, not_enough, round_open, other_machine, new_round, free_spin,
  paid_spin, prepare_spin,
}

bind-ok :
    {E A B : Type 0} (r : Result E A) (k : A → Result E B) (b : B)
    → (r >>= k) ≡ ok b
    → (a : A) × (r ≡ ok a) × (k a ≡ ok b)
bind-ok (ok a) k b h = (a, refl, h)
bind-ok (err e) k b h = absurd (cc h)

require-ok : {E : Type 0} (b : Bool) (e : E) (u : Unit {0}) → require b e ≡ ok u → b ≡ true
require-ok true e u h = refl
require-ok false e u h = absurd (cc h)

reject-ok : {E : Type 0} (b : Bool) (e : E) (u : Unit {0}) → reject b e ≡ ok u → b ≡ false
reject-ok true e u h = absurd (cc h)
reject-ok false e u h = refl

or_missing-ok :
    {A : Type 0} (e : SpinRefusal) (o : Option A) (a : A) → or_missing e o ≡ ok a → o ≡ some a
or_missing-ok e none a h = absurd (cc h)
or_missing-ok e (some x) a h = ap value h
  where
    value : {A : Type 0} → Result SpinRefusal A → Option A
    value (ok y) = some y
    value (err f) = none

check_paid-ok :
    (m : SlotMachine) (bet : ℤ) (w : Wallet) (rg : PlayerRg) (now : ℤ) (cfg : RgLimits)
    (u : Unit {0})
    → check_paid m bet w rg now cfg ≡ ok u
    → (valid_bet m.bet_levels bet ≡ true)
      × (bet ≤ℤ w m.currency)
      × ((check_bet (some (rollover rg now cfg).0) bet now cfg).allowed ≡ true)
unfolding check_paid
check_paid-ok m bet w rg now cfg u h =
    let (u1, valid, h1) = bind-ok (require (valid_bet m.bet_levels bet) bet_invalid) _ u h in
    let (u2, covered, h2) = bind-ok (reject (ltb_ℤ (w m.currency) bet) not_enough) _ u h1 in
    (
      require-ok (valid_bet m.bet_levels bet) bet_invalid u1 valid,
      ground (arith, reject-ok (ltb_ℤ (w m.currency) bet) not_enough u2 covered),
      require-ok _ _ u h2,
    )

round-tests :
    (a b : Bool) (u : Unit {0})
    → (if not a then err round_open else if b then ok tt else err other_machine) ≡ ok u
    → (a ≡ true) × (b ≡ true)
round-tests true true u h = (refl, refl)
round-tests true false u h = absurd (cc h)
round-tests false b u h = absurd (cc h)

rolled :
    (m : SlotMachine) (bet : ℤ) (w : Wallet) (rg : PlayerRg) (now : ℤ) (cfg : RgLimits)
    → valid_bet m.bet_levels bet ≡ true
    → bet ≤ℤ w m.currency
    → rg_after_checks m bet w rg now cfg ≡ (rollover rg now cfg).0
unfolding rg_after_checks
rolled m bet w rg now cfg valid covered = ground (arith, valid)

check_round-ok :
    (r : Round) (game : String) (u : Unit {0})
    → check_round (some r) game ≡ ok u
    → (0 < r.free_spins_left) × (str_eq r.game_id game ≡ true)
unfolding check_round
check_round-ok r game u h =
    let tests = round-tests (ltb 0 r.free_spins_left) (str_eq r.game_id game) u h in
    (ground (arith, tests.0), tests.1)

module _ (G : Stream) (m : SlotMachine) (game version : String) (cfg : RgLimits) (now bet : ℤ)
    (seed : Option (List ℕ)) (id : Option ℕ) (w : Wallet) (rg : PlayerRg) where
  abbrev prepared : Option Round → Result SpinRefusal SpinCommit
  prepared round = prepare_spin G (some m) game cfg version now bet seed id w rg round

  -- A request without an open round comes to a commit only with a bet of the machine's levels
  -- that the balance covers and that the limits let through after the rollover of the day, with a
  -- seed and a round number; it is then the paid spin of a new round with the client's bet.
  pub prepare_spin-paid_spin :
      (c : SpinCommit)
      → prepared none ≡ ok c
      → (valid_bet m.bet_levels bet ≡ true)
        × (bet ≤ℤ w m.currency)
        × ((check_bet (some (rollover rg now cfg).0) bet now cfg).allowed ≡ true)
        × ((s : List ℕ) × (n : ℕ) × (seed ≡ some s)
            × (id ≡ some n)
            × (paid_spin G m now w (rollover rg now cfg).0 s (new_round m game version now bet n s)
                ≡ ok c))
  unfolding prepare_spin check_round
  prepare_spin-paid_spin c h =
      let (u, checked, h1) = bind-ok (check_paid m bet w rg now cfg) _ c h in
      let (s, seeded, h2) = bind-ok (or_missing no_seed seed) _ c h1 in
      let (n, numbered, h3) = bind-ok (or_missing no_round_id id) _ c h2 in
      let guards = check_paid-ok m bet w rg now cfg u checked in
      (
        guards.0,
        guards.1,
        guards.2,
        (
          s,
          n,
          or_missing-ok no_seed seed s seeded,
          or_missing-ok no_round_id id n numbered,
          subst (λ x. paid_spin G m now w x s (new_round m game version now bet n s) ≡ ok c)
              (rolled m bet w rg now cfg guards.0 guards.1) h3,
        ),
      )

  -- A request with an open round comes to a commit only when the round has free spins left and is
  -- of the same game; it is then the free spin of that round, whatever bet the client sends.
  pub prepare_spin-free_spin :
      (r : Round) (c : SpinCommit)
      → prepared (some r) ≡ ok c
      → (0 < r.free_spins_left) × (str_eq r.game_id game ≡ true) × (free_spin G m now w rg r ≡ ok c)
  unfolding prepare_spin
  prepare_spin-free_spin r c h =
      let (u, checked, h1) = bind-ok (check_round (some r) game) _ c h in
      let open_round = check_round-ok r game u checked in (open_round.0, open_round.1, h1)
