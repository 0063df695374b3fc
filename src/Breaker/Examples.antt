-- ===== src/Breaker/Examples.antt =====
-- Runs of the breaker of pkg/idp/breaker.go, and its theorems at concrete logins.
use f.Prelude.{◌≡◌, refl, arith, pos, some, none, [], ◌∷◌, false, ◌<ℤ◌, ◌+ℤ◌, err}
use f.Breaker.{Breaker, new, is_empty, rejected, timed_out, verified, breaker_open}
use f.Breaker.Circuit.{IsBreaker, allowing, failing, succeeding, apply_all, reached-IsBreaker}
use f.Breaker.Logins.{Login, log_in, log_in_all, faults-open, rejected_probe-locks}

-- Open until 100, two failures are enough.
abbrev opened : Breaker
opened = record {
  threshold = pos 2;
  cooldown = pos 50;
  fails = pos 2;
  open_till = some (pos 100);
  probing = false;
}

abbrev closed : Breaker
closed = record opened { fails = pos 0; open_till = none }

abbrev faulty : Login
faulty = record { credential = "a"; start = pos 10; end = pos 13; outcome = timed_out }

abbrev bad : Login
bad = record { credential = "b"; start = pos 120; end = pos 121; outcome = rejected }

abbrev good : Login
good = record { credential = "c"; start = pos 60; end = pos 61; outcome = verified "me" "all" }

reached-IsBreaker_example :
    IsBreaker
      (apply_all (failing (pos 1) ∷ allowing (pos 2) ∷ succeeding ∷ []) (new (pos 1) (pos 0)))
reached-IsBreaker_example =
    reached-IsBreaker (pos 1) (pos 0) (failing (pos 1) ∷ allowing (pos 2) ∷ succeeding ∷ [])
      (omega arith)

soon : good.start <ℤ faulty.end +ℤ closed.cooldown
unfolding ◌+ℤ◌
soon = omega arith

given : (is_empty "a" ≡ false) × (is_empty "b" ≡ false) × (is_empty "c" ≡ false)
unfolding is_empty
given = (refl, refl, refl)

faults-open_example :
    let before = log_in_all "wx" (faulty ∷ []) closed in
    let after = (log_in "wx" faulty before).0 in
    (before.open_till ≡ none)
    × (after.open_till ≡ some (pos 13 +ℤ pos 50))
    × (log_in "wx" good after ≡ (after, err breaker_open))
faults-open_example =
    faults-open "wx" (faulty ∷ []) faulty good closed ((given.0, tt), tt) (given.0, tt) refl refl
      refl (omega arith) given.2 soon

rejected_probe-locks_example :
    let after = (log_in "wx" bad opened).0 in
    (log_in_all "wx" (faulty ∷ []) after ≡ after)
    × (log_in "wx" good after ≡ (after, err breaker_open))
rejected_probe-locks_example =
    rejected_probe-locks "wx" bad good (faulty ∷ []) opened (pos 100) refl (omega arith) refl refl
      given.1 given.2
