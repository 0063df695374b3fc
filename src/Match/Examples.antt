-- ===== src/Match/Examples.antt =====
-- internal/match/match.go: a pool of the first mode, where two make a team.
use f.Prelude.{ℕ, ◌≡◌, refl, arith, ◌==◌, ◌||◌, false, List, [], ◌∷◌}
use f.Match.{Waiter, Bucket, team_size, try_match, match_rounds, sort, insert, suits, tolerance}
use f.Match.Pool.{
  IsPool, Splits, IsDone, try_match_lem, run, run-IsPool, enqueues, cancels, ticks, Event,
}

abbrev waiter : ℕ → ℕ → Waiter
waiter uid power = record { uid = uid; power = power; since = 100 }

abbrev crowd : Bucket
crowd = record {
  mode = 1;
  queue = waiter 1 5000 ∷ waiter 2 300 ∷ waiter 3 700 ∷ [];
  in_pool = λ u. (u == 1) || (u == 2) || (u == 3);
  closed = false;
}

crowd-IsPool : IsPool crowd
crowd-IsPool u = ground arith

try_match_lem_example : (let r = try_match 110 crowd in Splits 2 crowd r × IsDone 2 110 r.0)
unfolding team_size
try_match_lem_example = try_match_lem 110 crowd crowd-IsPool

-- The two that are close make a team.
crowd_teams : (try_match 110 crowd).1 ≡ (waiter 2 300 ∷ waiter 3 700 ∷ []) ∷ []
unfolding try_match match_rounds sort insert suits tolerance team_size
crowd_teams = refl

abbrev new_pool : Bucket
new_pool = record { mode = 1; queue = []; in_pool = λ u. false; closed = false }

abbrev events : List Event
events = enqueues 7 100 1 ∷ enqueues 8 9000 2 ∷ cancels 7 ∷ enqueues 9 8500 3 ∷ ticks 5 ∷ []

run-IsPool_example : IsPool (run events new_pool)
run-IsPool_example = run-IsPool events new_pool (λ u. refl)
