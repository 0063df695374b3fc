-- ===== src/Idgen/Examples.antt =====
-- Runs of pkg/idgen/snowflake.go, and its theorems at concrete generators and clocks.
use f.Prelude.{◌≡◌, ◌≢◌, refl, inl, inr, arith, ℤ, pos, false, List, [], ◌∷◌, some, none, ok, sub64}
use f.Idgen.{
  Generator, Parts, next, settle, number, wait_next_milli, stamp, compose, parse, default_epoch,
}
use f.Idgen.Order.{IsValid}
use f.Idgen.Supply.{IsIncreasing, issued, issued-IsIncreasing, parse-next, next_returns}

-- Worker 257 has just issued the last number of millisecond 1704067200005.
abbrev busy : Generator
busy = record {
  worker_id = 257;
  epoch_ms = default_epoch;
  last_ts = pos 1704067200005;
  seq = 4095;
  halted = false;
}

busy-IsValid : IsValid busy
busy-IsValid = record {
  worker_fits = omega arith;
  seq_fits = omega arith;
  epoch_default = refl;
  last_fits = omega arith;
}

-- The millisecond is full, so the call waits for the next one.
abbrev ticks : List ℤ
ticks = pos 1704067200005 ∷ pos 1704067200005 ∷ pos 1704067200006 ∷ []

abbrev rolled : Generator
rolled = record busy { last_ts = pos 1704067200006; seq = 0 }

next_rolls : next busy ticks ≡ some (ok 26218496, rolled, [])
unfolding next settle number wait_next_milli stamp compose sub64
next_rolls = refl

issued-IsIncreasing_example : IsIncreasing (issued 3 busy ticks)
issued-IsIncreasing_example = issued-IsIncreasing 3 busy ticks busy-IsValid (omega arith)

abbrev rolled_parts : Parts
rolled_parts = record {
  timestamp = pos 1704067200006;
  worker_id = 257;
  seq = 0;
  svc_type = 2;
  node_seq = 1;
}

parse-next_example : parse 26218496 ≡ rolled_parts
parse-next_example = parse-next busy rolled ticks [] 26218496 busy-IsValid (omega arith) next_rolls

next_returns_example : next busy ticks ≢ none
next_returns_example = next_returns busy ticks (inr (inr (inl (omega arith))))
