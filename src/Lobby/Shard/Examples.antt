-- ===== src/Lobby/Shard/Examples.antt =====
-- internal/lobby/shard.go: a player who loads, commits and is served.
use f.Prelude.{
  ℕ, suc, ◌≤◌, ◌+◌, ◌≡◌, refl, arith, pos, ◌==◌, if◌then◌else◌, Bool, false, none, some, List, [],
  ◌∷◌, ◌++◌, length, ok,
}
use f.Lobby.Shard.{
  Handlers, Seat, remove_at, new_seat, enqueue, start_load, dispatch, acquire, receive, drain,
  drain_waiters, install, on_loaded, Event, arrives, loaded, step, run,
}
use f.Lobby.Shard.Log.{Interleave, turned_away, exits}
use f.Lobby.Shard.Fifo.{run-Interleave}
use f.Lobby.Shard.Reached.{run-IsSound, IsSound}
use f.Lobby.Shard.Served.{run-Settles, commits_end}

-- A player is a number; request 0 is answered at once, any other is committed and then added.
abbrev counter : Handlers
counter = record {
  Content = ℕ;
  Msg = ℕ;
  Pending = ℕ;
  Outcome = Bool;
  Blob = ℕ;
  handle = λ c m. if m == 0 then (c, none) else (c, some m);
  finish = λ q v c. if v then c else c + q;
  is_fenced = λ v. v;
  from_blobs = λ bs. some (length bs);
}

abbrev events : List (Event counter)
events = arrives 5 ∷ arrives 0 ∷ arrives 7 ∷ loaded 0 (ok []) ∷ arrives 2 ∷ []

abbrev reached : Seat counter
reached = run counter (pos 3) events (new_seat counter)

-- Request 5 has been handled and is being committed; three requests wait for it.
reached_waiters : reached.waiters ≡ 0 ∷ 7 ∷ 2 ∷ []
unfolding run step receive acquire enqueue start_load on_loaded install drain_waiters drain dispatch
    remove_at
reached_waiters = refl

run-Interleave_example :
    Interleave
      (turned_away counter reached.log)
      (exits counter reached.log ++ reached.waiters)
      (5 ∷ 0 ∷ 7 ∷ 2 ∷ [])
run-Interleave_example = run-Interleave counter (pos 3) events

run-IsSound_example : IsSound counter (pos 3) reached
run-IsSound_example = run-IsSound counter (pos 3) events

run-Settles_example :
    (n : ℕ) × (n ≤ suc (length reached.waiters))
    × ((run counter
          (pos 3)
          (loaded 0 (ok []) ∷ commits_end counter (pos 3) (λ i. false) 0 n)
          reached).waiters
        ≡ [])
unfolding run step receive acquire enqueue start_load on_loaded install drain_waiters drain dispatch
    remove_at
run-Settles_example =
    run-Settles counter (pos 3) events (λ i. false) (λ i. refl) [] 0 refl refl (omega arith)
