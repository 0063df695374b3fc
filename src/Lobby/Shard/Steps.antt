-- ===== src/Lobby/Shard/Steps.antt =====
-- internal/lobby/shard.go: every event keeps the shape of a seat.
use f.Prelude.{
  ℕ, zero, suc, ◌≤◌, ℤ, eqb_refl, if◌then◌else◌, Bool, true, false, inl, inr, Bool-cases, Option,
  none, some, List, [], ◌∷◌, ◌++◌, map, length, get_elem?, Result, ok, err,
}
use f.Lobby.Shard.{
  Handlers, handover, Effect, refused, fence, crashed, Seat, max_waiters, remove_at, say, drain,
  drain_waiters, fail_waiters, install, no_blobs, on_blobs, on_loaded, on_committed, unload, close,
  Event, arrives, loaded, committed, load_lost, commit_lost, idle_timer, closes, load_ends,
  commit_ends, step, run,
}
use f.Lobby.Shard.Shape.{
  Shape, away, waiting, idle, working, given_up, shut, in_flight, idle_player, busy_player,
  open_seat, Has-last, receive-Shape, drain-Shape, on_loaded-Shape,
}

module _ (H : Handlers) where
  shut_loaded :
      (own : ℤ) (read : Result (Unit {0}) (List H.Blob)) (l : Bool) (o : Option H.Pending)
      (log : List (Effect H))
      → Shape H own (
          on_loaded H own own read (record {
            player = none;
            waiters = [];
            loading = l;
            closed = true;
            loads = [];
            commits = in_flight o;
            log = log;
          }))
  unfolding on_loaded install fail_waiters
  shut_loaded own read l o log = rw (eqb_refl own) (by_read read)
    where
      closed_seat : Seat H
      closed_seat = record {
        player = none;
        waiters = [];
        loading = false;
        closed = true;
        loads = [];
        commits = in_flight o;
        log = log;
      }

      by_content : (c : Option H.Content) (new : Bool) → Shape H own (install H c new closed_seat)
      by_content none new = shut false none o (log ++ [])
      by_content (some c) new = shut false none o (log ++ (crashed ∷ []))

      by_read : (read : Result (Unit {0}) (List H.Blob)) → Shape H own (on_blobs H read closed_seat)
      by_read (err e) = shut false none o (log ++ [])
      by_read (ok blobs) = by_content (H.from_blobs blobs) (no_blobs H blobs)

  load_ends-Shape :
      (own : ℤ) (i : ℕ) (read : Result (Unit {0}) (List H.Blob)) {t : Seat H}
      → Shape H own t
      → Shape H own (load_ends H own (get_elem? t.loads i) i read t)
  unfolding remove_at
  load_ends-Shape own i read (away log) = away log
  load_ends-Shape own i read (waiting ws none log h) = waiting ws none log h
  load_ends-Shape own zero read (waiting ws (some u) log h) = on_loaded-Shape H own read ws log h
  load_ends-Shape own (suc i) read (waiting ws (some u) log h) = waiting ws (some u) log h
  load_ends-Shape own i read (idle c log) = idle c log
  load_ends-Shape own i read (working c ws o log h) = working c ws o log h
  load_ends-Shape own i read (given_up c ws log h g) = given_up c ws log h g
  load_ends-Shape own i read (shut l none o log) = shut l none o log
  load_ends-Shape own zero read (shut l (some u) o log) = shut_loaded own read l o log
  load_ends-Shape own (suc i) read (shut l (some u) o log) = shut l (some u) o log

  on_committed-Shape :
      (own : ℤ) (q : H.Pending) (v : H.Outcome) (c : H.Content) (ws : List H.Msg)
      (log : List (Effect H))
      → length ws ≤ max_waiters
      → Shape H own (on_committed H q v (open_seat H (busy_player H c) ws false [] [] log))
  unfolding on_committed drain_waiters
  on_committed-Shape own q v c ws log h = by_verdict (H.is_fenced v)
    where
      by_verdict :
          (b : Bool)
          → (let t = open_seat H (idle_player H (H.finish q v c)) ws false [] [] log in
              Shape H own (if b then say H fence t else drain H ws t))
      by_verdict true = given_up (H.finish q v c) ws (log ++ (fence ∷ [])) h (Has-last H log)
      by_verdict false = drain-Shape H own ws (H.finish q v c) log h

  shut_committed :
      (own : ℤ) (q : H.Pending) (v : H.Outcome) (l : Bool) (u : Option (Unit {0}))
      (log : List (Effect H))
      → Shape H own (
          on_committed H q v (record {
            player = none;
            waiters = [];
            loading = l;
            closed = true;
            loads = map (λ x. own) (in_flight u);
            commits = [];
            log = log;
          }))
  unfolding on_committed drain_waiters drain
  shut_committed own q v l u log = elim (Bool-cases (H.is_fenced v)) [
    | inl e ↦ rw e (shut l u none (log ++ (fence ∷ [])))
    | inr e ↦ rw e (shut l u none log)
  ]

  commit_ends-Shape :
      (own : ℤ) (i : ℕ) (v : H.Outcome) {t : Seat H}
      → Shape H own t
      → Shape H own (commit_ends H (get_elem? t.commits i) i v t)
  unfolding remove_at
  commit_ends-Shape own i v (away log) = away log
  commit_ends-Shape own i v (waiting ws u log h) = waiting ws u log h
  commit_ends-Shape own i v (idle c log) = idle c log
  commit_ends-Shape own i v (working c ws none log h) = working c ws none log h
  commit_ends-Shape own zero v (working c ws (some q) log h) = on_committed-Shape own q v c ws log h
  commit_ends-Shape own (suc i) v (working c ws (some q) log h) = working c ws (some q) log h
  commit_ends-Shape own i v (given_up c ws log h g) = given_up c ws log h g
  commit_ends-Shape own i v (shut l u none log) = shut l u none log
  commit_ends-Shape own zero v (shut l u (some q) log) = shut_committed own q v l u log
  commit_ends-Shape own (suc i) v (shut l u (some q) log) = shut l u (some q) log

  load_lost-Shape :
      (own : ℤ) (i : ℕ) {t : Seat H}
      → Shape H own t
      → Shape H own (record t { loads = remove_at i t.loads })
  unfolding remove_at
  load_lost-Shape own i (away log) = away log
  load_lost-Shape own i (waiting ws none log h) = waiting ws none log h
  load_lost-Shape own zero (waiting ws (some u) log h) = waiting ws none log h
  load_lost-Shape own (suc i) (waiting ws (some u) log h) = waiting ws (some u) log h
  load_lost-Shape own i (idle c log) = idle c log
  load_lost-Shape own i (working c ws o log h) = working c ws o log h
  load_lost-Shape own i (given_up c ws log h g) = given_up c ws log h g
  load_lost-Shape own i (shut l none o log) = shut l none o log
  load_lost-Shape own zero (shut l (some u) o log) = shut l none o log
  load_lost-Shape own (suc i) (shut l (some u) o log) = shut l (some u) o log

  commit_lost-Shape :
      (own : ℤ) (i : ℕ) {t : Seat H}
      → Shape H own t
      → Shape H own (record t { commits = remove_at i t.commits })
  unfolding remove_at
  commit_lost-Shape own i (away log) = away log
  commit_lost-Shape own i (waiting ws u log h) = waiting ws u log h
  commit_lost-Shape own i (idle c log) = idle c log
  commit_lost-Shape own i (working c ws none log h) = working c ws none log h
  commit_lost-Shape own zero (working c ws (some q) log h) = working c ws none log h
  commit_lost-Shape own (suc i) (working c ws (some q) log h) = working c ws (some q) log h
  commit_lost-Shape own i (given_up c ws log h g) = given_up c ws log h g
  commit_lost-Shape own i (shut l u none log) = shut l u none log
  commit_lost-Shape own zero (shut l u (some q) log) = shut l u none log
  commit_lost-Shape own (suc i) (shut l u (some q) log) = shut l u (some q) log

  unload-Shape : (own : ℤ) {t : Seat H} → Shape H own t → Shape H own (unload H t)
  unfolding unload
  unload-Shape own (away log) = away log
  unload-Shape own (waiting ws u log h) = waiting ws u log h
  unload-Shape own (idle c log) = away log
  unload-Shape own (working c ws o log h) = working c ws o log h
  unload-Shape own (given_up c [] log h g) = away log
  unload-Shape own (given_up c (w ∷ ws) log h g) = given_up c (w ∷ ws) log h g
  unload-Shape own (shut l u o log) = elim (Bool-cases l) [
    | inl e ↦ rw e (shut true u o log)
    | inr e ↦ rw e (shut false u o log)
  ]

  close-Shape : (own : ℤ) {t : Seat H} → Shape H own t → Shape H own (close H t)
  unfolding close fail_waiters
  close-Shape own (away log) = shut false none none (log ++ [])
  close-Shape own (waiting ws u log h) = shut true u none (log ++ map (λ m. refused m handover) ws)
  close-Shape own (idle c log) = shut false none none (log ++ [])
  close-Shape own (working c ws o log h) =
      shut false none o (log ++ map (λ m. refused m handover) ws)
  close-Shape own (given_up c ws log h g) =
      shut false none none (log ++ map (λ m. refused m handover) ws)
  close-Shape own (shut l u o log) = shut l u o (log ++ [])

  step-Shape : (own : ℤ) (e : Event H) {t : Seat H} → Shape H own t → Shape H own (step H own e t)
  unfolding step
  step-Shape own (arrives m) h = receive-Shape H own m h
  step-Shape own (loaded i read) h = load_ends-Shape own i read h
  step-Shape own (committed i v) h = commit_ends-Shape own i v h
  step-Shape own (load_lost i) h = load_lost-Shape own i h
  step-Shape own (commit_lost i) h = commit_lost-Shape own i h
  step-Shape own idle_timer h = unload-Shape own h
  step-Shape own closes h = close-Shape own h

  pub run-Shape :
      (own : ℤ) (es : List (Event H)) {t : Seat H} → Shape H own t → Shape H own (run H own es t)
  unfolding run
  run-Shape own [] h = h
  run-Shape own (e ∷ es) h = run-Shape own es (step-Shape own e h)
