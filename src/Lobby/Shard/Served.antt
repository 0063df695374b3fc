-- ===== src/Lobby/Shard/Served.antt =====
-- internal/lobby/shard.go: how the requests that wait are served when loads and commits report back.
use f.Prelude.{
  ℕ, zero, suc, ◌≤◌, ◌<◌, ◌+◌, ◌≡◌, refl, sym, ap, subst, ◌∙◌, arith, ℤ, eqb_refl, if◌then◌else◌,
  true, false, Option, none, some, List, [], ◌∷◌, ◌++◌, length, ok,
}
use f.Lobby.Shard.{
  Handlers, Effect, handled, marked_all, Seat, remove_at, new_seat, handler_done, dispatch, drain,
  drain_waiters, install, no_blobs, on_loaded, on_committed, Event, loaded, committed, step, run,
}
use f.Lobby.Shard.Shape.{
  Shape, away, waiting, idle, working, given_up, shut, idle_player, busy_player, open_seat,
  drain-busy,
}
use f.Lobby.Shard.Steps.{run-Shape}

module _ (H : Handlers) (own : ℤ) (v : ℕ → H.Outcome) where
  -- `n` commits report back, one after another, with the verdicts from `v i` on.
  abbrev pub commits_end : ℕ → ℕ → List (Event H)
  commits_end i zero = []
  commits_end i (suc n) = committed 0 (v i) ∷ commits_end (suc i) n

  -- After at most `k` reports no request waits.
  abbrev pub ServedIn : ℕ → ℕ → Seat H → Type 0
  ServedIn i k t = (n : ℕ) × (n ≤ k) × ((run H own (commits_end i n) t).waiters ≡ [])

  ServedIn-weaken : (i k : ℕ) (t : Seat H) → ServedIn i k t → ServedIn i (suc k) t
  ServedIn-weaken i k t (n, h, e) = (n, omega arith, e)

  on_committed-drain :
      (q : H.Pending) (w : H.Outcome) (c : H.Content) (ws : List H.Msg) (log : List (Effect H))
      → H.is_fenced w ≡ false
      → on_committed H q w (open_seat H (busy_player H c) ws false [] [] log)
        ≡ drain H ws (open_seat H (idle_player H (H.finish q w c)) ws false [] [] log)
  unfolding on_committed drain_waiters
  on_committed-drain q w c ws log h = rw h refl

  on_loaded-drain :
      (blobs : List H.Blob) (c : H.Content) (ws : List H.Msg) (log : List (Effect H))
      → H.from_blobs blobs ≡ some c
      → on_loaded H own own (ok blobs) (open_seat H none ws true [] [] log)
        ≡ drain H ws (
            open_seat H
              (idle_player H c)
              ws
              false
              []
              []
              (if no_blobs H blobs then log ++ (marked_all ∷ []) else log))
  unfolding on_loaded install drain_waiters
  on_loaded-drain blobs c ws log e = rw (eqb_refl own) (rw e refl)

  module _ (lively : (n : ℕ) → H.is_fenced (v n) ≡ false) where
    ServedIn-commit :
        (i k : ℕ) (q : H.Pending) (c : H.Content) (ws : List H.Msg) (log : List (Effect H))
        → ServedIn
            (suc i)
            k
            (drain H ws (open_seat H (idle_player H (H.finish q (v i) c)) ws false [] [] log))
        → ServedIn i (suc k) (open_seat H (busy_player H c) ws false [] (q ∷ []) log)
    unfolding run step remove_at
    ServedIn-commit i k q c ws log (n, h, e) = (
      suc n,
      omega arith,
      ap (λ t. (run H own (commits_end (suc i) n) t).waiters)
            (on_committed-drain q (v i) c ws log (lively i))
          ∙ e,
    )

    drain-ServedIn :
        (i : ℕ) (ms : List H.Msg) (c : H.Content) (log : List (Effect H))
        → ServedIn i (length ms) (drain H ms (open_seat H (idle_player H c) ms false [] [] log))
    unfolding drain dispatch run
    drain-ServedIn i [] c log = (0, omega arith, refl)
    drain-ServedIn i (m ∷ ms) c log =
        by_handler (H.handle c m) (λ j c' log'. drain-ServedIn j ms c' log')
      where
        by_handler :
            (r : H.Content × Option H.Pending)
            → ((j : ℕ) (c' : H.Content) (log' : List (Effect H))
                → ServedIn j
                    (length ms)
                    (drain H ms (open_seat H (idle_player H c') ms false [] [] log')))
            → ServedIn i
                (suc (length ms))
                (drain H ms (handler_done H m r (open_seat H (idle_player H c) ms false [] [] log)))
        by_handler (c', none) next =
            ServedIn-weaken i (length ms)
              (drain H ms (open_seat H (idle_player H c') ms false [] [] (log ++ (handled m ∷ []))))
              (next i c' (log ++ (handled m ∷ [])))
        by_handler (c', some q) next =
            let log' = log ++ (handled m ∷ []) in
            subst (ServedIn i (suc (length ms))) (sym (drain-busy H ms c' (q ∷ []) log'))
              (ServedIn-commit i (length ms) q c' ms log' (next (suc i) (H.finish q (v i) c') log'))

    module _ (blobs : List H.Blob) (content : H.Content)
        (e : H.from_blobs blobs ≡ some content) where
      -- The load reports back, then the commits.
      abbrev pub Settles : Seat H → Type 0
      Settles t =
          (n : ℕ) × (n ≤ suc (length t.waiters))
          × ((run H own (loaded 0 (ok blobs) ∷ commits_end 0 n) t).waiters ≡ [])

      Shape-Settles :
          {t : Seat H}
          → Shape H own t
          → t.closed ≡ false
          → 0 < length t.loads + length t.commits
          → Settles t
      unfolding run step remove_at
      Shape-Settles (away log) o h = absurd (omega arith)
      Shape-Settles (waiting ws none log l) o h = absurd (omega arith)
      Shape-Settles (waiting ws (some u) log l) o h =
          let log' = if no_blobs H blobs then log ++ (marked_all ∷ []) else log in
          let (n, g, d) = drain-ServedIn 0 ws content log' in
          (
            n,
            omega arith,
            ap (λ t. (run H own (commits_end 0 n) t).waiters)
                  (on_loaded-drain blobs content ws log e)
                ∙ d,
          )
      Shape-Settles (idle c log) o h = absurd (omega arith)
      Shape-Settles (working c ws none log l) o h = absurd (omega arith)
      Shape-Settles (working c ws (some q) log l) o h =
          ServedIn-commit 0 (length ws) q c ws log (drain-ServedIn 1 ws (H.finish q (v 0) c) log)
      Shape-Settles (given_up c ws log l g) o h = absurd (omega arith)
      Shape-Settles (shut l u w log) o h = absurd (cc o)

-- From any state that an open shard has reached, with a load or a commit of the player under way:
-- when the load reads a player and no commit is refused as outdated, the reports of the load and
-- of at most one commit more than there are requests waiting leave no request waiting.
pub run-Settles :
    (H : Handlers) (own : ℤ) (es : List (Event H)) (v : ℕ → H.Outcome)
    → ((n : ℕ) → H.is_fenced (v n) ≡ false)
    → (blobs : List H.Blob) (content : H.Content) → H.from_blobs blobs ≡ some content
    → (run H own es (new_seat H)).closed ≡ false
    → 0 < length (run H own es (new_seat H)).loads + length (run H own es (new_seat H)).commits
    → (let t = run H own es (new_seat H) in
        (n : ℕ) × (n ≤ suc (length t.waiters))
        × ((run H own (loaded 0 (ok blobs) ∷ commits_end H own v 0 n) t).waiters ≡ []))
run-Settles H own es v lively blobs content e o h =
    Shape-Settles H own v lively blobs content e (run-Shape H own es (away [])) o h
