-- ===== src/Lobby/Shard/Shape.antt =====
-- internal/lobby/shard.go: the shapes that a player's seat can have.
use f.Prelude.{
  ◌≤◌, ◌≡◌, refl, sym, subst, arith, ℤ, eqb_refl, leb, Bool, true, false, inl, inr, Bool-cases,
  Option, none, some, List, [], ◌∷◌, ◌++◌, map, length, length-append, Result, ok, err, Has,
}
use f.Lobby.Shard.{
  Handlers, queue_full, load_failed, corrupt, closing, Resident, Effect, handled, refused,
  marked_all, fence, Seat, max_waiters, enqueue, start_load, handler_done, dispatch, acquire,
  receive, drain, drain_waiters, fail_waiters, install, no_blobs, on_blobs, on_loaded,
}

abbrev pub in_flight {ℓ} : {A : Type ℓ} → Option A → List A
in_flight none = []
in_flight (some a) = a ∷ []

module _ (H : Handlers) where
  abbrev pub idle_player : H.Content → Option (Resident H)
  idle_player c = some (record { content = c; busy = false })

  abbrev pub busy_player : H.Content → Option (Resident H)
  busy_player c = some (record { content = c; busy = true })

  -- An open seat.
  abbrev pub open_seat :
      Option (Resident H) → List H.Msg → Bool → List ℤ → List H.Pending → List (Effect H) → Seat H
  open_seat p ws l ls qs log = record {
    player = p;
    waiters = ws;
    loading = l;
    closed = false;
    loads = ls;
    commits = qs;
    log = log;
  }

  -- A player is away, being loaded, idle, or busy with a commit, or the shard is closed. A goroutine
  -- that is gone without a report leaves the player loading or busy, and a commit that was refused as
  -- outdated leaves the queue of an idle player to the closing of the shard.
  pub data Shape (own : ℤ) : Seat H → Type 0 where
    away : (log : List (Effect H)) → Shape own (open_seat none [] false [] [] log)
    waiting :
        (ws : List H.Msg) (o : Option (Unit {0})) (log : List (Effect H))
        → length ws ≤ max_waiters
        → Shape own (open_seat none ws true (map (λ u. own) (in_flight o)) [] log)
    idle :
        (c : H.Content) (log : List (Effect H))
        → Shape own (open_seat (idle_player c) [] false [] [] log)
    working :
        (c : H.Content) (ws : List H.Msg) (o : Option H.Pending) (log : List (Effect H))
        → length ws ≤ max_waiters
        → Shape own (open_seat (busy_player c) ws false [] (in_flight o) log)
    given_up :
        (c : H.Content) (ws : List H.Msg) (log : List (Effect H))
        → length ws ≤ max_waiters
        → Has fence log
        → Shape own (open_seat (idle_player c) ws false [] [] log)
    shut :
        (l : Bool) (u : Option (Unit {0})) (o : Option H.Pending) (log : List (Effect H))
        → Shape own (record {
          player = none;
          waiters = [];
          loading = l;
          closed = true;
          loads = map (λ u. own) (in_flight u);
          commits = in_flight o;
          log = log;
        })

  Has-append : (log es : List (Effect H)) → Has fence log → Has fence (log ++ es)
  Has-append [] es h = absurd h
  Has-append (e ∷ log) es (inl h) = inl h
  Has-append (e ∷ log) es (inr h) = inr (Has-append log es h)

  pub Has-last : (log : List (Effect H)) → Has fence (log ++ (fence ∷ []))
  Has-last [] = inl refl
  Has-last (e ∷ log) = inr (Has-last log)

  enqueue-room :
      (p : Option (Resident H)) (ws : List H.Msg) (l : Bool) (ls : List ℤ) (qs : List H.Pending)
      (log : List (Effect H)) (m : H.Msg) (P : Seat H → Type 0)
      → ((ws : List H.Msg) (log' : List (Effect H))
          → length ws ≤ max_waiters
          → (Has fence log → Has fence log')
          → P (open_seat p ws l ls qs log'))
      → length ws ≤ max_waiters
      → P (enqueue H m (open_seat p ws l ls qs log))
  unfolding enqueue
  enqueue-room p ws l ls qs log m P f h = elim (Bool-cases (leb max_waiters (length ws))) [
    | inl e ↦
        rw e
          (f ws (log ++ (refused m queue_full ∷ [])) h (Has-append log (refused m queue_full ∷ [])))
    | inr e ↦ rw e (f (ws ++ (m ∷ [])) log (ground (arith, length-append ws (m ∷ []))) (λ k. k))
  ]

  handler_done-Shape :
      (own : ℤ) (m : H.Msg) (r : H.Content × Option H.Pending) (c : H.Content)
      (log : List (Effect H))
      → Shape own (handler_done H m r (open_seat (idle_player c) [] false [] [] log))
  handler_done-Shape own m (c', none) c log = idle c' (log ++ (handled m ∷ []))
  handler_done-Shape own m (c', some q) c log =
      working c' [] (some q) (log ++ (handled m ∷ [])) (omega arith)

  pub receive-Shape :
      (own : ℤ) (m : H.Msg) {t : Seat H} → Shape own t → Shape own (receive H own m t)
  unfolding receive acquire start_load enqueue dispatch
  receive-Shape own m (away log) = waiting (m ∷ []) (some tt) log (omega arith)
  receive-Shape own m (waiting ws u log h) =
      enqueue-room none ws true (map (λ x. own) (in_flight u)) [] log m
        (λ t. Shape own (start_load H own t)) (λ ws' log' h' k. waiting ws' u log' h') h
  receive-Shape own m (idle c log) = handler_done-Shape own m (H.handle c m) c log
  receive-Shape own m (working c ws o log h) =
      enqueue-room (busy_player c) ws false [] (in_flight o) log m (Shape own)
        (λ ws' log' h' k. working c ws' o log' h') h
  receive-Shape own m (given_up c [] log h g) = handler_done-Shape own m (H.handle c m) c log
  receive-Shape own m (given_up c (w ∷ ws) log h g) =
      enqueue-room (idle_player c) (w ∷ ws) false [] [] log m (Shape own)
        (λ ws' log' h' k. given_up c ws' log' h' (k g)) h
  receive-Shape own m (shut l u o log) = shut l u o (log ++ (refused m closing ∷ []))

  pub drain-busy :
      (ms : List H.Msg) (c : H.Content) (qs : List H.Pending) (log : List (Effect H))
      → drain H ms (open_seat (busy_player c) ms false [] qs log)
        ≡ open_seat (busy_player c) ms false [] qs log
  unfolding drain
  drain-busy [] c qs log = refl
  drain-busy (m ∷ ms) c qs log = refl

  pub drain-Shape :
      (own : ℤ) (ms : List H.Msg) (c : H.Content) (log : List (Effect H))
      → length ms ≤ max_waiters
      → Shape own (drain H ms (open_seat (idle_player c) ms false [] [] log))
  unfolding drain dispatch
  drain-Shape own [] c log h = idle c log
  drain-Shape own (m ∷ ms) c log h =
      by_handler (H.handle c m) (λ c' log'. drain-Shape own ms c' log' (omega arith))
    where
      by_handler :
          (r : H.Content × Option H.Pending)
          → ((c' : H.Content) (log' : List (Effect H))
              → Shape own (drain H ms (open_seat (idle_player c') ms false [] [] log')))
          → Shape own
              (drain H ms (handler_done H m r (open_seat (idle_player c) ms false [] [] log)))
      by_handler (c', none) next = next c' (log ++ (handled m ∷ []))
      by_handler (c', some q) next =
          subst (Shape own) (sym (drain-busy ms c' (q ∷ []) (log ++ (handled m ∷ []))))
            (working c' ms (some q) (log ++ (handled m ∷ [])) (omega arith))

  pub on_loaded-Shape :
      (own : ℤ) (read : Result (Unit {0}) (List H.Blob)) (ws : List H.Msg) (log : List (Effect H))
      → length ws ≤ max_waiters
      → Shape own (on_loaded H own own read (open_seat none ws true [] [] log))
  unfolding on_loaded install drain_waiters fail_waiters
  on_loaded-Shape own read ws log h = rw (eqb_refl own) (by_read read)
    where
      by_content :
          (o : Option H.Content) (new : Bool)
          → Shape own (install H o new (open_seat none ws false [] [] log))
      by_content none new = away (log ++ map (λ m. refused m corrupt) ws)
      by_content (some c) true = drain-Shape own ws c (log ++ (marked_all ∷ [])) h
      by_content (some c) false = drain-Shape own ws c log h

      by_read :
          (read : Result (Unit {0}) (List H.Blob))
          → Shape own (on_blobs H read (open_seat none ws false [] [] log))
      by_read (err e) = away (log ++ map (λ m. refused m load_failed) ws)
      by_read (ok blobs) = by_content (H.from_blobs blobs) (no_blobs H blobs)
