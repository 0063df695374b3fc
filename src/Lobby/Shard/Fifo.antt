-- ===== src/Lobby/Shard/Fifo.antt =====
-- internal/lobby/shard.go: the order in which a player's requests leave the queue.
use mathlib.Core.List.{append-nil, append_assoc}
use f.Prelude.{
  ℕ, ◌≡◌, refl, sym, ap, subst, ◌∙◌, ℤ, eqb_ℤ, leb, if◌then◌else◌, Bool, true, false, not, ◌&&◌,
  ◌||◌, ◌⊎◌, inl, inr, Bool-cases, Option, none, some, List, [], ◌∷◌, ◌++◌, map, length, get_elem?,
  Result, ok, err,
}
use f.Lobby.Shard.Log.{Interleave, end, left-snoc, right-snoc, turned_away, exits, arrivals, logs}
use f.Lobby.Shard.{
  Handlers, Refusal, queue_full, changed, load_failed, corrupt, closing, handover, Resident, Effect,
  refused, marked_all, fence, crashed, Seat, max_waiters, remove_at, new_seat, say, enqueue,
  start_load, handler_done, dispatch, is_busy, is_empty, acquire_as, acquire, dispatch_if, receive,
  is_free, drain, drain_waiters, fail_waiters, install, no_blobs, on_blobs, on_loaded,
  finish_player, on_committed, unload, close, Event, arrives, loaded, committed, load_lost,
  commit_lost, idle_timer, closes, load_ends, commit_ends, step, run,
}

module _ (H : Handlers) where
  abbrev pub queue_of : Seat H → List H.Msg
  queue_of t = exits H t.log ++ t.waiters

  -- No request enters or leaves; the one that arrives enters at the end or is turned away.
  abbrev Keeps : Seat H → Seat H → Type 0
  Keeps t t' = (queue_of t' ≡ queue_of t) × (turned_away H t'.log ≡ turned_away H t.log)

  abbrev Takes : H.Msg → Seat H → Seat H → Type 0
  Takes m t t' =
      ((queue_of t' ≡ queue_of t ++ (m ∷ [])) × (turned_away H t'.log ≡ turned_away H t.log))
      ⊎ ((queue_of t' ≡ queue_of t) × (turned_away H t'.log ≡ turned_away H t.log ++ (m ∷ [])))

  handler_done-queue :
      (m : H.Msg) (r : H.Content × Option H.Pending) (t : Seat H)
      → (queue_of (handler_done H m r t) ≡ exits H t.log ++ (m ∷ t.waiters))
        × (turned_away H (handler_done H m r t).log ≡ turned_away H t.log)
  handler_done-queue m (c, none) t = (simp logs, simp logs)
  handler_done-queue m (c, some q) t = (simp logs, simp logs)

  dispatch_if-Keeps :
      (p : Option (Resident H)) (m : H.Msg) (t : Seat H)
      → is_free H p ≡ true
      → (queue_of (dispatch_if H p m t) ≡ exits H t.log ++ (m ∷ t.waiters))
        × (turned_away H (dispatch_if H p m t).log ≡ turned_away H t.log)
  unfolding dispatch
  dispatch_if-Keeps none m t h = absurd (cc h)
  dispatch_if-Keeps (some p) m t h = handler_done-queue m (H.handle p.content m) t

  waiters-dispatch_if :
      (p : Option (Resident H)) (m : H.Msg) (t : Seat H) → (dispatch_if H p m t).waiters ≡ t.waiters
  unfolding dispatch
  waiters-dispatch_if none m t = refl
  waiters-dispatch_if (some p) m t = cases (H.handle p.content m)
    where
      cases : (r : H.Content × Option H.Pending) → (handler_done H m r t).waiters ≡ t.waiters
      cases (c, none) = refl
      cases (c, some q) = refl

  drain-Keeps : (ms : List H.Msg) (t : Seat H) → t.waiters ≡ ms → Keeps t (drain H ms t)
  unfolding drain
  drain-Keeps [] t h = (rw h refl, refl)
  drain-Keeps (m ∷ ms) t h = elim (Bool-cases (is_free H t.player)) [
    | inl e ↦
        let t' = dispatch_if H t.player m (record t { waiters = ms }) in
        let (a, b) =
          drain-Keeps ms t' (waiters-dispatch_if t.player m (record t { waiters = ms })) in
        let (c, d) = dispatch_if-Keeps t.player m (record t { waiters = ms }) e in
        rw e (a ∙ c ∙ ap (λ ws. exits H t.log ++ ws) (sym h), b ∙ d)
    | inr e ↦ rw e (refl, refl)
  ]

  -- The refusals of requests that had been accepted.
  abbrev is_late : Refusal → Bool
  is_late queue_full = false
  is_late closing = false
  is_late _ = true

  exits-map :
      (code : Refusal) (ms : List H.Msg)
      → is_late code ≡ true
      → (exits H (map (λ m. refused m code) ms) ≡ ms)
        × (turned_away H (map (λ m. refused m code) ms) ≡ [])
  exits-map code [] h = (refl, refl)
  exits-map queue_full (m ∷ ms) h = absurd (cc h)
  exits-map closing (m ∷ ms) h = absurd (cc h)
  exits-map changed (m ∷ ms) h = let (a, b) = exits-map changed ms h in (ap (λ r. m ∷ r) a, b)
  exits-map load_failed (m ∷ ms) h =
      let (a, b) = exits-map load_failed ms h in (ap (λ r. m ∷ r) a, b)
  exits-map corrupt (m ∷ ms) h = let (a, b) = exits-map corrupt ms h in (ap (λ r. m ∷ r) a, b)
  exits-map handover (m ∷ ms) h = let (a, b) = exits-map handover ms h in (ap (λ r. m ∷ r) a, b)

  fail_waiters-Keeps :
      (code : Refusal) (t : Seat H) → is_late code ≡ true → Keeps t (fail_waiters H code t)
  unfolding fail_waiters
  fail_waiters-Keeps code t h =
      let (a, b) = exits-map code t.waiters h in (simp (logs, a), simp (logs, b))

  -- An entry of the log that is about no request.
  say-Keeps :
      (e : Effect H) (t : Seat H)
      → exits H (e ∷ []) ≡ []
      → turned_away H (e ∷ []) ≡ []
      → Keeps t (say H e t)
  say-Keeps e t h1 h2 = (simp (logs, h1), simp (logs, h2))

  enqueue-Takes : (m : H.Msg) (t : Seat H) → Takes m t (enqueue H m t)
  unfolding enqueue
  enqueue-Takes m t = by_length (leb max_waiters (length t.waiters))
    where
      by_length :
          (b : Bool)
          → Takes m t (
              if b
              then say H (refused m queue_full) t
              else record t { waiters = t.waiters ++ (m ∷ []) })
      by_length true = inr (simp logs, simp logs)
      by_length false = inl (simp logs, refl)

  start_load-Keeps : (own : ℤ) (t : Seat H) → Keeps t (start_load H own t)
  unfolding start_load
  start_load-Keeps own t = elim (Bool-cases t.loading) [
    | inl e ↦ rw e (refl, refl)
    | inr e ↦ rw e (refl, refl)
  ]

  Takes-Keeps : (m : H.Msg) (t t1 t2 : Seat H) → Takes m t t1 → Keeps t1 t2 → Takes m t t2
  Takes-Keeps m t t1 t2 (inl h) k = inl (k.0 ∙ h.0, k.1 ∙ h.1)
  Takes-Keeps m t t1 t2 (inr h) k = inr (k.0 ∙ h.0, k.1 ∙ h.1)

  acquire_as-Takes :
      (p : Option (Resident H)) (own : ℤ) (m : H.Msg) (t : Seat H)
      → (let r = acquire_as H p own m t in Takes m t (dispatch_if H r.0 m r.1))
  unfolding dispatch
  acquire_as-Takes none own m t =
      Takes-Keeps m t (enqueue H m t) (start_load H own (enqueue H m t)) (enqueue-Takes m t)
        (start_load-Keeps own (enqueue H m t))
  acquire_as-Takes (some p) own m t = by_queue t.waiters refl p.busy
    where
      by_queue :
          (ws : List H.Msg)
          → t.waiters ≡ ws
          → (b : Bool)
          → (let r : Option (Resident H) × Seat H =
                if not b && is_empty H ws then (some p, t) else (none, enqueue H m t) in
              Takes m t (dispatch_if H r.0 m r.1))
      by_queue [] h false =
          let (a, b) = handler_done-queue m (H.handle p.content m) t in
          inl (a ∙ rw h (simp logs), b)
      by_queue [] h true = enqueue-Takes m t
      by_queue (w ∷ ws) h false = enqueue-Takes m t
      by_queue (w ∷ ws) h true = enqueue-Takes m t

  receive-Takes : (own : ℤ) (m : H.Msg) (t : Seat H) → Takes m t (receive H own m t)
  unfolding receive acquire
  receive-Takes own m t = by_closed t.closed
    where
      by_closed :
          (b : Bool)
          → Takes m t (
              if b
              then say H (refused m closing) t
              else let (p, t') = acquire_as H t.player own m t in dispatch_if H p m t')
      by_closed true = inr (simp logs, simp logs)
      by_closed false = acquire_as-Takes t.player own m t

  abbrev loaded_as : H.Content → Bool → Seat H → Seat H
  loaded_as c is_new t = record t {
    player = some (record { content = c; busy = false });
    log = if is_new then t.log ++ (marked_all ∷ []) else t.log;
  }

  install-Keeps :
      (c : Option H.Content) (is_new : Bool) (t : Seat H) → Keeps t (install H c is_new t)
  unfolding install drain_waiters
  install-Keeps none is_new t = fail_waiters-Keeps corrupt t refl
  install-Keeps (some c) is_new t = by_flags t.closed is_new
    where
      by_flags :
          (b new : Bool)
          → Keeps t (if b then say H crashed t else drain H t.waiters (loaded_as c new t))
      by_flags true new = say-Keeps crashed t refl refl
      by_flags false false = drain-Keeps t.waiters (loaded_as c false t) refl
      by_flags false true =
          let (a, b) = drain-Keeps t.waiters (loaded_as c true t) refl in
          (a ∙ simp logs, b ∙ simp logs)

  on_loaded-Keeps :
      (own epoch : ℤ) (read : Result (Unit {0}) (List H.Blob)) (t : Seat H)
      → Keeps t (on_loaded H own epoch read t)
  unfolding on_loaded
  on_loaded-Keeps own epoch read t = elim (Bool-cases (eqb_ℤ epoch own)) [
    | inl e ↦ rw e (by_read read)
    | inr e ↦ rw e (fail_waiters-Keeps changed (record t { loading = false }) refl)
  ]
    where
      by_read :
          (read : Result (Unit {0}) (List H.Blob))
          → Keeps t (on_blobs H read (record t { loading = false }))
      by_read (err e) = fail_waiters-Keeps load_failed (record t { loading = false }) refl
      by_read (ok blobs) =
          install-Keeps (H.from_blobs blobs) (no_blobs H blobs) (record t { loading = false })

  on_committed-Keeps : (q : H.Pending) (v : H.Outcome) (t : Seat H) → Keeps t (on_committed H q v t)
  unfolding on_committed drain_waiters
  on_committed-Keeps q v t =
      let t' = record t { player = finish_player H q v t.player } in
      elim (Bool-cases (H.is_fenced v)) [
        | inl e ↦ rw e (say-Keeps fence t' refl refl)
        | inr e ↦ rw e (drain-Keeps t.waiters t' refl)
      ]

  unload-Keeps : (t : Seat H) → Keeps t (unload H t)
  unfolding unload
  unload-Keeps t = by_queue (is_busy H t.player || t.loading) t.waiters refl
    where
      by_queue :
          (b : Bool) (ws : List H.Msg)
          → t.waiters ≡ ws
          → Keeps t
              (if b || not (is_empty H ws) then t else record t { player = none; waiters = [] })
      by_queue true ws h = (refl, refl)
      by_queue false [] h = (rw h refl, refl)
      by_queue false (w ∷ ws) h = (refl, refl)

  close-Keeps : (t : Seat H) → Keeps t (close H t)
  unfolding close
  close-Keeps t = fail_waiters-Keeps handover t refl

  load_ends-Keeps :
      (own : ℤ) (o : Option ℤ) (i : ℕ) (read : Result (Unit {0}) (List H.Blob)) (t : Seat H)
      → Keeps t (load_ends H own o i read t)
  load_ends-Keeps own none i read t = (refl, refl)
  load_ends-Keeps own (some epoch) i read t =
      on_loaded-Keeps own epoch read (record t { loads = remove_at i t.loads })

  commit_ends-Keeps :
      (o : Option H.Pending) (i : ℕ) (v : H.Outcome) (t : Seat H) → Keeps t (commit_ends H o i v t)
  commit_ends-Keeps none i v t = (refl, refl)
  commit_ends-Keeps (some q) i v t =
      on_committed-Keeps q v (record t { commits = remove_at i t.commits })

  abbrev Tallied : Seat H → List H.Msg → Type 0
  Tallied t ms = Interleave (turned_away H t.log) (queue_of t) ms

  Tallied-keep : (t t' : Seat H) (ms : List H.Msg) → Keeps t t' → Tallied t ms → Tallied t' ms
  Tallied-keep t t' ms (a, b) i = rw a (rw b i)

  Tallied-take :
      (m : H.Msg) (t t' : Seat H) (ms : List H.Msg)
      → Takes m t t'
      → Tallied t ms
      → Tallied t' (ms ++ (m ∷ []))
  Tallied-take m t t' ms (inl (a, b)) i = rw a (rw b (right-snoc m i))
  Tallied-take m t t' ms (inr (a, b)) i = rw a (rw b (left-snoc m i))

  run-Tallied :
      (own : ℤ) (es : List (Event H)) (t : Seat H) (ms : List H.Msg)
      → Tallied t ms
      → Tallied (run H own es t) (ms ++ arrivals H es)
  unfolding run step
  run-Tallied own [] t ms i = rw (append-nil ms) i
  run-Tallied own (arrives m ∷ es) t ms i =
      subst (λ l. Tallied (run H own es (receive H own m t)) l)
        (append_assoc ms (m ∷ []) (arrivals H es))
        (run-Tallied own es (receive H own m t) (ms ++ (m ∷ []))
          (Tallied-take m t (receive H own m t) ms (receive-Takes own m t) i))
  run-Tallied own (loaded k read ∷ es) t ms i =
      let t' = load_ends H own (get_elem? t.loads k) k read t in
      run-Tallied own es t' ms
        (Tallied-keep t t' ms (load_ends-Keeps own (get_elem? t.loads k) k read t) i)
  run-Tallied own (committed k v ∷ es) t ms i =
      let t' = commit_ends H (get_elem? t.commits k) k v t in
      run-Tallied own es t' ms
        (Tallied-keep t t' ms (commit_ends-Keeps (get_elem? t.commits k) k v t) i)
  run-Tallied own (load_lost k ∷ es) t ms i =
      run-Tallied own es (record t { loads = remove_at k t.loads }) ms i
  run-Tallied own (commit_lost k ∷ es) t ms i =
      run-Tallied own es (record t { commits = remove_at k t.commits }) ms i
  run-Tallied own (idle_timer ∷ es) t ms i =
      run-Tallied own es (unload H t) ms (Tallied-keep t (unload H t) ms (unload-Keeps t) i)
  run-Tallied own (closes ∷ es) t ms i =
      run-Tallied own es (close H t) ms (Tallied-keep t (close H t) ms (close-Keeps t) i)

-- Whatever events a player's seat on a new shard sees (requests, ends of loads and commits, lost
-- reports, idle timers, the closing), each request that has arrived is exactly once turned away
-- on arrival, or answered or handled later, or still waiting, and those that are not turned away
-- leave the queue in the order in which they arrived.
pub run-Interleave :
    (H : Handlers) (own : ℤ) (es : List (Event H))
    → (let t = run H own es (new_seat H) in
        Interleave (turned_away H t.log) (exits H t.log ++ t.waiters) (arrivals H es))
run-Interleave H own es = run-Tallied H own es (new_seat H) [] end
