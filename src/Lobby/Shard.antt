-- ===== src/Lobby/Shard.antt =====
-- internal/lobby/shard.go: the queue of requests of one player on a shard, its loading, its commits in
-- flight, its unloading and the closing of the shard. The maps `players`, `waiters` and `loading` have
-- one key here, the player's; `closed` is the shard's. The goroutines that load and commit are in the
-- state, and `Event` is what the shard's own goroutine sees. What the handlers do to a player, and
-- the checks of a request before it has a player, are an interface.
pub mod Log
pub mod Fifo
pub mod Shape
pub mod Steps
pub mod Reached
pub mod Served
mod Examples
use f.Prelude.{
  ℕ, zero, suc, ℤ, eqb_ℤ, leb, ltb, if◌then◌else◌, Bool, true, false, ◌&&◌, ◌||◌, not, Option, none,
  some, List, [], ◌∷◌, ◌++◌, map, length, get_elem?, ◌==◌, Result, ok, err,
}

-- What `dispatch` calls. `handle` gives the player after the handler, and the request of the commit
-- that the handler started; `finish` is the callback of that commit.
pub record Handlers : Type 1 where
  pub Content : Type 0
  pub Msg : Type 0
  pub Pending : Type 0
  pub Outcome : Type 0
  pub Blob : Type 0
  pub handle : Content → Msg → Content × Option Pending
  pub finish : Pending → Outcome → Content → Content
  pub is_fenced : Outcome → Bool
  -- `FromBlobs`, `none` where it fails
  pub from_blobs : List Blob → Option Content

pub data Refusal : Type 0 where
  queue_full changed load_failed corrupt closing handover : Refusal

pub record Resident (H : Handlers) : Type 0 where
  pub content : H.Content
  pub busy : Bool

-- What the shard does besides: a request handled or answered with an error, all modules marked dirty,
-- the shard given up, a panic that the actor recovers from.
pub data Effect (H : Handlers) : Type 0 where
  handled : H.Msg → Effect H
  refused : H.Msg → Refusal → Effect H
  marked_all fence crashed : Effect H

pub record Seat (H : Handlers) : Type 0 where
  pub player : Option (Resident H)
  pub waiters : List H.Msg
  pub loading : Bool
  pub closed : Bool
  -- the epochs that the loading goroutines have captured, the requests of the committing ones
  pub loads : List ℤ
  pub commits : List H.Pending
  pub log : List (Effect H)

abbrev pub max_waiters : ℕ
max_waiters = 256

-- Take out the goroutine at a place.
unfoldable pub remove_at {ℓ} : {A : Type ℓ} → ℕ → List A → List A
remove_at i [] = []
remove_at zero (x ∷ xs) = xs
remove_at (suc i) (x ∷ xs) = x ∷ remove_at i xs

module _ (H : Handlers) where
  abbrev pub new_seat : Seat H
  new_seat = record {
    player = none;
    waiters = [];
    loading = false;
    closed = false;
    loads = [];
    commits = [];
    log = [];
  }

  abbrev pub say : Effect H → Seat H → Seat H
  say e t = record t { log = t.log ++ (e ∷ []) }

  -- `enqueue`
  unfoldable pub enqueue : H.Msg → Seat H → Seat H
  enqueue m t =
      if leb max_waiters (length t.waiters)
      then say (refused m queue_full) t
      else record t { waiters = t.waiters ++ (m ∷ []) }

  -- `startLoad`, with the epoch of the shard
  unfoldable pub start_load : ℤ → Seat H → Seat H
  start_load epoch t =
      if t.loading then t else record t { loading = true; loads = t.loads ++ (epoch ∷ []) }

  -- The end of a handler: it has answered, or `commit` has marked the player busy.
  abbrev pub handler_done : H.Msg → H.Content × Option H.Pending → Seat H → Seat H
  handler_done m (c, none) t = record t {
    player = some (record { content = c; busy = false });
    log = t.log ++ (handled m ∷ []);
  }
  handler_done m (c, some q) t = record t {
    player = some (record { content = c; busy = true });
    commits = t.commits ++ (q ∷ []);
    log = t.log ++ (handled m ∷ []);
  }

  unfoldable pub dispatch : Resident H → H.Msg → Seat H → Seat H
  dispatch p m t = handler_done m (H.handle p.content m) t

  abbrev pub is_busy : Option (Resident H) → Bool
  is_busy none = false
  is_busy (some p) = p.busy

  abbrev pub is_empty : List H.Msg → Bool
  is_empty [] = true
  is_empty (m ∷ ms) = false

  -- `acquire`: the player for the request, or none when it is queued.
  abbrev pub acquire_as : Option (Resident H) → ℤ → H.Msg → Seat H → Option (Resident H) × Seat H
  acquire_as none epoch m t = (none, start_load epoch (enqueue m t))
  acquire_as (some p) epoch m t =
      if not p.busy && is_empty t.waiters then (some p, t) else (none, enqueue m t)

  unfoldable pub acquire : ℤ → H.Msg → Seat H → Option (Resident H) × Seat H
  acquire epoch m t = acquire_as t.player epoch m t

  abbrev pub dispatch_if : Option (Resident H) → H.Msg → Seat H → Seat H
  dispatch_if none m t = t
  dispatch_if (some p) m t = dispatch p m t

  -- `Handle`, for a request that has passed the checks on its sender, command, player and shard
  unfoldable pub receive : ℤ → H.Msg → Seat H → Seat H
  receive epoch m t =
      if t.closed
      then say (refused m closing) t
      else let (p, t') = acquire epoch m t in dispatch_if p m t'

  abbrev pub is_free : Option (Resident H) → Bool
  is_free none = false
  is_free (some p) = not p.busy

  -- `drainWaiters`; the list is `t.waiters`.
  unfoldable pub drain : List H.Msg → Seat H → Seat H
  drain [] t = record t { waiters = [] }
  drain (m ∷ ms) t =
      let rest = drain ms (dispatch_if t.player m (record t { waiters = ms })) in
      if is_free t.player then rest else t

  unfoldable pub drain_waiters : Seat H → Seat H
  drain_waiters t = drain t.waiters t

  -- `failWaiters`, and the loop over the queues in `Close`
  unfoldable pub fail_waiters : Refusal → Seat H → Seat H
  fail_waiters code t = record t {
    waiters = [];
    log = t.log ++ map (λ m. refused m code) t.waiters;
  }

  -- The end of `onLoaded`. On a closed shard the map of players is nil, and the write panics.
  unfoldable pub install : Option H.Content → Bool → Seat H → Seat H
  install none is_new t = fail_waiters corrupt t
  install (some c) is_new t =
      if t.closed
      then say crashed t
      else drain_waiters (record t {
        player = some (record { content = c; busy = false });
        log = if is_new then t.log ++ (marked_all ∷ []) else t.log;
      })

  abbrev pub no_blobs : List H.Blob → Bool
  no_blobs [] = true
  no_blobs (b ∷ bs) = false

  abbrev pub on_blobs : Result (Unit {0}) (List H.Blob) → Seat H → Seat H
  on_blobs (err e) t = fail_waiters load_failed t
  on_blobs (ok blobs) t = install (H.from_blobs blobs) (no_blobs blobs) t

  -- `onLoaded`: the shard's epoch, the one that the goroutine captured, and what it read
  unfoldable pub on_loaded : ℤ → ℤ → Result (Unit {0}) (List H.Blob) → Seat H → Seat H
  on_loaded own epoch read t =
      let t' = record t { loading = false } in
      if eqb_ℤ epoch own then on_blobs read t' else fail_waiters changed t'

  -- The player after `busy = false` and the callback.
  abbrev pub finish_player : H.Pending → H.Outcome → Option (Resident H) → Option (Resident H)
  finish_player q v none = none
  finish_player q v (some p) = some (record { content = H.finish q v p.content; busy = false })

  -- The closure that `commit` posts when its goroutine is done
  unfoldable pub on_committed : H.Pending → H.Outcome → Seat H → Seat H
  on_committed q v t =
      let t' = record t { player = finish_player q v t.player } in
      if H.is_fenced v then say fence t' else drain_waiters t'

  -- `unloadIdle`, for a player that has been idle for long enough, whose dirty modules are submitted
  unfoldable pub unload : Seat H → Seat H
  unload t =
      if is_busy t.player || t.loading || not (is_empty t.waiters)
      then t
      else record t { player = none; waiters = [] }

  -- `Close`
  unfoldable pub close : Seat H → Seat H
  close t = record (fail_waiters handover t) { closed = true; player = none }

  -- `load_lost` and `commit_lost`: the closure of the goroutine was not posted, the mailbox being full.
  pub data Event : Type 0 where
    arrives : H.Msg → Event
    loaded : ℕ → Result (Unit {0}) (List H.Blob) → Event
    committed : ℕ → H.Outcome → Event
    load_lost commit_lost : ℕ → Event
    idle_timer closes : Event

  abbrev pub load_ends : ℤ → Option ℤ → ℕ → Result (Unit {0}) (List H.Blob) → Seat H → Seat H
  load_ends own none i read t = t
  load_ends own (some epoch) i read t =
      on_loaded own epoch read (record t { loads = remove_at i t.loads })

  abbrev pub commit_ends : Option H.Pending → ℕ → H.Outcome → Seat H → Seat H
  commit_ends none i v t = t
  commit_ends (some q) i v t = on_committed q v (record t { commits = remove_at i t.commits })

  unfoldable pub step : ℤ → Event → Seat H → Seat H
  step own (arrives m) t = receive own m t
  step own (loaded i read) t = load_ends own (get_elem? t.loads i) i read t
  step own (committed i v) t = commit_ends (get_elem? t.commits i) i v t
  step own (load_lost i) t = record t { loads = remove_at i t.loads }
  step own (commit_lost i) t = record t { commits = remove_at i t.commits }
  step own idle_timer t = unload t
  step own closes t = close t

  unfoldable pub run : ℤ → List Event → Seat H → Seat H
  run own [] t = t
  run own (e ∷ es) t = run own es (step own e t)
