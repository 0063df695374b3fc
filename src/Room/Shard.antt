-- ===== src/Room/Shard.antt =====
-- internal/room/handlers.go and shard.go: the shard's entry of one room. `uid` is the request's, or else the
-- envelope's. The broadcasts to the members are not modelled.
use f.Prelude.{
  ℕ, ◌+◌, ◌*◌, ◌%◌, leb, ltb, ◌==◌, if◌then◌else◌, Bool, true, false, not, ◌&&◌, ◌||◌, Option, none,
  some, List, ◌∷◌, u32, pos,
}
use f.Room.{
  Room, Snapshot, BattleResult, battling, settling, has, join, new_room, leave, is_empty, start,
  add_score, result, snapshot, from_snapshot,
}

-- `dirty` is the room's mark, `submitted` the snapshot that was last given to the IO pool, `stored` the one
-- in Redis, and `results` are those that `publishSettle` has been given.
pub record Entry : Type 0 where
  pub room : Option Room
  pub submitted : Option Snapshot
  pub stored : Option Snapshot
  pub dirty : Bool
  pub results : List BattleResult

pub data Answer : Type 0 where
  acknowledged bad_request room_not_found room_full not_found permission : Answer
  created : ℕ → Answer
  shown : Snapshot → Answer

abbrev pub with_room : Entry → (Room → Entry × Answer) → Entry × Answer
with_room e f = elim e.room [ none ↦ (e, room_not_found) | some r ↦ f r ]

-- A room that has changed, and `mark`.
abbrev pub mark : Room → Entry → Entry
mark r e = record e { room = some r; dirty = true }

-- `shard.Of` of pkg/shard/claim.go
unfoldable pub shard_of : ℕ → ℕ → ℕ
shard_of id shard_count = u32 (id % shard_count)

-- `closeRoom`, with the deletion of the snapshot, which a goroutine does when it is current.
unfoldable pub close_room : Entry → Entry
close_room e = elim e.room [
  | none ↦ e
  | some r ↦ record e { room = none; dirty = false; submitted = none; stored = none }
]

-- `handleCreate`
unfoldable pub handle_create : ℕ → ℕ → ℕ → ℕ → ℕ → List ℕ → ℕ → Entry → Entry × Answer
handle_create shard shard_count id mode max_n members now e =
    if id == 0
    then (e, bad_request)
    else if not (shard_of id shard_count == shard)
    then (e, bad_request)
    else elim e.room [
      | some r ↦ (e, created id)
      | none ↦ (mark (new_room id mode max_n members now) e, created id)
    ]

-- `handleJoin`, and its part after the lookup of the room.
unfoldable pub joining : ℕ → Entry → Room → Entry × Answer
joining uid e r =
    let (r', joined) = join uid r in
    if has uid r.members
    then (
      e,
      shown (record {
        room_id = r.id;
        mode = r.mode;
        state = r.state;
        members = r.members;
        created_at = 0;
        started_at = 0;
        frame = 0;
      }),
    )
    else if joined
    then (mark r' e, shown (snapshot r'))
    else (e, room_full)

unfoldable pub handle_join : ℕ → Entry → Entry × Answer
handle_join uid e = with_room e (joining uid e)

-- `handleLeave`, likewise.
unfoldable pub leaving : ℕ → Entry → Room → Entry × Answer
leaving uid e r =
    let (r', left) = leave uid r in
    if not left
    then (e, not_found)
    else if is_empty r'
    then (close_room (mark r' e), acknowledged)
    else (mark r' e, acknowledged)

unfoldable pub handle_leave : ℕ → Entry → Entry × Answer
handle_leave uid e = with_room e (leaving uid e)

-- `handleStart`
unfoldable pub starting : ℕ → Entry → Room → Entry × Answer
starting now e r =
    let (r', started) = start now r in
    if started then (mark r' e, acknowledged) else (e, bad_request)

unfoldable pub handle_start : ℕ → Entry → Entry × Answer
handle_start now e = with_room e (starting now e)

-- `settle`
unfoldable pub settle : Room → Entry → Entry
settle r e =
    let r' : Room = record r { settled = true; state = settling } in
    if r.settled || (r.state == settling)
    then e
    else record (mark r' e) { results = result r' ∷ e.results }

-- What `handleOp` does: a score takes the length of the payload.
pub data Op : Type 0 where
  scores : ℕ → Op
  finishes other : Op

unfoldable pub perform : ℕ → Op → Room → Entry → Entry
perform uid (scores n) r e = record e { room = some (add_score uid (pos (n + 1)) r) }
perform uid finishes r e = settle r e
perform uid other r e = e

-- `handleOp`
unfoldable pub operating : ℕ → Op → Entry → Room → Entry × Answer
operating uid op e r =
    if not (has uid r.members)
    then (e, permission)
    else if not (r.state == battling)
    then (e, bad_request)
    else (perform uid op r e, acknowledged)

unfoldable pub handle_op : ℕ → Op → Entry → Entry × Answer
handle_op uid op e = with_room e (operating uid op e)

-- `handleInfo`
unfoldable pub handle_info : Entry → Entry × Answer
handle_info e = with_room e (λ r. (e, shown (snapshot r)))

abbrev pub minute : ℕ
minute = 60000000000

abbrev pub battle_timeout : ℕ
battle_timeout = 5 * minute

abbrev pub idle_timeout : ℕ
idle_timeout = 2 * minute

-- Go's zero time lies longer ago than any timeout.
abbrev pub at_least_since : ℕ → ℕ → Option ℕ → Bool
at_least_since d now none = true
at_least_since d now (some t) = leb (t + d) now

abbrev pub more_than_since : ℕ → ℕ → Option ℕ → Bool
more_than_since d now none = true
more_than_since d now (some t) = ltb (t + d) now

-- The first loop of `Tick`, for the room.
unfoldable pub fight : ℕ → Entry → Room → Entry
fight now e r =
    let r' : Room = record r { frame = u32 (r.frame + 1) } in
    let e' : Entry = record e { room = some r' } in
    if not (r.state == battling)
    then e
    else if at_least_since battle_timeout now r.started_at
    then settle r' e'
    else e'

unfoldable pub advance : ℕ → Entry → Entry
advance now e = elim e.room [ none ↦ e | some r ↦ fight now e r ]

-- `gc`: whether the room is among the dead.
unfoldable pub is_dead : ℕ → Room → Bool
is_dead now r =
    is_empty r && more_than_since idle_timeout now r.created_at
    || (r.state == settling) && more_than_since idle_timeout now r.started_at

unfoldable pub gc : ℕ → Entry → Entry
gc now e = elim e.room [ none ↦ e | some r ↦ if is_dead now r then close_room e else e ]

-- `flush` and `buildBatch`: a marked room's snapshot is queued for the IO pool, unless its queue is full.
unfoldable pub flush : Bool → Entry → Entry
flush full e = elim e.room [
  | none ↦ record e { dirty = false }
  | some r ↦
      if e.dirty && not full then record e { submitted = some (snapshot r); dirty = false } else e
]

-- A write of the IO pool, whose workers keep no order, and `OnFlushResult` after one that fails.
unfoldable pub land : Snapshot → Entry → Entry
land snap e = record e { stored = some snap }

unfoldable pub fail_write : Entry → Entry
fail_write e = record e { dirty = true }

-- `FlushAllSync`, when the write is accepted: a marked room is written past the queue.
unfoldable pub flush_sync : Entry → Entry
flush_sync e = elim e.room [
  | none ↦ record e { dirty = false }
  | some r ↦
      if e.dirty
      then record e { submitted = some (snapshot r); stored = some (snapshot r); dirty = false }
      else e
]

-- `Init` of a new owner
unfoldable pub init : Entry → Entry
init e = elim e.stored [
  | none ↦ record e { room = none; dirty = false }
  | some snap ↦ record e { room = some (from_snapshot snap); dirty = false }
]

-- `FlushAllSync` in the old owner's `Close`, and the new owner. Nothing waits for the queue.
unfoldable pub hand_over : Entry → Entry
hand_over e = init (flush_sync e)
