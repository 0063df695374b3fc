-- ===== src/Room/Once.antt =====
-- internal/room: what every request, tick and change of owner leaves of a room.
use f.Prelude.{Bool, true, ◌⊎◌, ℕ, ◌≡◌, false, Option, none, some, List, [], ◌∷◌}
use f.Room.{Room, Snapshot, snapshot, from_snapshot}
use f.Room.Shard.{
  Entry, Op, handle_join, handle_leave, handle_start, handle_op, advance, gc, flush, land,
  fail_write, hand_over,
}
use f.Room.Kept.{IsEntry}

-- What was submitted last is in Redis, or has yet to be submitted again; a closed room is not.
abbrev pub HasLanded : Bool → Option Snapshot → Option Snapshot → Option Room → Type 0
HasLanded dirty stored submitted none = stored ≡ submitted
HasLanded dirty stored submitted (some r) = (dirty ≡ true) ⊎ (stored ≡ submitted)

-- The condition of an orderly change of owner: the writes have come to their end.
abbrev pub IsCalm : Entry → Type 0
IsCalm e = HasLanded e.dirty e.stored e.submitted e.room

abbrev IsFlushed : Entry → Entry → Type 0
IsFlushed e x = IsEntry x × (x.room ≡ e.room) × (x.dirty ≡ false) × (x.stored ≡ x.submitted)

-- What a new owner makes of a room.
abbrev pub restored : Option Room → Option Room
restored none = none
restored (some r) = some (from_snapshot (snapshot r))

abbrev taken : Entry → Option Snapshot → Entry
taken e none = record e { room = none; dirty = false }
taken e (some snap) = record e { room = some (from_snapshot snap); dirty = false }

-- What happens to a room after its creation.
pub data Event : Type 0 where
  joins leaves starts advances collects : ℕ → Event
  operates : ℕ → Op → Event
  flushes : Bool → Event
  lands : Snapshot → Event
  fails moves : Event

unfoldable pub step : Event → Entry → Entry
step (joins uid) e = (handle_join uid e).0
step (leaves uid) e = (handle_leave uid e).0
step (starts now) e = (handle_start now e).0
step (operates uid op) e = (handle_op uid op e).0
step (advances now) e = advance now e
step (collects now) e = gc now e
step (flushes full) e = flush full e
step (lands snap) e = land snap e
step fails e = fail_write e
step moves e = hand_over e

unfoldable pub run : List Event → Entry → Entry
run [] e = e
run (x ∷ xs) e = run xs (step x e)

-- What is asked of an event.
abbrev pub IsOrderly : Event → Entry → Type 0
IsOrderly moves e = IsCalm e
IsOrderly x e = Unit

abbrev pub AllOrderly : List Event → Entry → Type 0
AllOrderly [] e = Unit
AllOrderly (x ∷ xs) e = IsOrderly x e × AllOrderly xs (step x e)

-- No room yet.
abbrev pub vacant : Entry
vacant = record { room = none; submitted = none; stored = none; dirty = false; results = [] }
