-- ===== src/Room/Examples.antt =====
-- internal/room: a battle of two, in shard 1 of 4.
use f.Prelude.{
  false, ℕ, ◌+◌, ◌<◌, ◌≡◌, refl, ◌==◌, if◌then◌else◌, true, some, List, [], ◌∷◌, length, pos, All,
  ◌≤ℤ◌, ◌<ℤ◌,
}
use f.Room.{
  Room, Snapshot, settling, has, join, join_all, new_room, remove_member, leave, is_empty, start,
  add_score, result, snapshot, from_snapshot,
}
use f.Room.Members.{count}
use f.Room.Shard.{
  Entry, scores, finishes, shard_of, handle_create, joining, handle_join, leaving, handle_leave,
  starting, handle_start, operating, handle_op, perform, settle, flush, flush_sync, land, init,
  hand_over,
}
use f.Room.Once.{Event, joins, leaves, starts, operates, flushes, lands, moves, step, run, vacant}
use f.Room.Result.{result_lem}

abbrev settled_room : Snapshot
settled_room = record {
  room_id = 5;
  mode = 0;
  state = settling;
  members = 7 ∷ 8 ∷ [];
  created_at = 0;
  started_at = 0;
  frame = 0;
}

abbrev battle : List Event
battle =
    joins 8
    ∷ joins 9
    ∷ starts 100
    ∷ operates 8 (scores 4)
    ∷ operates 7 finishes
    ∷ operates 8 finishes
    ∷ flushes false
    ∷ lands settled_room
    ∷ moves
    ∷ leaves 7
    ∷ []

abbrev opened : Entry
opened = (handle_create 1 4 5 0 2 (7 ∷ []) 50 vacant).0

-- The third player finds the room full, the second end finds the battle settled.
battle_results : length (run battle opened).results ≡ 1
unfolding run step handle_create shard_of new_room join_all join has handle_join joining
    handle_start starting start handle_op operating perform add_score settle flush land flush_sync
    hand_over init handle_leave leaving leave from_snapshot snapshot is_empty remove_member
battle_results = refl

-- Who takes the room over lets eight players into a room of two.
moved_room : (from_snapshot (snapshot (new_room 5 0 2 (7 ∷ []) 50))).max_n ≡ 8
unfolding from_snapshot snapshot new_room join_all join has
moved_room = refl

abbrev fought : Room
fought = record {
  id = 5;
  mode = 0;
  state = settling;
  members = 7 ∷ 8 ∷ 9 ∷ [];
  max_n = 8;
  created_at = some 50;
  started_at = some 100;
  frame = 3;
  scores = λ u. if u == 8 then pos 5 else pos 2;
  settled = true;
}

result_lem_example :
    (let b = result fought in
      let s = fought.scores in
      ((u : ℕ) → count u b.winners + count u b.losers ≡ count u fought.members)
      × (0 < length fought.members → 0 < length b.winners)
      × All (λ w. All (λ m. s m ≤ℤ s w) fought.members) b.winners
      × All (λ l. All (λ w. s l <ℤ s w) b.winners) b.losers)
result_lem_example = result_lem fought
