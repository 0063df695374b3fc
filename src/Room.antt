-- ===== src/Room.antt =====
-- internal/room/room.go: one room, with the time as an argument, in nanoseconds; `none` is Go's zero time.
-- A score that the map does not have is 0, as the code reads it.
pub mod Shard
pub mod Result
pub mod Members
pub mod Kept
pub mod Once
mod Examples
use f.Prelude.{
  ℕ, zero, suc, ◌+◌, ◌*◌, ◌/◌, leb, ltb, ◌==◌, if◌then◌else◌, Bool, true, false, not, ◌&&◌, ◌||◌,
  Option, none, some, List, [], ◌∷◌, ◌++◌, map, length, u32, ℤ, pos, ltb_ℤ, eqb_ℤ, add64,
}

abbrev pub waiting : ℕ
waiting = 0

abbrev pub battling : ℕ
battling = 1

abbrev pub settling : ℕ
settling = 2

pub record Room : Type 0 where
  pub id : ℕ
  pub mode : ℕ
  pub state : ℕ
  pub members : List ℕ
  pub max_n : ℕ
  pub created_at : Option ℕ
  pub started_at : Option ℕ
  pub frame : ℕ
  pub scores : ℕ → ℤ
  pub settled : Bool

abbrev pub set_score : ℕ → ℤ → (ℕ → ℤ) → ℕ → ℤ
set_score uid n s u = if u == uid then n else s u

-- `Has`
unfoldable pub has : ℕ → List ℕ → Bool
has uid [] = false
has uid (m ∷ ms) = if m == uid then true else has uid ms

abbrev pub enter : ℕ → Room → Room
enter uid r = record r {
  members = r.members ++ (uid ∷ []);
  scores = set_score uid (pos 0) r.scores;
}

-- `Join`
unfoldable pub join : ℕ → Room → Room × Bool
join uid r =
    if (uid == 0) || has uid r.members
    then (r, false)
    else if leb r.max_n (u32 (length r.members))
    then (r, false)
    else (enter uid r, true)

unfoldable pub join_all : List ℕ → Room → Room
join_all [] r = r
join_all (uid ∷ uids) r = join_all uids (join uid r).0

-- `NewRoom`
unfoldable pub new_room : ℕ → ℕ → ℕ → List ℕ → ℕ → Room
new_room id mode max_n members now = join_all members (record {
  id = id;
  mode = mode;
  state = waiting;
  members = [];
  max_n = if max_n == 0 then 8 else max_n;
  created_at = some now;
  started_at = none;
  frame = 0;
  scores = λ u. pos 0;
  settled = false;
})

unfoldable pub remove_member : ℕ → List ℕ → List ℕ
remove_member uid [] = []
remove_member uid (m ∷ ms) = if m == uid then ms else m ∷ remove_member uid ms

abbrev pub quit : ℕ → Room → Room
quit uid r = record r {
  members = remove_member uid r.members;
  scores = set_score uid (pos 0) r.scores;
}

-- `Leave`
unfoldable pub leave : ℕ → Room → Room × Bool
leave uid r = if has uid r.members then (quit uid r, true) else (r, false)

-- `Empty`
unfoldable pub is_empty : Room → Bool
is_empty r = length r.members == 0

-- `Start`
unfoldable pub start : ℕ → Room → Room × Bool
start now r =
    if not (r.state == waiting) || (length r.members == 0)
    then (r, false)
    else (record r { state = battling; started_at = some now; frame = 0 }, true)

-- `AddScore`
unfoldable pub add_score : ℕ → ℤ → Room → Room
add_score uid delta r = record r { scores = set_score uid (add64 (r.scores uid) delta) r.scores }

pub record BattleResult : Type 0 where
  pub room_id : ℕ
  pub score : List (ℕ × ℤ)
  pub winners : List ℕ
  pub losers : List ℕ

-- The first loop of `Result`.
unfoldable pub best_from : (ℕ → ℤ) → ℤ → Bool → List ℕ → ℤ
best_from s best first [] = best
best_from s best first (u ∷ us) =
    if first || ltb_ℤ best (s u) then best_from s (s u) false us else best_from s best first us

-- The second: those with the score `best`, and the others.
unfoldable pub divide : (ℕ → ℤ) → ℤ → List ℕ → List ℕ × List ℕ
divide s best [] = ([], [])
divide s best (u ∷ us) =
    let (winners, losers) = divide s best us in
    if eqb_ℤ (s u) best then (u ∷ winners, losers) else (winners, u ∷ losers)

-- `Result`
unfoldable pub result : Room → BattleResult
result r =
    let (winners, losers) = divide r.scores (best_from r.scores (pos 0) true r.members) r.members in
    record {
      room_id = r.id;
      score = map (λ u. (u, r.scores u)) r.members;
      winners = winners;
      losers = losers;
    }

-- Times in milliseconds, 0 where there is none.
pub record Snapshot : Type 0 where
  pub room_id : ℕ
  pub mode : ℕ
  pub state : ℕ
  pub members : List ℕ
  pub created_at : ℕ
  pub started_at : ℕ
  pub frame : ℕ

abbrev pub milli : ℕ
milli = 1000000

abbrev pub unix_milli : Option ℕ → ℕ
unix_milli none = 0
unix_milli (some t) = t / milli

abbrev pub from_milli : ℕ → Option ℕ
from_milli ms = if ltb 0 ms then some (ms * milli) else none

-- `Snapshot`
unfoldable pub snapshot : Room → Snapshot
snapshot r = record {
  room_id = r.id;
  mode = r.mode;
  state = r.state;
  members = r.members;
  created_at = unix_milli r.created_at;
  started_at = unix_milli r.started_at;
  frame = r.frame;
}

-- `FromSnapshot`
unfoldable pub from_snapshot : Snapshot → Room
from_snapshot snap =
    let n = u32 (length snap.members) in
    let fighting = snap.state == battling in
    record {
      id = snap.room_id;
      mode = snap.mode;
      state = if fighting then waiting else snap.state;
      members = snap.members;
      max_n = if ltb 8 n then n else 8;
      created_at = from_milli snap.created_at;
      started_at = from_milli snap.started_at;
      frame = if fighting then 0 else snap.frame;
      scores = λ u. pos 0;
      settled = false;
    }
