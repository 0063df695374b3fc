-- ===== src/Room/Members.antt =====
-- internal/room/room.go: the members of a room.
use f.Prelude.{
  ℕ, ◌+◌, ◌≤◌, ◌<◌, ◌≡◌, refl, ◌∙◌, arith, ltb, leb, ◌==◌, if◌then◌else◌, Bool, true, false, ◌||◌,
  if_cases, Bool-cases, inl, inr, List, [], ◌∷◌, ◌++◌, length, length-append, two32, u32,
}
use f.Room.{
  Room, Snapshot, battling, has, enter, quit, join, join_all, new_room, remove_member, snapshot,
  from_snapshot, unix_milli, from_milli,
}

abbrev pub count : ℕ → List ℕ → ℕ
count u [] = 0
count u (m ∷ ms) = (if u == m then 1 else 0) + count u ms

-- The members are distinct players, as many as there is room for.
abbrev pub IsRoom : Room → Type 0
IsRoom r =
    ((u : ℕ) → count u r.members ≤ 1)
    × (count 0 r.members ≡ 0)
    × (length r.members ≤ r.max_n)
    × (r.max_n < two32)

has-count : (u : ℕ) (ms : List ℕ) → has u ms ≡ ltb 0 (count u ms)
unfolding has
has-count u [] = refl
has-count u (m ∷ ms) = ground (arith, has-count u ms)

count-append : (u : ℕ) (xs ys : List ℕ) → count u (xs ++ ys) ≡ count u xs + count u ys
count-append u [] ys = omega arith
count-append u (x ∷ xs) ys = omega (arith, count-append u xs ys)

count-remove_member : (u uid : ℕ) (ms : List ℕ) → count u (remove_member uid ms) ≤ count u ms
unfolding remove_member
count-remove_member u uid [] = omega arith
count-remove_member u uid (m ∷ ms) = ground (arith, count-remove_member u uid ms)

length-remove_member : (uid : ℕ) (ms : List ℕ) → length (remove_member uid ms) ≤ length ms
unfolding remove_member
length-remove_member uid [] = omega arith
length-remove_member uid (m ∷ ms) = ground (arith, length-remove_member uid ms)

enter-IsRoom :
    (uid : ℕ) (r : Room)
    → IsRoom r
    → ((uid == 0) || has uid r.members ≡ false)
    → (leb r.max_n (u32 (length r.members)) ≡ false)
    → IsRoom (enter uid r)
enter-IsRoom uid r (once, real, fits, small) e m =
    let ms = r.members in
    (
      λ u. ground (arith, once u, count-append u ms (uid ∷ []), has-count uid ms, e),
      ground (arith, real, count-append 0 ms (uid ∷ []), e),
      ground (arith, fits, small, m, length-append ms (uid ∷ [])),
      small,
    )

-- Joining keeps the room a room, and its state.
pub join-IsRoom :
    (uid : ℕ) (r : Room) → IsRoom r → IsRoom (join uid r).0 × ((join uid r).0.state ≡ r.state)
unfolding join
join-IsRoom uid r h =
    let P : Room × Bool → Type 0 = λ x. IsRoom x.0 × (x.0.state ≡ r.state) in
    let full = leb r.max_n (u32 (length r.members)) in
    let entered = if full then (r, false) else (enter uid r, true) in
    if_cases P ((uid == 0) || has uid r.members) (r, false) entered (λ e. (h, refl))
      (λ e.
        if_cases P full (r, false) (enter uid r, true) (λ m. (h, refl))
          (λ m. (enter-IsRoom uid r h e m, refl)))

pub join_all-IsRoom :
    (uids : List ℕ) (r : Room)
    → IsRoom r
    → IsRoom (join_all uids r) × ((join_all uids r).state ≡ r.state)
unfolding join_all
join_all-IsRoom [] r h = (h, refl)
join_all-IsRoom (uid ∷ uids) r h =
    let (one, same) = join-IsRoom uid r h in
    let (all, still) = join_all-IsRoom uids (join uid r).0 one in (all, still ∙ same)

pub new_room-IsRoom :
    (id mode max_n : ℕ) (members : List ℕ) (now : ℕ)
    → max_n < two32
    → IsRoom (new_room id mode max_n members now)
unfolding new_room
new_room-IsRoom id mode max_n members now h =
    (join_all-IsRoom members _ ((λ u. omega arith), refl, omega arith, ground arith)).0

pub quit-IsRoom : (uid : ℕ) (r : Room) → IsRoom r → IsRoom (quit uid r)
quit-IsRoom uid r (once, real, fits, small) = (
  λ u. omega (arith, once u, count-remove_member u uid r.members),
  omega (arith, real, count-remove_member 0 uid r.members),
  omega (arith, fits, length-remove_member uid r.members),
  small,
)

-- A restored room has the members, and room for at least as many.
pub restored-IsRoom : (r : Room) → IsRoom r → IsRoom (from_snapshot (snapshot r))
unfolding from_snapshot snapshot
restored-IsRoom r (once, real, fits, small) = (once, real, ground arith, ground arith)

milli_lem : (x : ℕ) → unix_milli (from_milli x) ≡ x
milli_lem x = ground arith

-- What is restored a second time is the same.
pub restored-restored :
    (s : Snapshot) → from_snapshot (snapshot (from_snapshot s)) ≡ from_snapshot s
unfolding from_snapshot snapshot
restored-restored s = elim (Bool-cases (s.state == battling)) [
  | inl e ↦ simp (e, milli_lem s.created_at, milli_lem s.started_at)
  | inr e ↦ simp (e, milli_lem s.created_at, milli_lem s.started_at)
]
