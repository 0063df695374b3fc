-- ===== src/Room/Kept.antt =====
-- internal/room: what is kept by the steps that find the room.
use f.Prelude.{
  ℕ, ◌+◌, ◌≤◌, ◌≡◌, refl, subst, ◌∙◌, arith, ◌==◌, Bool, true, false, not, ◌||◌, Bool-cases,
  Option-cases, inl, inr, ◌⊎◌, Option, none, some, List, [], length, u32, pos,
}
use f.Room.{
  Room, Snapshot, BattleResult, waiting, battling, settling, has, quit, join, leave, is_empty,
  start, add_score, snapshot, from_snapshot,
}
use f.Room.Members.{IsRoom, join-IsRoom, quit-IsRoom}
use f.Room.Shard.{
  Entry, Answer, Op, scores, finishes, other, mark, close_room, with_room, joining, leaving,
  starting, settle, perform, operating, fight, battle_timeout, at_least_since,
}

-- A room has been settled once at most, and is settling if it has.
abbrev pub IsOnce : List BattleResult → Option Room → Type 0
IsOnce rs none = length rs ≤ 1
IsOnce rs (some r) = (length rs ≤ 1) × IsRoom r × ((r.state ≡ settling) ⊎ (rs ≡ []))

-- A room without a mark was submitted such that a new owner restores what it would now.
abbrev pub IsStored : Bool → Option Snapshot → Option Room → Type 0
IsStored b st none = st ≡ none
IsStored true st (some r) = Unit
IsStored false st (some r) =
    (s : Snapshot) × (st ≡ some s) × (from_snapshot s ≡ from_snapshot (snapshot r))

abbrev pub IsEntry : Entry → Type 0
IsEntry e = IsOnce e.results e.room × IsStored e.dirty e.submitted e.room

pub mark-IsEntry :
    (r r' : Room) (e : Entry)
    → e.room ≡ some r
    → IsEntry e
    → IsRoom r'
    → ((r.state ≡ settling) → r'.state ≡ settling)
    → IsEntry (mark r' e)
mark-IsEntry r r' e q (once, stored) h keep =
    let (few, room, s) = subst (IsOnce e.results) q once in
    ((few, h, elim s [ inl c ↦ inl (keep c) | inr n ↦ inr n ]), tt)

pub close_room-IsEntry : (e : Entry) → IsEntry e → IsEntry (close_room e)
unfolding close_room
close_room-IsEntry e h = elim (Option-cases e.room) [
  | inl q ↦ rw q (subst (IsOnce e.results) q h.0, subst (IsStored e.dirty e.submitted) q h.1)
  | inr (r, q) ↦ rw q ((subst (IsOnce e.results) q h.0).0, refl)
]

the_room : (r : Room) (e : Entry) → e.room ≡ some r → IsEntry e → IsRoom r
the_room r e q h = (subst (IsOnce e.results) q h.0).1

pub with_room-IsEntry :
    (e : Entry) (f : Room → Entry × Answer)
    → IsEntry e
    → ((r : Room) → e.room ≡ some r → IsEntry (f r).0)
    → IsEntry (with_room e f).0
with_room-IsEntry e f h k = elim (Option-cases e.room) [
  | inl q ↦ rw q (subst (IsOnce e.results) q h.0, subst (IsStored e.dirty e.submitted) q h.1)
  | inr (r, q) ↦ rw q (k r q)
]

pub joining-IsEntry :
    (uid : ℕ) (e : Entry) (r : Room) → e.room ≡ some r → IsEntry e → IsEntry (joining uid e r).0
unfolding joining
joining-IsEntry uid e r q h =
    let (good, same) = join-IsRoom uid r (the_room r e q h) in
    elim (Bool-cases (has uid r.members)) [
      | inl c ↦ rw c h
      | inr c ↦ rw c (elim (Bool-cases (join uid r).1) [
        | inl d ↦ rw d (mark-IsEntry r (join uid r).0 e q h good (λ s. same ∙ s))
        | inr d ↦ rw d h
      ])
    ]

pub leaving-IsEntry :
    (uid : ℕ) (e : Entry) (r : Room) → e.room ≡ some r → IsEntry e → IsEntry (leaving uid e r).0
unfolding leaving leave
leaving-IsEntry uid e r q h =
    let left = mark-IsEntry r (quit uid r) e q h (quit-IsRoom uid r (the_room r e q h)) (λ s. s) in
    elim (Bool-cases (has uid r.members)) [
      | inl c ↦ rw c (elim (Bool-cases (is_empty (quit uid r))) [
        | inl d ↦ rw d (close_room-IsEntry (mark (quit uid r) e) left)
        | inr d ↦ rw d left
      ])
      | inr c ↦ rw c h
    ]

-- A room that can start is not settling.
pub starting-IsEntry :
    (now : ℕ) (e : Entry) (r : Room) → e.room ≡ some r → IsEntry e → IsEntry (starting now e r).0
unfolding starting start
starting-IsEntry now e r q h =
    let r' : Room = record r { state = battling; started_at = some now; frame = 0 } in
    elim (Bool-cases (not (r.state == waiting) || (length r.members == 0))) [
      | inl c ↦ rw c h
      | inr c ↦
          rw c (mark-IsEntry r r' e q h (the_room r e q h) (λ s. absurd (ground (arith, c, s))))
    ]

settle-IsEntry : (r : Room) (e : Entry) → e.room ≡ some r → IsEntry e → IsEntry (settle r e)
unfolding settle
settle-IsEntry r e q h =
    let (few, room, s) = subst (IsOnce e.results) q h.0 in
    elim (Bool-cases (r.settled || (r.state == settling))) [
      | inl c ↦ rw c h
      | inr c ↦ rw c (elim s [
        | inl t ↦ absurd (ground (arith, c, t))
        | inr n ↦ ((rw n (omega arith), room, inl refl), tt)
      ])
    ]

-- What a snapshot does not keep may change.
change-IsStored :
    (b : Bool) (st : Option Snapshot) (r r' : Room)
    → from_snapshot (snapshot r) ≡ from_snapshot (snapshot r')
    → IsStored b st (some r)
    → IsStored b st (some r')
change-IsStored true st r r' p h = tt
change-IsStored false st r r' p (s, q, same) = (s, q, same ∙ p)

change-IsEntry :
    (r r' : Room) (e : Entry)
    → e.room ≡ some r
    → IsEntry e
    → IsRoom r'
    → r'.state ≡ r.state
    → from_snapshot (snapshot r) ≡ from_snapshot (snapshot r')
    → IsEntry (record e { room = some r' })
change-IsEntry r r' e q h good same p =
    let (few, room, s) = subst (IsOnce e.results) q h.0 in
    (
      (few, good, elim s [ inl t ↦ inl (same ∙ t) | inr n ↦ inr n ]),
      change-IsStored e.dirty e.submitted r r' p (subst (IsStored e.dirty e.submitted) q h.1),
    )

perform-IsEntry :
    (uid : ℕ) (op : Op) (r : Room) (e : Entry)
    → e.room ≡ some r
    → IsEntry e
    → IsEntry (perform uid op r e)
unfolding perform add_score snapshot
perform-IsEntry uid (scores n) r e q h =
    change-IsEntry r (add_score uid (pos (n + 1)) r) e q h (the_room r e q h) refl refl
perform-IsEntry uid finishes r e q h = settle-IsEntry r e q h
perform-IsEntry uid other r e q h = h

pub operating-IsEntry :
    (uid : ℕ) (op : Op) (e : Entry) (r : Room)
    → e.room ≡ some r
    → IsEntry e
    → IsEntry (operating uid op e r).0
unfolding operating
operating-IsEntry uid op e r q h = elim (Bool-cases (has uid r.members)) [
  | inr c ↦ rw c h
  | inl c ↦ rw c (elim (Bool-cases (r.state == battling)) [
    | inl d ↦ rw d (perform-IsEntry uid op r e q h)
    | inr d ↦ rw d h
  ])
]

frame-restored :
    (r : Room) (n : ℕ)
    → (r.state == battling) ≡ true
    → from_snapshot (snapshot r) ≡ from_snapshot (snapshot (record r { frame = n }))
unfolding from_snapshot snapshot
frame-restored r n c = simp c

pub fight-IsEntry :
    (now : ℕ) (e : Entry) (r : Room) → e.room ≡ some r → IsEntry e → IsEntry (fight now e r)
unfolding fight
fight-IsEntry now e r q h =
    let r' : Room = record r { frame = u32 (r.frame + 1) } in
    let e' : Entry = record e { room = some r' } in
    elim (Bool-cases (r.state == battling)) [
      | inr c ↦ rw c h
      | inl c ↦
          let fought =
            change-IsEntry r r' e q h (the_room r e q h) refl
              (frame-restored r (u32 (r.frame + 1)) c) in
          rw c (elim (Bool-cases (at_least_since battle_timeout now r.started_at)) [
            | inl d ↦ rw d (settle-IsEntry r' e' refl fought)
            | inr d ↦ rw d fought
          ])
    ]
