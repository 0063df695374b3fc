-- ===== src/Match/Pool.antt =====
-- internal/match/match.go: who is in the pool and who is in a team.
use f.Prelude.{
  ℕ, zero, suc, ◌+◌, ◌-◌, ◌≤◌, ◌<◌, ◌≡◌, refl, ◌∙◌, arith, ltb, ◌==◌, if◌then◌else◌, Bool, true,
  false, Bool-cases, if_cases, inl, inr, ◌⊎◌, List, [], ◌∷◌, ◌++◌, length, take, drop, All,
}
use f.Match.{
  Waiter, Bucket, set_pool, leave_pool, remove_first, remove, insert, sort, suits, match_rounds,
  team_size, try_match, handle_enqueue, handle_cancel, tick, close, MatchAnswer, unavailable,
  no_uid, acknowledged, queued, position_from,
}

-- How often a player stands in a queue, and in a list of teams.
abbrev pub times : ℕ → List Waiter → ℕ
times u [] = 0
times u (w ∷ ws) = (if u == w.uid then 1 else 0) + times u ws

abbrev pub times_in : ℕ → List (List Waiter) → ℕ
times_in u [] = 0
times_in u (t ∷ ts) = times u t + times_in u ts

-- The pool has those who wait, each once.
abbrev pub IsPool : Bucket → Type 0
IsPool b = (u : ℕ) → times u b.queue ≡ (if b.in_pool u then 1 else 0)

times-append : (u : ℕ) (xs ys : List Waiter) → times u (xs ++ ys) ≡ times u xs + times u ys
times-append u [] ys = omega arith
times-append u (x ∷ xs) ys = omega (arith, times-append u xs ys)

times-take : (u n : ℕ) (ws : List Waiter) → times u (take n ws) + times u (drop n ws) ≡ times u ws
times-take u zero ws = omega arith
times-take u (suc n) [] = omega arith
times-take u (suc n) (w ∷ ws) = omega (arith, times-take u n ws)

times-insert : (u : ℕ) (w : Waiter) (ws : List Waiter) → times u (insert w ws) ≡ times u (w ∷ ws)
unfolding insert
times-insert u w [] = refl
times-insert u w (x ∷ xs) = ground (arith, times-insert u w xs)

times-sort : (u : ℕ) (ws : List Waiter) → times u (sort ws) ≡ times u ws
unfolding sort
times-sort u [] = refl
times-sort u (w ∷ ws) = omega (arith, times-insert u w (sort ws), times-sort u ws)

length-insert : (w : Waiter) (ws : List Waiter) → length (insert w ws) ≡ suc (length ws)
unfolding insert
length-insert w [] = refl
length-insert w (x ∷ xs) = ground (arith, length-insert w xs)

length-sort : (ws : List Waiter) → length (sort ws) ≡ length ws
unfolding sort
length-sort [] = refl
length-sort (w ∷ ws) = omega (arith, length-insert w (sort ws), length-sort ws)

length-take : (n : ℕ) (ws : List Waiter) → n ≤ length ws → length (take n ws) ≡ n
length-take zero ws h = refl
length-take (suc n) [] h = absurd (omega arith)
length-take (suc n) (w ∷ ws) h = omega (arith, length-take n ws (omega arith))

length-drop : (n : ℕ) (ws : List Waiter) → length (drop n ws) ≡ length ws - n
length-drop zero ws = omega arith
length-drop (suc n) [] = omega arith
length-drop (suc n) (w ∷ ws) = omega (arith, length-drop n ws)

-- Those of a team are out of the pool, the others stay.
leave_pool-in :
    (u : ℕ) (ws : List Waiter) (p : ℕ → Bool)
    → leave_pool ws p u ≡ (if ltb 0 (times u ws) then false else p u)
leave_pool-in u [] p = refl
leave_pool-in u (w ∷ ws) p = ground (arith, leave_pool-in u ws (set_pool w.uid false p))

team-IsPool :
    (n : ℕ) (b : Bucket)
    → IsPool b
    → (let queue = sort b.queue in
        IsPool (record b { queue = drop n queue; in_pool = leave_pool (take n queue) b.in_pool }))
team-IsPool n b h u =
    let queue = sort b.queue in
    let split = times-take u n queue in
    let same = times-sort u b.queue in
    ground (arith, leave_pool-in u (take n queue) b.in_pool, split, same, h u)

sort-IsPool : (b : Bucket) → IsPool b → IsPool (record b { queue = sort b.queue })
sort-IsPool b h u = times-sort u b.queue ∙ h u

-- What a run of the loop makes of a bucket: nobody is lost or doubled, and the teams are whole.
abbrev pub Splits : ℕ → Bucket → Bucket × List (List Waiter) → Type 0
Splits size b r =
    IsPool r.0
    × ((u : ℕ) → times u r.0.queue + times_in u r.1 ≡ times u b.queue)
    × All (λ t. length t ≡ size) r.1

-- The loop has come to its end.
abbrev pub IsDone : ℕ → ℕ → Bucket → Type 0
IsDone size now b = (length b.queue < size) ⊎ (suits now (take size b.queue) ≡ false)

-- A property of each way out of a round.
round_of :
    (P : Bucket × List (List Waiter) → Type 0) (b c : Bool) (x y z : Bucket × List (List Waiter))
    → (b ≡ true → P x)
    → (b ≡ false → P y)
    → (c ≡ false → P z)
    → P (if b then x else if c then y else z)
round_of P true c x y z f g h = f refl
round_of P false true x y z f g h = g refl
round_of P false false x y z f g h = h refl

match_rounds-Splits :
    (fuel size now : ℕ) (b : Bucket) → IsPool b → Splits size b (match_rounds fuel size now b)
unfolding match_rounds
match_rounds-Splits zero size now b h = (h, (λ u. omega arith), tt)
match_rounds-Splits (suc fuel) size now b h =
    let queue = sort b.queue in
    let team = take size queue in
    let b1 : Bucket = record b { queue = drop size queue; in_pool = leave_pool team b.in_pool } in
    let rest = match_rounds fuel size now b1 in
    round_of (Splits size b) (ltb (length b.queue) size) (suits now team) (b, [])
      (rest.0, team ∷ rest.1) (record b { queue = queue }, []) (λ e. (h, (λ u. omega arith), tt))
      (λ e.
        let (pool, all, whole) = match_rounds-Splits fuel size now b1 (team-IsPool size b h) in
        (
          pool,
          λ u. omega (arith, all u, times-take u size queue, times-sort u b.queue),
          (length-take size queue (ground (arith, length-sort b.queue, e)), whole),
        ))
      (λ e. (sort-IsPool b h, (λ u. omega (arith, times-sort u b.queue)), tt))

match_rounds-IsDone :
    (fuel size now : ℕ) (b : Bucket)
    → 0 < size
    → length b.queue ≤ fuel
    → IsDone size now (match_rounds fuel size now b).0
unfolding match_rounds
match_rounds-IsDone zero size now b z h = inl (omega arith)
match_rounds-IsDone (suc fuel) size now b z h =
    let queue = sort b.queue in
    let team = take size queue in
    let b1 : Bucket = record b { queue = drop size queue; in_pool = leave_pool team b.in_pool } in
    let rest = match_rounds fuel size now b1 in
    round_of (λ r. IsDone size now r.0) (ltb (length b.queue) size) (suits now team) (b, [])
      (rest.0, team ∷ rest.1) (record b { queue = queue }, []) (λ e. inl (ground (arith, e)))
      (λ e.
        match_rounds-IsDone fuel size now b1 z
          (ground (arith, length-drop size queue, length-sort b.queue, e)))
      (λ e. inr e)

team_size-positive : (mode : ℕ) → 0 < team_size mode
unfolding team_size
team_size-positive mode = ground arith

-- A matching of a pool that has those who wait, each once, ends with fewer players than a team or
-- a team in front that does not suit; every player who waited still waits or is in one team, and
-- every team is whole.
pub try_match_lem :
    (now : ℕ) (b : Bucket)
    → IsPool b
    → (let r = try_match now b in
        let size = team_size b.mode in Splits size b r × IsDone size now r.0)
unfolding try_match
try_match_lem now b h =
    let size = team_size b.mode in
    (
      match_rounds-Splits (length b.queue) size now b h,
      match_rounds-IsDone (length b.queue) size now b (team_size-positive b.mode) (omega arith),
    )

times-remove_first :
    (u uid : ℕ) (ws : List Waiter)
    → 0 < times uid ws
    → times u (remove_first uid ws) + (if u == uid then 1 else 0) ≡ times u ws
unfolding remove_first
times-remove_first u uid [] h = absurd (omega arith)
times-remove_first u uid (w ∷ ws) h = ground (arith, times-remove_first u uid ws)

remove-IsPool : (uid : ℕ) (b : Bucket) → IsPool b → IsPool (remove uid b)
unfolding remove
remove-IsPool uid b h = elim (Bool-cases (b.in_pool uid)) [
  | inl e ↦ rw e (λ u. ground (arith, h u, h uid, e, times-remove_first u uid b.queue))
  | inr e ↦ rw e h
]

abbrev pub joined : Waiter → Bucket → Bucket
joined w b = record b { queue = b.queue ++ (w ∷ []); in_pool = set_pool w.uid true b.in_pool }

joined-IsPool : (w : Waiter) (b : Bucket) → b.in_pool w.uid ≡ false → IsPool b → IsPool (joined w b)
joined-IsPool w b e h u = ground (arith, times-append u b.queue (w ∷ []), h u, e)

abbrev Answered : Type 0
Answered = Bucket × List (List Waiter) × MatchAnswer

handle_enqueue-IsPool :
    (uid power now : ℕ) (b : Bucket) → IsPool b → IsPool (handle_enqueue uid power now b).0
unfolding handle_enqueue
handle_enqueue-IsPool uid power now b h =
    let w : Waiter = record { uid = uid; power = power; since = now } in
    let r = try_match now (joined w b) in
    let here : Answered = (b, [], queued (position_from 0 uid b.queue)) in
    let there : Answered = (r.0, r.1, queued (length (joined w b).queue)) in
    let P : Answered → Type 0 = λ x. IsPool x.0 in
    if_cases P b.closed (b, [], unavailable)
      (if uid == 0 then (b, [], no_uid) else if b.in_pool uid then here else there) (λ c. h)
      (λ c.
        if_cases P (uid == 0) (b, [], no_uid) (if b.in_pool uid then here else there) (λ z. h)
          (λ z.
            if_cases P (b.in_pool uid) here there (λ e. h)
              (λ e. (try_match_lem now (joined w b) (joined-IsPool w b e h)).0.0)))

handle_cancel-IsPool : (uid : ℕ) (b : Bucket) → IsPool b → IsPool (handle_cancel uid b).0
unfolding handle_cancel
handle_cancel-IsPool uid b h =
    if_cases (λ (x : Bucket × MatchAnswer). IsPool x.0) b.closed (b, unavailable)
      (remove uid b, acknowledged) (λ c. h) (λ c. remove-IsPool uid b h)

tick-IsPool : (now : ℕ) (b : Bucket) → IsPool b → IsPool (tick now b).0
unfolding tick
tick-IsPool now b h =
    if_cases (λ (x : Bucket × List (List Waiter)). IsPool x.0) b.closed (b, []) (try_match now b)
      (λ c. h) (λ c. (try_match_lem now b h).0.0)

-- What the actor of a bucket sees.
pub data Event : Type 0 where
  enqueues : ℕ → ℕ → ℕ → Event
  cancels ticks : ℕ → Event
  closes : Event

unfoldable pub step : Event → Bucket → Bucket
step (enqueues uid power now) b = (handle_enqueue uid power now b).0
step (cancels uid) b = (handle_cancel uid b).0
step (ticks now) b = (tick now b).0
step closes b = (close b).0

unfoldable pub run : List Event → Bucket → Bucket
run [] b = b
run (e ∷ es) b = run es (step e b)

-- From any pool that has those who wait, each once, whatever enqueues, cancels, ticks and closing
-- leave it such.
pub run-IsPool : (es : List Event) (b : Bucket) → IsPool b → IsPool (run es b)
unfolding run step close
run-IsPool [] b h = h
run-IsPool (enqueues uid power now ∷ es) b h =
    run-IsPool es (handle_enqueue uid power now b).0 (handle_enqueue-IsPool uid power now b h)
run-IsPool (cancels uid ∷ es) b h =
    run-IsPool es (handle_cancel uid b).0 (handle_cancel-IsPool uid b h)
run-IsPool (ticks now ∷ es) b h = run-IsPool es (tick now b).0 (tick-IsPool now b h)
run-IsPool (closes ∷ es) b h = run-IsPool es (close b).0 (λ u. refl)
