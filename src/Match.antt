-- ===== src/Match.antt =====
-- internal/match/match.go: the pool of one mode and tier, with the time as an argument. What becomes of a
-- team (its room, the messages) is not modelled: a call gives the teams that it has formed.
pub mod Pool
mod Examples
use f.Prelude.{
  ℕ, zero, suc, ◌+◌, ◌-◌, ◌*◌, ◌/◌, ◌%◌, leb, ltb, ◌==◌, if◌then◌else◌, Bool, true, false, not,
  ◌&&◌, ◌||◌, Option, none, some, List, [], ◌∷◌, ◌++◌, map, length, take, drop, u64, two64,
}

abbrev pub mode_count : ℕ
mode_count = 8

abbrev pub tier_count : ℕ
tier_count = 16

-- `BucketOf` and its inverse `ModeTierOf`
unfoldable pub bucket_of : ℕ → ℕ → ℕ
bucket_of mode tier = mode % mode_count * tier_count + tier % tier_count

unfoldable pub mode_tier_of : ℕ → ℕ × ℕ
mode_tier_of bucket = (bucket / tier_count, bucket % tier_count)

-- `TeamSize`
unfoldable pub team_size : ℕ → ℕ
team_size mode = if mode == 1 then 2 else if mode == 2 then 4 else 2

-- A time is in nanoseconds. The clock that `time.Since` reads never goes back.
pub record Waiter : Type 0 where
  pub uid : ℕ
  pub power : ℕ
  pub since : ℕ

abbrev pub second : ℕ
second = 1000000000

abbrev pub max_wait : ℕ
max_wait = 30 * second

pub record Bucket : Type 0 where
  pub mode : ℕ
  pub queue : List Waiter
  pub in_pool : ℕ → Bool
  pub closed : Bool

-- `position`, 0 where the player does not wait
unfoldable pub position_from : ℕ → ℕ → List Waiter → ℕ
position_from i uid [] = 0
position_from i uid (w ∷ ws) = if w.uid == uid then i + 1 else position_from (i + 1) uid ws

abbrev pub set_pool : ℕ → Bool → (ℕ → Bool) → ℕ → Bool
set_pool uid b p u = if u == uid then b else p u

unfoldable pub remove_first : ℕ → List Waiter → List Waiter
remove_first uid [] = []
remove_first uid (w ∷ ws) = if w.uid == uid then ws else w ∷ remove_first uid ws

-- `remove`
unfoldable pub remove : ℕ → Bucket → Bucket
remove uid b =
    if b.in_pool uid
    then record b { in_pool = set_pool uid false b.in_pool; queue = remove_first uid b.queue }
    else b

-- `sort.SliceStable` by power
unfoldable pub insert : Waiter → List Waiter → List Waiter
insert w [] = w ∷ []
insert w (x ∷ xs) = let rest = insert w xs in if leb w.power x.power then w ∷ x ∷ xs else x ∷ rest

unfoldable pub sort : List Waiter → List Waiter
sort [] = []
sort (w ∷ ws) = insert w (sort ws)

-- `tolerance`
unfoldable pub tolerance : ℕ → ℕ
tolerance waited = u64 (1000 + waited / second * 500)

abbrev pub first_since : List Waiter → ℕ
first_since [] = 0
first_since (w ∷ ws) = w.since

abbrev pub first_power : List Waiter → ℕ
first_power [] = 0
first_power (w ∷ ws) = w.power

abbrev pub last_power : List Waiter → ℕ
last_power [] = 0
last_power (w ∷ []) = w.power
last_power (w ∷ x ∷ ws) = last_power (x ∷ ws)

-- The test of `tryMatch` on the team at the front of the sorted queue: the powers ascend, so that the
-- difference does not wrap.
unfoldable pub suits : ℕ → List Waiter → Bool
suits now team =
    let waited = now - first_since team in
    leb (last_power team - first_power team) (tolerance waited) || not (ltb waited max_wait)

abbrev pub leave_pool : List Waiter → (ℕ → Bool) → ℕ → Bool
leave_pool [] p = p
leave_pool (w ∷ ws) p = leave_pool ws (set_pool w.uid false p)

-- `tryMatch`: each round takes a team from the queue, so the length of the queue is fuel enough.
unfoldable pub match_rounds : ℕ → ℕ → ℕ → Bucket → Bucket × List (List Waiter)
match_rounds zero size now b = (b, [])
match_rounds (suc fuel) size now b =
    let queue = sort b.queue in
    let team = take size queue in
    let rest =
      match_rounds fuel size now
        (record b { queue = drop size queue; in_pool = leave_pool team b.in_pool }) in
    if ltb (length b.queue) size
    then (b, [])
    else if suits now team
    then (rest.0, team ∷ rest.1)
    else (record b { queue = queue }, [])

unfoldable pub try_match : ℕ → Bucket → Bucket × List (List Waiter)
try_match now b = match_rounds (length b.queue) (team_size b.mode) now b

-- What a request is answered.
pub data MatchAnswer : Type 0 where
  unavailable no_uid acknowledged : MatchAnswer
  queued : ℕ → MatchAnswer

-- `Handle` with `handleEnqueue`; `uid` is the request's, or else the envelope's.
unfoldable pub handle_enqueue : ℕ → ℕ → ℕ → Bucket → Bucket × List (List Waiter) × MatchAnswer
handle_enqueue uid power now b =
    let w : Waiter = record { uid = uid; power = power; since = now } in
    let joined = record b { queue = b.queue ++ (w ∷ []); in_pool = set_pool uid true b.in_pool } in
    let (b', teams) = try_match now joined in
    if b.closed
    then (b, [], unavailable)
    else if uid == 0
    then (b, [], no_uid)
    else if b.in_pool uid
    then (b, [], queued (position_from 0 uid b.queue))
    else (b', teams, queued (length joined.queue))

-- `Handle` with `handleCancel`
unfoldable pub handle_cancel : ℕ → Bucket → Bucket × MatchAnswer
handle_cancel uid b = if b.closed then (b, unavailable) else (remove uid b, acknowledged)

-- `Tick`
unfoldable pub tick : ℕ → Bucket → Bucket × List (List Waiter)
tick now b = if b.closed then (b, []) else try_match now b

-- `Close`: who has to queue again.
unfoldable pub close : Bucket → Bucket × List Waiter
close b = (record b { closed = true; queue = []; in_pool = λ uid. false }, b.queue)
