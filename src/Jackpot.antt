-- ===== src/Jackpot.antt =====
-- pkg/jackpot/jackpot.go: the contributions to a progressive pool and the claim of it. The keys of the
-- pool in Redis are a parameter; a call that fails on the network is not modelled, nor the JSON of a
-- payout, which stands for itself.
pub mod Money
mod Examples
use f.Prelude.{
  ℕ, ◌+◌, ◌<◌, ◌≡◌, ℤ, pos, pos_part, neg_part, ltb_ℤ, leb_ℤ, if◌then◌else◌, eqb_ℤ, Bool, true,
  false, ◌||◌, ◌&&◌, not, Option, none, some, List, [], ◌∷◌, Result, ok, err, ◌>>=◌, ◌>>◌, reject,
  mul64, sub64, div64, ◌+ℤ◌, IsInt64, String,
}

pub record Payout : Type 0 where
  pub tx_id : String
  pub pool_id : String
  pub uid : ℕ
  pub amount : ℤ
  pub currency : ℕ
  pub round_id : ℕ
  pub created_at : ℤ
  pub retries : ℤ

pub data JackpotError : Type 0 where
  unknown_pool empty : JackpotError

-- The level of one pool, and its payouts that are due, in Redis.
pub record Cells : Type 1 where
  pub State : Type 0
  pub get : State → Option ℤ
  pub set : ℤ → State → State
  pub incr_by : ℤ → State → State
  pub zadd : ℤ → Payout → State → State
  pub zrem : Payout → State → State
  pub is_member : Payout → State → Bool
  -- Lua's `tonumber`, a double
  pub to_number : ℤ → ℤ

pub record IsCells (C : Cells) : Type 0 where
  pub get-set : (n : ℤ) (s : C.State) → C.get (C.set n s) ≡ some n
  pub get-incr_by :
      (d n : ℤ) (s : C.State)
      → C.get s ≡ some n
      → IsInt64 (n +ℤ d)
      → C.get (C.incr_by d s) ≡ some (n +ℤ d)
  pub get-zadd : (score : ℤ) (p : Payout) (s : C.State) → C.get (C.zadd score p s) ≡ C.get s
  pub is_member-zadd :
      (score : ℤ) (p : Payout) (s : C.State) → C.is_member p (C.zadd score p s) ≡ true
  pub is_member-set :
      (n : ℤ) (p : Payout) (s : C.State) → C.is_member p (C.set n s) ≡ C.is_member p s
  pub is_member-incr_by :
      (d : ℤ) (p : Payout) (s : C.State) → C.is_member p (C.incr_by d s) ≡ C.is_member p s
  -- A double keeps 53 bits.
  pub number : (n : ℕ) → n < 9007199254740992 → C.to_number (pos n) ≡ pos n

abbrev pub level_or : ℤ → Option ℤ → ℤ
level_or d none = d
level_or d (some n) = n

-- `ContributionOf`
unfoldable pub contribution_of : ℤ → ℤ → ℤ
contribution_of bet bp =
    if leb_ℤ bet (pos 0) || leb_ℤ bp (pos 0) then pos 0 else div64 (mul64 bet bp) 10000

-- The record that `Claim` prepares with the level it has read.
pub record Claimant : Type 0 where
  pub pool_id : String
  pub uid : ℕ
  pub currency : ℕ
  pub round_id : ℕ
  pub tx_id : String
  pub now : ℤ

abbrev pub payout_of : Claimant → ℤ → Payout
payout_of c cur = record {
  tx_id = c.tx_id;
  pool_id = c.pool_id;
  uid = c.uid;
  amount = cur;
  currency = c.currency;
  round_id = c.round_id;
  created_at = c.now;
  retries = pos 0;
}

module _ (C : Cells) where
  -- `scriptContribute`: a missing level starts at the seed.
  unfoldable pub script_contribute : ℤ → ℤ → C.State → C.State
  script_contribute seed amount s = elim (C.get s) [
    | none ↦ C.incr_by amount (C.set seed s)
    | some n ↦ C.incr_by amount s
  ]

  -- `Contribute` to the pool whose seed is looked up: the new state and level.
  unfoldable pub contribute : Option ℤ → ℤ → C.State → Result JackpotError (C.State × ℤ)
  contribute pool amount s = if leb_ℤ amount (pos 0) then ok (s, pos 0) else elim pool [
    | none ↦ err unknown_pool
    | some seed ↦ let s' = script_contribute seed amount s in ok (s', level_or (pos 0) (C.get s'))
  ]

  -- `Amount`
  unfoldable pub amount_of : Option ℤ → C.State → ℤ
  amount_of pool s = level_or (level_or (pos 0) pool) (C.get s)

  -- `scriptClaim`: the state, and the level that was taken, 0 for none.
  unfoldable pub script_claim : Payout → ℤ → ℤ → C.State → C.State × ℤ
  script_claim p seed score s =
      let amount = C.to_number (level_or (pos 0) (C.get s)) in
      let base = C.to_number seed in
      if leb_ℤ amount base
      then (s, pos 0)
      else (C.zadd (C.to_number score) p (C.set base s), amount)

  -- What follows the script in `Claim`: a level that rose in between is paid back into the pool.
  unfoldable pub settle_difference : ℤ → ℤ → ℤ → C.State → C.State
  settle_difference seed won cur s =
      let diff = sub64 won cur in
      if not (eqb_ℤ won cur) && ltb_ℤ (pos 0) diff then script_contribute seed diff s else s

  abbrev pub claimed : ℤ → Payout → C.State × ℤ → C.State × Result JackpotError Payout
  claimed seed p (s, won) =
      if eqb_ℤ won (pos 0) then (s, err empty) else (settle_difference seed won p.amount s, ok p)

  -- `Claim`. Between the read of the level and the script other processes work: `between`.
  unfoldable pub claim :
      Option ℤ → Claimant → (C.State → C.State) → C.State → C.State × Result JackpotError Payout
  claim none c between s = (s, err unknown_pool)
  claim (some seed) c between s =
      let cur = amount_of (some seed) s in
      if leb_ℤ cur seed
      then (s, err empty)
      else claimed seed (payout_of c cur) (script_claim (payout_of c cur) seed c.now (between s))

  -- `Settle`, for the index of the payouts that are due
  unfoldable pub settle : Payout → C.State → C.State
  settle p s = C.zrem p s

  -- `Requeue`
  unfoldable pub requeue : Payout → ℤ → C.State → C.State
  requeue p now s = C.zadd now (record p { retries = p.retries +ℤ pos 1 }) (C.zrem p s)
