-- ===== src/Lobby/Battle.antt =====
-- internal/lobby/handlers.go: `handleBattleSettle` up to its commit, on a copy of the player's base, and
-- `ExpToLevel` of pkg/gameconf/gameconf.go.
pub mod Levels
mod Examples
use f.Prelude.{
  ℕ, zero, suc, ◌+◌, ◌-◌, ◌*◌, leb, ltb, ◌==◌, if◌then◌else◌, Bool, true, false, Option, none, some,
  List, [], ◌∷◌, length, get_or, ℤ, pos, add64, mul64, div64, u32, u64, to_u64,
}
use f.Lobby.Bag.{Wallet, set_balance}
use f.Lobby.Payout.{currency_gold}
use f.Room.{BattleResult, has}

-- `ExpToLevel`, with the configured costs of the levels.
unfoldable pub exp_to_level : List ℕ → ℕ → ℕ
exp_to_level [] level = u64 (100 * u32 (level + 1))
exp_to_level (x ∷ xs) level =
    get_or (x ∷ xs) (if leb (length xs + 1) level then length xs else level) 0

pub record Progress : Type 0 where
  pub level : ℕ
  pub exp : ℕ
  pub leveled_up : Bool

-- The loop over the levels; `none` where it still runs.
unfoldable pub level_rounds : ℕ → List ℕ → Progress → Option Progress
level_rounds zero costs p = none
level_rounds (suc fuel) costs p =
    let cost = exp_to_level costs p.level in
    let rest =
      level_rounds fuel costs
        (record { level = u32 (p.level + 1); exp = p.exp - cost; leveled_up = true }) in
    if leb cost p.exp then rest else some p

-- A round for each point, and one that finds too few.
unfoldable pub level_up : List ℕ → ℕ → ℕ → Option Progress
level_up costs level exp =
    level_rounds (exp + 1) costs (record { level = level; exp = exp; leveled_up = false })

unfoldable pub score_of : ℕ → List (ℕ × ℤ) → ℤ
score_of uid [] = pos 0
score_of uid ((u, n) ∷ rest) = if u == uid then n else score_of uid rest

-- Gold and experience.
unfoldable pub reward : ℕ → BattleResult → ℤ × ℤ
reward uid res =
    let score = score_of uid res.score in
    let gold = add64 (pos 100) score in
    let exp = add64 (pos 50) (div64 score 2) in
    if has uid res.winners then (mul64 gold (pos 2), mul64 exp (pos 2)) else (gold, exp)

pub record Base : Type 0 where
  pub wallet : Wallet
  pub exp : ℕ
  pub level : ℕ

-- The ledger entry has the room as its reference, and so has the idempotence key.
pub record BattleCommit : Type 0 where
  pub base : Base
  pub amount : ℤ
  pub balance : ℤ
  pub room_id : ℕ
  pub leveled_up : Bool

unfoldable pub battle_commit : BattleResult → ℤ → Wallet → Progress → BattleCommit
battle_commit res gold w p = record {
  base = record { wallet = w; exp = p.exp; level = p.level };
  amount = gold;
  balance = w currency_gold;
  room_id = res.room_id;
  leveled_up = p.leveled_up;
}

-- `handleBattleSettle` up to the commit, if it gets there
unfoldable pub settle_battle : List ℕ → ℕ → BattleResult → Base → Option BattleCommit
unfolding set_balance
settle_battle costs uid res base =
    let (gold, exp) = reward uid res in
    let paid = set_balance base.wallet currency_gold (add64 (base.wallet currency_gold) gold) in
    elim (level_up costs base.level (u64 (base.exp + to_u64 exp))) [
      | none ↦ none
      | some p ↦ some (battle_commit res gold paid p)
    ]
