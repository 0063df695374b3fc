-- ===== src/Lobby/Battle/Examples.antt =====
-- internal/lobby/handlers.go: the reward of a battle of three.
use f.Prelude.{
  ℕ, ◌+◌, ◌<◌, ◌≤◌, ◌≡◌, ◌≢◌, arith, false, none, some, List, [], ◌∷◌, pos, add64, u64, to_u64,
  mul64, div64, int64, ◌+ℤ◌, ◌*ℤ◌,
}
use f.Lobby.Payout.{currency_gold}
use f.Room.{BattleResult, has}
use f.Lobby.Battle.{Base, BattleCommit, settle_battle, reward, score_of, exp_to_level, level_rounds}
use f.Lobby.Battle.Levels.{Reaches, gained, settle_battle_lem, free_levels-run}

abbrev battle : BattleResult
battle = record {
  room_id = 5;
  score = (7, pos 2) ∷ (8, pos 5) ∷ (9, pos 2) ∷ [];
  winners = 8 ∷ [];
  losers = 7 ∷ 9 ∷ [];
}

abbrev base : Base
base = record { wallet = λ t. pos 10; exp = 30; level = 1 }

abbrev costs : List ℕ
costs = 20 ∷ 40 ∷ 60 ∷ []

few : base.level + u64 (base.exp + to_u64 (reward 8 battle).1) + 1 < 4294967296
unfolding reward score_of has add64 mul64 div64 int64 ◌+ℤ◌ ◌*ℤ◌
few = omega arith

settle_battle_lem_example :
    (c : BattleCommit) × (settle_battle costs 8 battle base ≡ some c)
    × (c.amount ≡ (reward 8 battle).0)
    × (c.base.wallet currency_gold ≡ add64 (base.wallet currency_gold) c.amount)
    × ((t : ℕ) → t ≢ currency_gold → c.base.wallet t ≡ base.wallet t)
    × (c.balance ≡ c.base.wallet currency_gold)
    × Reaches costs
        (gained 8 battle base)
        (record { level = c.base.level; exp = c.base.exp; leveled_up = c.leveled_up })
settle_battle_lem_example =
    settle_battle_lem costs 8 battle base (omega arith, (omega arith, (omega arith, tt))) few

free : (l : ℕ) → 1 ≤ l → exp_to_level (20 ∷ 0 ∷ []) l ≡ 0
unfolding exp_to_level
free l h = ground arith

-- With a last level that costs nothing the loop goes on for as long as the levels do not wrap.
free_level :
    level_rounds 1000 (20 ∷ 0 ∷ []) (record { level = 1; exp = 30; leveled_up = false }) ≡ none
free_level =
    free_levels-run 1000 (20 ∷ 0 ∷ []) (record { level = 1; exp = 30; leveled_up = false }) free
      (omega arith)
