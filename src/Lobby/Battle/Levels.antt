-- ===== src/Lobby/Battle/Levels.antt =====
-- internal/lobby/handlers.go: the levels that a battle's reward reaches.
use f.Prelude.{
  ℕ, zero, suc, ◌+◌, ◌-◌, ◌≤◌, ◌<◌, ◌≡◌, ◌≢◌, add64, refl, ap, ◌∙◌, arith, leb, ltb, if◌then◌else◌,
  true, false, ◌||◌, Bool-cases, inl, inr, none, some, List, [], ◌∷◌, length, get_or, All, u32, u64,
  two32, to_u64,
}
use f.Lobby.Bag.{set_balance}
use f.Lobby.Payout.{currency_gold}
use f.Room.{BattleResult}
use f.Lobby.Battle.{
  exp_to_level, Progress, level_rounds, level_up, reward, Base, BattleCommit, battle_commit,
  settle_battle,
}

-- What the next `n` levels cost.
abbrev pub cost : List ℕ → ℕ → ℕ → ℕ
cost costs level zero = 0
cost costs level (suc n) = exp_to_level costs level + cost costs (level + 1) n

get_or-positive : (xs : List ℕ) (i : ℕ) → All (λ x. 0 < x) xs → i < length xs → 0 < get_or xs i 0
get_or-positive [] i h l = absurd (omega arith)
get_or-positive (x ∷ xs) zero h l = h.0
get_or-positive (x ∷ xs) (suc i) h l = get_or-positive xs i h.1 (omega arith)

exp_to_level-positive :
    (costs : List ℕ) (level : ℕ)
    → All (λ x. 0 < x) costs
    → level + 1 < two32
    → 0 < exp_to_level costs level
unfolding exp_to_level
exp_to_level-positive [] level h l = omega arith
exp_to_level-positive (x ∷ xs) level h l =
    get_or-positive (x ∷ xs) (if leb (length xs + 1) level then length xs else level) h
      (ground arith)

-- The progress ends at a level whose cost is not reached, the rest of the points is kept, and the flag
-- tells whether there is a new level.
abbrev pub Reaches : List ℕ → Progress → Progress → Type 0
Reaches costs p q =
    (n : ℕ) × (q.level ≡ p.level + n)
    × (cost costs p.level n + q.exp ≡ p.exp)
    × (q.exp < exp_to_level costs q.level)
    × (q.leveled_up ≡ (p.leveled_up || ltb 0 n))

level_rounds-Reaches :
    (fuel : ℕ) (costs : List ℕ) (p : Progress)
    → All (λ x. 0 < x) costs
    → p.exp < fuel
    → p.level + p.exp + 1 < two32
    → (q : Progress) × (level_rounds fuel costs p ≡ some q) × Reaches costs p q
unfolding level_rounds
level_rounds-Reaches zero costs p h f w = absurd (omega arith)
level_rounds-Reaches (suc fuel) costs p h f w =
    let one = exp_to_level costs p.level in
    let positive = exp_to_level-positive costs p.level h (omega (arith, w)) in
    elim (Bool-cases (leb one p.exp)) [
      | inr c ↦ rw c (p, refl, (0, omega arith, omega arith, ground (arith, c), ground arith))
      | inl c ↦
          let next : ℕ → Progress =
            λ l. record { level = l; exp = p.exp - one; leveled_up = true } in
          let small : u32 (p.level + 1) ≡ p.level + 1 = omega (arith, w) in
          let (q, e, (n, l, s, r, b)) =
            level_rounds-Reaches fuel costs (next (p.level + 1)) h (ground (arith, positive, c, f))
              (ground (arith, positive, c, w)) in
          rw c (
            q,
            ap (λ m. level_rounds fuel costs (next m)) small ∙ e,
            (suc n, omega (arith, l), ground (arith, s, c), r, ground (arith, b)),
          )
    ]

-- The player with the points of the battle.
abbrev pub gained : ℕ → BattleResult → Base → Progress
gained uid res base = record {
  level = base.level;
  exp = u64 (base.exp + to_u64 (reward uid res).1);
  leveled_up = false;
}

-- When every configured level costs something and the level with the points stays below 2^32 - 1,
-- the loop over the levels ends and the reward of a battle comes to its commit: the gold is paid
-- into that currency and no other, the entry has the new balance, and the player rises by as many
-- levels as the points pay for, keeps the rest, which is less than the next level costs, and is
-- reported to rise when there is a new level.
pub settle_battle_lem :
    (costs : List ℕ) (uid : ℕ) (res : BattleResult) (base : Base)
    → All (λ x. 0 < x) costs
    → base.level + u64 (base.exp + to_u64 (reward uid res).1) + 1 < two32
    → (c : BattleCommit) × (settle_battle costs uid res base ≡ some c)
      × (c.amount ≡ (reward uid res).0)
      × (c.base.wallet currency_gold ≡ add64 (base.wallet currency_gold) c.amount)
      × ((t : ℕ) → t ≢ currency_gold → c.base.wallet t ≡ base.wallet t)
      × (c.balance ≡ c.base.wallet currency_gold)
      × Reaches costs
          (gained uid res base)
          (record { level = c.base.level; exp = c.base.exp; leveled_up = c.leveled_up })
unfolding settle_battle level_up set_balance battle_commit
settle_battle_lem costs uid res base h w =
    let start = gained uid res base in
    let (q, e, reaches) = level_rounds-Reaches (start.exp + 1) costs start h (omega arith) w in
    let gold = (reward uid res).0 in
    let paid = set_balance base.wallet currency_gold (add64 (base.wallet currency_gold) gold) in
    (
      battle_commit res gold paid q,
      ap (λ o. elim o [ none ↦ none | some p ↦ some (battle_commit res gold paid p) ]) e,
      refl,
      refl,
      λ t n. ground (arith, n),
      refl,
      reaches,
    )

-- A level that costs nothing, like all after it, keeps the loop running until the levels wrap.
pub free_levels-run :
    (fuel : ℕ) (costs : List ℕ) (p : Progress)
    → ((l : ℕ) → p.level ≤ l → exp_to_level costs l ≡ 0)
    → p.level + fuel < two32
    → level_rounds fuel costs p ≡ none
unfolding level_rounds
free_levels-run zero costs p h w = refl
free_levels-run (suc fuel) costs p h w =
    let small : u32 (p.level + 1) ≡ p.level + 1 = omega (arith, w) in
    let always : leb 0 p.exp ≡ true = ground arith in
    rw (h p.level (omega arith)) (
      rw (small, always)
        (free_levels-run fuel costs
          (record { level = p.level + 1; exp = p.exp - 0; leveled_up = true })
          (λ l m. h l (omega (arith, m))) (omega (arith, w))))
