-- ===== src/Jackpot/Examples.antt =====
-- A pool in memory, and the theorems on pkg/jackpot/jackpot.go at runs on it.
use f.Prelude.{
  ◌+◌, ◌-◌, ◌<◌, ◌≤◌, ◌≡◌, refl, arith, ℤ, pos, negsuc, Option, some, none, [], ◌∷◌, Bool, true,
  false, ◌+ℤ◌, ok, err, ◌⊎◌,
}
use f.Jackpot.{Cells, IsCells, Claimant, payout_of, empty, level_or, amount_of, claim}
use f.Jackpot.Money.{claim_lem, contribute_all, contribute_all-sum}

-- The level, and whether a payout is due.
abbrev memory : Cells
memory = record {
  State = Option ℤ × Bool;
  get = λ s. s.0;
  set = λ n s. (some n, s.1);
  incr_by = λ d s. (some (level_or (pos 0) s.0 +ℤ d), s.1);
  zadd = λ score p s. (s.0, true);
  zrem = λ p s. (s.0, false);
  is_member = λ p s. s.1;
  to_number = λ n. n;
}

incr_lem :
    (d n : ℤ) (s : Option ℤ × Bool)
    → s.0 ≡ some n
    → ◌≡◌ {A = Option ℤ} (some (level_or (pos 0) s.0 +ℤ d)) (some (n +ℤ d))
incr_lem d n s h = rw h refl

memory-IsCells : IsCells memory
memory-IsCells = record {
  get-set = λ n s. refl;
  get-incr_by = λ d n s h fits. incr_lem d n s h;
  get-zadd = λ score p s. refl;
  is_member-zadd = λ score p s. refl;
  is_member-set = λ n p s. refl;
  is_member-incr_by = λ d p s. refl;
  number = λ n h. refl;
}

abbrev winner : Claimant
winner = record {
  pool_id = "grand";
  uid = 42;
  currency = 1;
  round_id = 9;
  tx_id = "t1";
  now = pos 1000;
}

-- Another player contributes 5 between the read and the script.
claim_lem_example :
    ((805 ≤ 100)
      × (claim memory (some (pos 100)) winner (λ s. (some (pos 805), s.1)) (some (pos 800), false)
          ≡ ((some (pos 805), false), err empty)))
    ⊎ ((100 < 805)
        × ((s' : Option ℤ × Bool) × (claim memory
                (some (pos 100))
                winner
                (λ s. (some (pos 805), s.1))
                (some (pos 800), false)
              ≡ (s', ok (payout_of winner (pos 800))))
            × (s'.1 ≡ true)
            × (s'.0 ≡ some (pos (100 + (805 - 800))))))
claim_lem_example =
    claim_lem memory memory-IsCells 100 800 805 winner (λ s. (some (pos 805), s.1))
      (some (pos 800), false) (omega arith) (omega arith) (omega arith) refl refl

contribute_all-sum_example :
    amount_of memory
      (some (pos 100))
      (contribute_all memory (pos 100) (pos 7 ∷ negsuc 3 ∷ pos 5 ∷ []) (none, false))
    ≡ pos 112
contribute_all-sum_example =
    contribute_all-sum memory memory-IsCells (pos 100) 100 (pos 7 ∷ negsuc 3 ∷ pos 5 ∷ [])
      (none, false) refl (omega arith)
