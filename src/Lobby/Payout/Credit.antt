-- ===== src/Lobby/Payout/Credit.antt =====
-- The credit of `handleApplyJackpot`, internal/lobby/slots.go.
use f.Prelude.{
  ℕ, ◌≡◌, ◌≢◌, ◌⊎◌, inl, inr, refl, ap, arith, ℤ, pos, ◌≤ℤ◌, ◌<ℤ◌, ◌+ℤ◌, leb_ℤ, Bool-cases, add64,
  add64-exact, IsInt64, Option, some, none, String, List, [], ◌∷◌, ok, err,
}
use f.Lobby.Bag.{Wallet, set_balance}
use f.Lobby.Payout.{PayoutEntry, PayoutCommit, bad_request, currency_of, apply_jackpot}

-- The currency in which a pool pays: its own, and gold, which is 1, when it is not configured.
abbrev pub PaysIn : Option ℕ → ℕ → Type 0
PaysIn configured c = (configured ≡ some c) ⊎ ((configured ≡ none) × (c ≡ 1))

currency_of-PaysIn :
    (pools : String → Option ℕ) (pool : String) (c : ℕ)
    → PaysIn (pools pool) c
    → currency_of pools pool ≡ c
unfolding currency_of
currency_of-PaysIn pools pool c (inl q) = ground (arith, q)
currency_of-PaysIn pools pool c (inr (q, e)) = ground (arith, q, e)

-- A payout of a pool, when the new balance is an int64: one that is not positive is refused, and
-- any other credits exactly its amount in the pool's currency, gold for an unknown pool, with one
-- ledger entry of that amount, that balance and that transaction, and changes no other currency.
pub apply_jackpot_lem :
    (pools : String → Option ℕ) (pool tx_id : String) (amount : ℤ) (w : Wallet) (c : ℕ)
    → PaysIn (pools pool) c
    → IsInt64 (w c +ℤ amount)
    → ((amount ≤ℤ pos 0) × (apply_jackpot pools pool tx_id amount w ≡ err bad_request))
      ⊎ ((pos 0 <ℤ amount)
          × ((x : PayoutCommit) × (apply_jackpot pools pool tx_id amount w ≡ ok x)
              × (x.wallet c ≡ w c +ℤ amount)
              × ((t : ℕ) → t ≢ c → x.wallet t ≡ w t)
              × (x.entries
                  ≡ record {
                    currency = c;
                    amount = amount;
                    balance = w c +ℤ amount;
                    pool = pool;
                    tx_id = tx_id;
                  }
                    ∷ [])))
unfolding apply_jackpot set_balance
apply_jackpot_lem pools pool tx_id amount w c pays fits =
    let sum = add64-exact (w c) amount fits in
    let in_c = currency_of-PaysIn pools pool c pays in
    elim (Bool-cases (leb_ℤ amount (pos 0))) [
      | inl none_due ↦ inl (ground (arith, none_due), ground (arith, none_due))
      | inr due ↦
          let paid = set_balance w c (add64 (w c) amount) in
          let entry : ℤ → List PayoutEntry = λ b.
            record { currency = c; amount = amount; balance = b; pool = pool; tx_id = tx_id }
            ∷ [] in
          let credited : paid c ≡ w c +ℤ amount = ground (arith, sum) in
          inr (
            ground (arith, due),
            (
              record { wallet = paid; entries = entry (paid c); idem_suffix = tx_id },
              rw due (rw in_c refl),
              credited,
              (λ t n. ground arith),
              ap entry credited,
            ),
          )
    ]
