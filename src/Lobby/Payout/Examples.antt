-- ===== src/Lobby/Payout/Examples.antt =====
-- A payout of `handleApplyJackpot`, internal/lobby/slots.go, and the theorem on it.
use f.Prelude.{
  ℕ, ◌≡◌, ◌≢◌, ◌⊎◌, inl, refl, some, arith, pos, ◌≤ℤ◌, ◌<ℤ◌, ◌+ℤ◌, IsInt64, Option, String, [], ◌∷◌,
  ok, err,
}
use f.Lobby.Bag.{Wallet}
use f.Lobby.Payout.{PayoutCommit, bad_request, apply_jackpot}
use f.Lobby.Payout.Credit.{apply_jackpot_lem}

abbrev pools : String → Option ℕ
pools pool = some 3

abbrev purse : Wallet
purse c = pos 5

fits : IsInt64 (purse 3 +ℤ pos 800)
unfolding ◌+ℤ◌
fits = (omega arith, omega arith)

apply_jackpot_lem_example :
    ((pos 800 ≤ℤ pos 0) × (apply_jackpot pools "grand" "t1" (pos 800) purse ≡ err bad_request))
    ⊎ ((pos 0 <ℤ pos 800)
        × ((x : PayoutCommit) × (apply_jackpot pools "grand" "t1" (pos 800) purse ≡ ok x)
            × (x.wallet 3 ≡ pos 5 +ℤ pos 800)
            × ((t : ℕ) → t ≢ 3 → x.wallet t ≡ pos 5)
            × (x.entries
                ≡ record {
                  currency = 3;
                  amount = pos 800;
                  balance = pos 5 +ℤ pos 800;
                  pool = "grand";
                  tx_id = "t1";
                }
                  ∷ [])))
apply_jackpot_lem_example = apply_jackpot_lem pools "grand" "t1" (pos 800) purse 3 (inl refl) fits
