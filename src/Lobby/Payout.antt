-- ===== src/Lobby/Payout.antt =====
-- internal/lobby/slots.go: `handleApplyJackpot` up to its commit, which credits a payout of a pool to the
-- player, and `handleRoundState`. The currencies of the configured pools are an argument.
pub mod Credit
mod Examples
use f.Prelude.{
  ℕ, ℤ, pos, leb_ℤ, Bool, true, false, Option, none, some, List, [], ◌∷◌, String, Result, ok, err,
  ◌>>◌, reject, add64,
}
use f.Lobby.Bag.{Wallet, set_balance}
use f.Lobby.Spin.{Round}

pub data PayoutRefusal : Type 0 where
  bad_request : PayoutRefusal

abbrev pub currency_gold : ℕ
currency_gold = 1

-- The ledger entry of a payout: the pool and the transaction are its reference.
pub record PayoutEntry : Type 0 where
  pub currency : ℕ
  pub amount : ℤ
  pub balance : ℤ
  pub pool : String
  pub tx_id : String

pub record PayoutCommit : Type 0 where
  pub wallet : Wallet
  pub entries : List PayoutEntry
  pub idem_suffix : String

-- The currency of the pool, gold for one that is not configured.
unfoldable pub currency_of : (String → Option ℕ) → String → ℕ
currency_of pools pool = elim (pools pool) [ none ↦ currency_gold | some c ↦ c ]

-- `handleApplyJackpot` up to the commit
unfoldable pub apply_jackpot :
    (String → Option ℕ) → String → String → ℤ → Wallet → Result PayoutRefusal PayoutCommit
unfolding set_balance currency_of
apply_jackpot pools pool tx_id amount w = do
  reject (leb_ℤ amount (pos 0)) bad_request
  let c = currency_of pools pool
  let paid = set_balance w c (add64 (w c) amount)
  ok (record {
    wallet = paid;
    entries =
        record { currency = c; amount = amount; balance = paid c; pool = pool; tx_id = tx_id } ∷ [];
    idem_suffix = tx_id;
  })

-- `handleRoundState`: the round, and whether one is open.
unfoldable pub round_state : Option Round → Option Round × Bool
round_state none = (none, false)
round_state (some r) = (some r, true)
