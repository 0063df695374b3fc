-- ===== src/Lobby/Spin/Money.antt =====
-- The money of one spin, internal/lobby/slots.go: the balance and the ledger of what is committed.
use f.Prelude.{
  ℕ, ◌+◌, ◌-◌, ◌<◌, ◌≤◌, ◌≡◌, ◌≢◌, ap, ◌∙◌, arith, ℤ, pos, ◌+ℤ◌, ◌-ℤ◌, Bool, true, false, List, [],
  ◌∷◌, add64, sub64, add64-exact, sub64-exact, two63,
}
use f.Rg.{PlayerRg}
use f.Slots.{SlotMachine, SpinResult}
use f.Lobby.Bag.{Wallet, set_balance}
use f.Lobby.Spin.{Round, Entry, advance, committed, paid_wallet, won_wallet, entries_of}

-- The sum of the amounts of some entries, exactly.
abbrev pub total_of : List Entry → ℤ
total_of [] = pos 0
total_of (e ∷ es) = e.amount +ℤ total_of es

-- The bet that a spin costs.
abbrev pub cost_of : Bool → ℕ → ℕ
cost_of true bet = 0
cost_of false bet = bet

pay-exact :
    (before bet : ℕ)
    → bet ≤ before
    → before < two63
    → sub64 (pos before) (pos bet) ≡ pos (before - bet)
unfolding ◌-ℤ◌
pay-exact before bet h f = sub64-exact (pos before) (pos bet) (ground arith) ∙ ground arith

win-exact : (a b : ℕ) → a + b < two63 → add64 (pos a) (pos b) ≡ pos (a + b)
unfolding ◌+ℤ◌
win-exact a b f = add64-exact (pos a) (pos b) (ground arith) ∙ ground arith

owed-exact : (bet : ℕ) → bet < two63 → sub64 (pos 0) (pos bet) ≡ pos 0 -ℤ pos bet
unfolding ◌-ℤ◌
owed-exact bet f = sub64-exact (pos 0) (pos bet) (ground arith)

-- The balance after the bet, and after the win.
paid-balance :
    (free : Bool) (w : Wallet) (c bet before : ℕ)
    → w c ≡ pos before
    → cost_of free bet ≤ before
    → before < two63
    → paid_wallet free w c (pos bet) c ≡ pos (before - cost_of free bet)
unfolding set_balance
paid-balance true w c bet before b d f = ground (arith, b)
paid-balance false w c bet before b d f = ground (arith, b, pay-exact before bet d f)

won-balance :
    (w : Wallet) (c win before : ℕ)
    → w c ≡ pos before
    → before + win < two63
    → won_wallet w c (pos win) c ≡ pos (before + win)
unfolding set_balance
won-balance w c win before b f = ground (arith, b, win-exact before win f)

others-kept :
    (free : Bool) (w : Wallet) (c t : ℕ) (bet win : ℤ)
    → t ≢ c
    → won_wallet (paid_wallet free w c bet) c win t ≡ w t
unfolding set_balance
others-kept true w c t bet win n = ground arith
others-kept false w c t bet win n = ground arith

entries-total :
    (m : SlotMachine) (free : Bool) (id c bet win : ℕ) (w : Wallet)
    → bet < two63
    → total_of (entries_of m free id c (pos bet) (pos win) w) ≡ pos win -ℤ pos (cost_of free bet)
unfolding entries_of ◌+ℤ◌ ◌-ℤ◌
entries-total m true id c bet win w f = ground arith
entries-total m false id c bet win w f = ground (arith, owed-exact bet f)

-- What is committed after a spin, when the balance covers the bet, the win is not negative and
-- nothing wraps: the balance is that of before less the bet of a paid spin plus the win, the
-- amounts in the ledger sum to exactly that change, and no other currency changes.
pub committed-money :
    (m : SlotMachine) (free : Bool) (now : ℤ) (w : Wallet) (rg : PlayerRg) (round : Round)
    (bet win before : ℕ) (r : SpinResult)
    → r.total_win ≡ pos win
    → w round.currency ≡ pos before
    → cost_of free bet ≤ before
    → before + win < two63
    → bet < two63
    → let c = committed m free now w rg round (pos bet) r in
      (c.wallet round.currency ≡ pos (before - cost_of free bet + win))
      × (total_of c.entries ≡ pos win -ℤ pos (cost_of free bet))
      × ((t : ℕ) → t ≢ round.currency → c.wallet t ≡ w t)
committed-money m free now w rg round bet win before r a b d e f =
    let paid = paid-balance free w round.currency bet before b d (omega arith) in
    (
      rw a (
          won-balance (paid_wallet free w round.currency (pos bet)) round.currency win
            (before - cost_of free bet) paid (omega arith)),
      ap
            (λ x.
              total_of
                (entries_of m free (advance m free r round).round_id round.currency (pos bet) x w))
            a
          ∙ entries-total m free (advance m free r round).round_id round.currency bet win w f,
      λ t n. others-kept free w round.currency t (pos bet) r.total_win n,
    )
