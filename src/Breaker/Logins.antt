-- ===== src/Breaker/Logins.antt =====
-- `Verify` of pkg/idp/idp.go with its breaker, login after login.
use f.Prelude.{
  ℕ, suc, ◌+◌, ◌<◌, ◌≡◌, refl, arith, ℤ, pos, ◌<ℤ◌, ◌≤ℤ◌, ltb_ℤ, if◌then◌else◌, true, false, none,
  some, ap, ◌∙◌, All, List, [], ◌∷◌, length, add64, add64-exact, ◌+ℤ◌, two63, String, Result, err,
}
use f.Breaker.{
  Breaker, allow, fail, Outcome, verified, rejected, timed_out, failed, VerifyError, breaker_open,
  upstream, Identity, is_empty, conclude, verify,
}

-- One login on a channel: the credential, the times at which the call starts and ends, its outcome.
pub record Login : Type 0 where
  pub credential : String
  pub start : ℤ
  pub end : ℤ
  pub outcome : Outcome

abbrev pub log_in : String → Login → Breaker → Breaker × Result VerifyError Identity
log_in channel l b = verify channel l.credential l.start l.end l.outcome b

abbrev pub log_in_all : String → List Login → Breaker → Breaker
log_in_all channel [] b = b
log_in_all channel (l ∷ ls) b = log_in_all channel ls (log_in channel l b).0

-- A channel that does not answer, or answers with an error or an empty identity.
abbrev pub IsFault : Outcome → Type 0
IsFault (verified open_id union_id) = is_empty open_id ≡ true
IsFault rejected = ⊥
IsFault timed_out = Unit
IsFault failed = Unit

-- A login with a credential that the channel rejects.
abbrev pub IsBadLogin : Login → Type 0
IsBadLogin l = l.outcome ≡ rejected

abbrev pub IsFaultyLogin : Login → Type 0
IsFaultyLogin l = (is_empty l.credential ≡ false) × IsFault l.outcome

conclude-fault :
    (channel : String) (now : ℤ) (b : Breaker) (o : Outcome)
    → IsFault o
    → conclude channel now b o ≡ (fail now b, err upstream)
unfolding conclude
conclude-fault channel now b (verified open_id union_id) f = ground (arith, f)
conclude-fault channel now b rejected f = absurd f
conclude-fault channel now b timed_out f = refl
conclude-fault channel now b failed f = refl

-- However many credentials are rejected, a closed breaker does not move, and the next login is
-- let through: bad credentials do not open it.
pub rejected-harmless :
    (channel : String) (ls : List Login) (b : Breaker) (now : ℤ)
    → All IsBadLogin ls
    → b.open_till ≡ none
    → (log_in_all channel ls b ≡ b) × (allow now (log_in_all channel ls b) ≡ (b, true))
unfolding verify conclude allow
rejected-harmless channel [] b now a c = (refl, ground (arith, c))
rejected-harmless channel (l ∷ ls) b now a c =
    let same : (log_in channel l b).0 ≡ b = ground (arith, a.0, c) in
    rw same (rejected-harmless channel ls b now a.1 c)

next : (n : ℕ) → n + 1 < two63 → add64 (pos n) (pos 1) ≡ pos (n + 1)
unfolding ◌+ℤ◌
next n h = ground (arith, add64-exact (pos n) (pos 1) (ground arith))

fail-eq :
    (now : ℤ) (b : Breaker) (n : ℕ)
    → b.fails ≡ pos n
    → n + 1 < two63
    → fail now b ≡ (
        if ltb_ℤ (pos (n + 1)) b.threshold
        then record b { probing = false; fails = pos (n + 1) }
        else record b {
          probing = false;
          fails = pos (n + 1);
          open_till = some (now +ℤ b.cooldown);
        })
unfolding fail
fail-eq now b n at fits = ground (arith, at, next n fits)

-- A login on a closed breaker whose call is a fault is one failure.
faulty-step :
    (channel : String) (l : Login) (b : Breaker)
    → IsFaultyLogin l
    → b.open_till ≡ none
    → log_in channel l b ≡ (fail l.end b, err upstream)
unfolding verify allow
faulty-step channel l b f c = ground (arith, f.0, c, conclude-fault channel l.end b l.outcome f.1)

-- Faults below the threshold leave the breaker closed and are counted.
faults-counted :
    (channel : String) (ls : List Login) (b : Breaker) (n : ℕ)
    → All IsFaultyLogin ls
    → b.open_till ≡ none
    → b.fails ≡ pos n
    → pos (n + length ls) <ℤ b.threshold
    → n + length ls < two63
    → let b' = log_in_all channel ls b in
      (b'.open_till ≡ none)
      × (b'.fails ≡ pos (n + length ls))
      × (b'.threshold ≡ b.threshold)
      × (b'.cooldown ≡ b.cooldown)
faults-counted channel [] b n f c at below fits = (c, ground (arith, at), refl, refl)
faults-counted channel (l ∷ ls) b n f c at below fits =
    let b1 : Breaker = record b { probing = false; fails = pos (n + 1) } in
    let step : (log_in channel l b).0 ≡ b1 =
      ground (arith, faulty-step channel l b f.0 c, fail-eq l.end b n at (omega arith)) in
    rw (step, log_in_all)
      (ground (arith, faults-counted channel ls b1 (n + 1) f.1 c refl (omega arith) (omega arith)))

-- As many faults in a row as the threshold says open a closed breaker without failures, and not
-- one fewer: before the last it is still closed, and after it a login with a credential that
-- starts within the cooldown is refused, whatever the channel would have answered.
pub faults-open :
    (channel : String) (ls : List Login) (l later : Login) (b : Breaker)
    → All IsFaultyLogin ls
    → IsFaultyLogin l
    → b.open_till ≡ none
    → b.fails ≡ pos 0
    → b.threshold ≡ pos (suc (length ls))
    → suc (length ls) < two63
    → is_empty later.credential ≡ false
    → later.start <ℤ l.end +ℤ b.cooldown
    → let before = log_in_all channel ls b in
      let after = (log_in channel l before).0 in
      (before.open_till ≡ none)
      × (after.open_till ≡ some (l.end +ℤ b.cooldown))
      × (log_in channel later after ≡ (after, err breaker_open))
unfolding verify allow
faults-open channel ls l later b fs f c at t fits given soon =
    let before = log_in_all channel ls b in
    let counted = faults-counted channel ls b 0 fs c at (ground (arith, t)) (omega arith) in
    let failed_ : (log_in channel l before).0 ≡ fail l.end before =
      ap (λ x. x.0) (faulty-step channel l before f counted.0) in
    let opened : (fail l.end before).open_till ≡ some (l.end +ℤ b.cooldown) = ground (
      arith,
      fail-eq l.end before (length ls) (counted.1 ∙ ap pos (omega arith)) (omega arith),
      counted.2,
      t,
    ) in
    (counted.0, rw failed_ opened, rw failed_ (ground (arith, opened, given, soon)))

probed :
    (channel : String) (probe : Login) (b : Breaker) (till : ℤ)
    → b.open_till ≡ some till
    → till ≤ℤ probe.start
    → b.probing ≡ false
    → probe.outcome ≡ rejected
    → is_empty probe.credential ≡ false
    → (log_in channel probe b).0 ≡ record b { probing = true }
unfolding verify allow conclude
probed channel probe b till o cool free r given = ground (arith, o, cool, free, r, given)

locked-refused :
    (channel : String) (l : Login) (b : Breaker) (till : ℤ)
    → b.open_till ≡ some till
    → b.probing ≡ true
    → is_empty l.credential ≡ false
    → log_in channel l b ≡ (b, err breaker_open)
unfolding verify allow
locked-refused channel l b till o p given = ground (arith, o, p, given)

locked :
    (channel : String) (ls : List Login) (b : Breaker) (till : ℤ)
    → b.open_till ≡ some till
    → b.probing ≡ true
    → log_in_all channel ls b ≡ b
unfolding verify allow
locked channel [] b till o p = refl
locked channel (l ∷ ls) b till o p =
    let same : (log_in channel l b).0 ≡ b = ground (arith, o, p) in
    rw same (locked channel ls b till o p)

-- When the one probe of an open breaker carries a credential that the channel rejects, the
-- breaker hears nothing of it: every login after it is refused, at whatever time.
pub rejected_probe-locks :
    (channel : String) (probe later : Login) (ls : List Login) (b : Breaker) (till : ℤ)
    → b.open_till ≡ some till
    → till ≤ℤ probe.start
    → b.probing ≡ false
    → probe.outcome ≡ rejected
    → is_empty probe.credential ≡ false
    → is_empty later.credential ≡ false
    → let after = (log_in channel probe b).0 in
      (log_in_all channel ls after ≡ after)
      × (log_in channel later after ≡ (after, err breaker_open))
rejected_probe-locks channel probe later ls b till o cool free r given given' =
    rw (probed channel probe b till o cool free r given) (
      locked channel ls (record b { probing = true }) till o refl,
      locked-refused channel later (record b { probing = true }) till o refl given',
    )
