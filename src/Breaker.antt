-- ===== src/Breaker.antt =====
-- pkg/idp/breaker.go, the circuit breaker of a login channel, and `Registry.Verify` of pkg/idp/idp.go
-- around it. The provider is a parameter, as what its call ends in; times are counts of nanoseconds, and the zero
-- time is `none`. Metrics, logs and the deadline of the call are not modelled.
pub mod Circuit
pub mod Logins
mod Examples
use text.Mathlib.Text.{◌==◌ as str_eq}
use f.Prelude.{
  ℕ, ◌+◌, ◌<◌, ◌≡◌, ℤ, pos, pos_part, neg_part, ltb_ℤ, leb_ℤ, if◌then◌else◌, Bool, true, false,
  ◌||◌, ◌&&◌, not, Option, none, some, List, [], ◌∷◌, Result, ok, err, add64, ◌+ℤ◌, String,
}

pub record Breaker : Type 0 where
  pub threshold : ℤ
  pub cooldown : ℤ
  pub fails : ℤ
  pub open_till : Option ℤ
  pub probing : Bool

-- `NewBreaker`: 5 failures and 10 seconds unless the options say otherwise.
unfoldable pub new : ℤ → ℤ → Breaker
new threshold cooldown = record {
  threshold = if leb_ℤ threshold (pos 0) then pos 5 else threshold;
  cooldown = if leb_ℤ cooldown (pos 0) then pos 10000000000 else cooldown;
  fails = pos 0;
  open_till = none;
  probing = false;
}

-- `Allow`
unfoldable pub allow : ℤ → Breaker → Breaker × Bool
allow now b = elim b.open_till [
  | none ↦ (b, true)
  | some till ↦
      if ltb_ℤ now till
      then (b, false)
      else if b.probing
      then (b, false)
      else (record b { probing = true }, true)
]

-- `Success`
unfoldable pub success : Breaker → Breaker
success b = record b { fails = pos 0; open_till = none; probing = false }

-- `Fail`
unfoldable pub fail : ℤ → Breaker → Breaker
fail now b =
    let fails = add64 b.fails (pos 1) in
    if ltb_ℤ fails b.threshold
    then record b { probing = false; fails = fails }
    else record b { probing = false; fails = fails; open_till = some (now +ℤ b.cooldown) }

-- `Open`
unfoldable pub is_open : ℤ → Breaker → Bool
is_open now b = elim b.open_till [ none ↦ false | some till ↦ ltb_ℤ now till ]

pub data VerifyError : Type 0 where
  channel_unknown credential_invalid breaker_open upstream : VerifyError

pub record Identity : Type 0 where
  pub open_id : String
  pub union_id : String
  pub channel : String

-- How a call to the provider ends: with the two names of the player, or not.
pub data Outcome : Type 0 where
  verified : String → String → Outcome
  rejected timed_out failed : Outcome

unfoldable pub is_empty : String → Bool
is_empty s = str_eq s ""

-- What `Verify` makes of the outcome of the call, which ends at `now`.
unfoldable pub conclude : String → ℤ → Breaker → Outcome → Breaker × Result VerifyError Identity
conclude channel now b (verified open_id union_id) =
    if is_empty open_id
    then (fail now b, err upstream)
    else (success b, ok (record { open_id = open_id; union_id = union_id; channel = channel }))
conclude channel now b rejected = (b, err credential_invalid)
conclude channel now b timed_out = (fail now b, err upstream)
conclude channel now b failed = (fail now b, err upstream)

-- `Verify` on a registered channel: the credential is looked at first, the provider is called only if
-- the breaker allows it.
unfoldable pub verify :
    String → String → ℤ → ℤ → Outcome → Breaker → Breaker × Result VerifyError Identity
verify channel credential start end outcome b =
    if is_empty credential
    then (b, err credential_invalid)
    else (let (b', allowed) = allow start b in
        if allowed then conclude channel end b' outcome else (b', err breaker_open))

-- `Verify` in the registry of breakers, by the channel's name in lower case.
unfoldable pub verify_in :
    (String → Option Breaker)
    → String
    → String
    → ℤ
    → ℤ
    → Outcome
    → Option Breaker × Result VerifyError Identity
verify_in breakers channel credential start end outcome =
    if is_empty channel then (none, err channel_unknown) else elim (breakers channel) [
      | none ↦ (none, err channel_unknown)
      | some b ↦ let (b', r) = verify channel credential start end outcome b in (some b', r)
    ]

-- `Retryable`
unfoldable pub retryable : VerifyError → Bool
retryable channel_unknown = false
retryable credential_invalid = false
retryable breaker_open = true
retryable upstream = true
