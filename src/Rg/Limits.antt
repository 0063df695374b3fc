-- ===== src/Rg/Limits.antt =====
-- The limits and checks of pkg/rg/rg.go.
use f.Prelude.{
  ◌<◌, ◌≡◌, refl, arith, ℤ, pos, pos_part, neg_part, ◌≤ℤ◌, ◌<ℤ◌, ◌+ℤ◌, ◌-ℤ◌, true, false, some,
  +ℤ_parts, -ℤ_parts, add64, sub64, add64-exact, sub64-exact, ◌⊎◌, int_laws, parts_disjoint,
}
use f.Rg.{
  PlayerRg, RgLimits, effective, is_excluded, over_bet, over_loss, over_session, check_bet,
  apply_bet, session_seconds,
}

-- The effective limit is never looser than the global one, nor than the player's own, and there
-- is one as soon as either is set.
pub effective_stricter :
    (player_limit global_limit : ℤ)
    → (pos 0 <ℤ global_limit → effective player_limit global_limit ≤ℤ global_limit)
      × (pos 0 <ℤ player_limit → effective player_limit global_limit ≤ℤ player_limit)
      × ((pos 0 <ℤ global_limit) ⊎ (pos 0 <ℤ player_limit)
          → pos 0 <ℤ effective player_limit global_limit)
unfolding effective
effective_stricter p g = (λ h. ground arith, λ h. ground arith, λ h. ground arith)

-- Amounts for which the sums of the checks do not wrap.
abbrev pub IsAmount : ℤ → Type 0
IsAmount a = (pos_part a < 4611686018427387904) × (neg_part a ≡ 0)

-- What holds of a state after a bet that was let through.
pub record Within (state : PlayerRg) (now : ℤ) (cfg : RgLimits) : Type 0 where
  pub not_excluded : pos 0 <ℤ state.excluded_until → state.excluded_until ≤ℤ now
  pub bet_within :
      let limit = effective state.daily_bet_limit cfg.daily_bet_limit in
      pos 0 <ℤ limit → state.daily_bet ≤ℤ limit
  pub loss_within :
      let limit = effective state.daily_loss_limit cfg.daily_loss_limit in
      pos 0 <ℤ limit → state.daily_bet -ℤ state.daily_win ≤ℤ limit
  pub session_within :
      let limit = effective state.session_limit cfg.session_limit in
      pos 0 <ℤ limit → pos 0 <ℤ state.session_start → session_seconds state now ≤ℤ limit

passed :
    (state : PlayerRg) (bet now : ℤ) (cfg : RgLimits)
    → (check_bet (some state) bet now cfg).allowed ≡ true
    → (is_excluded state now ≡ false)
      × (over_bet state bet cfg ≡ false)
      × (over_loss state bet cfg ≡ false)
      × (over_session state now cfg ≡ false)
unfolding check_bet
passed state bet now cfg h = ground arith

not_excluded_lem :
    (state : PlayerRg) (now : ℤ)
    → is_excluded state now ≡ false
    → pos 0 <ℤ state.excluded_until
    → state.excluded_until ≤ℤ now
unfolding is_excluded
not_excluded_lem state now h p = ground arith

bet_within_lem :
    (state : PlayerRg) (bet : ℤ) (cfg : RgLimits)
    → over_bet state bet cfg ≡ false
    → pos 0 <ℤ effective state.daily_bet_limit cfg.daily_bet_limit
    → add64 state.daily_bet bet ≤ℤ effective state.daily_bet_limit cfg.daily_bet_limit
unfolding over_bet
bet_within_lem state bet cfg h p = ground arith

loss_within_lem :
    (state : PlayerRg) (bet : ℤ) (cfg : RgLimits)
    → over_loss state bet cfg ≡ false
    → pos 0 <ℤ effective state.daily_loss_limit cfg.daily_loss_limit
    → add64 (sub64 state.daily_bet state.daily_win) bet
      ≤ℤ effective state.daily_loss_limit cfg.daily_loss_limit
unfolding over_loss
loss_within_lem state bet cfg h p = ground arith

session_within_lem :
    (state : PlayerRg) (now : ℤ) (cfg : RgLimits)
    → over_session state now cfg ≡ false
    → pos 0 <ℤ effective state.session_limit cfg.session_limit
    → pos 0 <ℤ state.session_start
    → session_seconds state now ≤ℤ effective state.session_limit cfg.session_limit
unfolding over_session
session_within_lem state now cfg h p q = ground arith

session_seconds_bet :
    (state : PlayerRg) (b now : ℤ)
    → session_seconds (record state { daily_bet = b }) now ≡ session_seconds state now
unfolding session_seconds
session_seconds_bet state b now = refl

-- The order of the additions does not matter while nothing wraps.
loss_sum : (b w a : ℤ) → IsAmount b → IsAmount w → IsAmount a → add64 b a -ℤ w ≡ add64 (sub64 b w) a
loss_sum b w a hb hw ha =
    let e = add64-exact b a (omega (arith, +ℤ_parts b a, parts_disjoint (b +ℤ a))) in
    let d = sub64-exact b w (omega (arith, -ℤ_parts b w, parts_disjoint (b -ℤ w))) in
    let f = add64-exact (b -ℤ w) a (
      omega (
        arith,
        -ℤ_parts b w,
        +ℤ_parts (b -ℤ w) a,
        parts_disjoint ((b -ℤ w) +ℤ a),
        parts_disjoint (b -ℤ w),
      )) in
    rw (e, d, f) (omega int_laws)

-- A bet that is let through is not made in a self-exclusion period or past the session limit, and
-- after it the day's bets and the day's loss are within the effective limits, for amounts below
-- 2^62.
pub check_bet-Within :
    (state : PlayerRg) (bet now : ℤ) (cfg : RgLimits)
    → IsAmount state.daily_bet
    → IsAmount state.daily_win
    → IsAmount bet
    → (check_bet (some state) bet now cfg).allowed ≡ true
    → (after : PlayerRg) × (apply_bet (some state) bet ≡ some after) × Within after now cfg
unfolding apply_bet
check_bet-Within state bet now cfg b w a h =
    let (open_now, bet_ok, loss_ok, session_ok) = passed state bet now cfg h in
    let after : PlayerRg = record state { daily_bet = add64 state.daily_bet bet } in
    (
      after,
      refl,
      record {
        not_excluded = not_excluded_lem state now open_now;
        bet_within = bet_within_lem state bet cfg bet_ok;
        loss_within = λ p.
            rw (loss_sum state.daily_bet state.daily_win bet b w a)
              (loss_within_lem state bet cfg loss_ok p);
        session_within = session_lem;
      },
    )
  where
    session_lem :
        pos 0 <ℤ effective state.session_limit cfg.session_limit
        → pos 0 <ℤ state.session_start
        → session_seconds (record state { daily_bet = add64 state.daily_bet bet }) now
          ≤ℤ effective state.session_limit cfg.session_limit
    session_lem p q =
        rw session_seconds_bet (session_within_lem state now cfg (passed state bet now cfg h).3 p q)
