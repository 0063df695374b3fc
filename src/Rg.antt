-- ===== src/Rg.antt =====
-- pkg/rg/rg.go: the responsible-gaming limits. Times are Unix milliseconds; the texts of reasons and
-- notices are left out, their kinds are kept. A nil state is `none`.
pub mod Day
pub mod Limits
mod Examples
use f.Prelude.{
  ℕ, suc, ◌+◌, ◌-◌, ◌*◌, ◌/◌, ℤ, pos, negsuc, ltb_ℤ, leb_ℤ, eqb_ℤ, Bool, true, false, not, ◌&&◌,
  ◌||◌, if◌then◌else◌, Option, none, some, add64, sub64, mul64, div64, ◌+ℤ◌, ◌-ℤ◌, ◌*ℤ◌,
}

pub record RgLimits : Type 0 where
  pub daily_bet_limit : ℤ
  pub daily_loss_limit : ℤ
  pub session_limit : ℤ
  pub reset_offset_minutes : ℤ
  pub notice_interval : ℤ

pub record PlayerRg : Type 0 where
  pub day_start : ℤ
  pub daily_bet : ℤ
  pub daily_win : ℤ
  pub daily_bet_limit : ℤ
  pub daily_loss_limit : ℤ
  pub session_limit : ℤ
  pub session_start : ℤ
  pub excluded_until : ℤ
  pub last_notice_at : ℤ

pub data Reason : Type 0 where
  reason_ok self_excluded daily_bet_reached daily_loss_reached session_reached : Reason

pub data Notice : Type 0 where
  no_notice near_bet_limit : Notice
  played_minutes : ℤ → Notice

pub record Decision : Type 0 where
  pub allowed : Bool
  pub code : Reason
  pub notice : Notice

unfoldable pub allow : Decision
allow = record { allowed = true; code = reason_ok; notice = no_notice }

abbrev pub deny : Reason → Decision
deny r = record { allowed = false; code = r; notice = no_notice }

abbrev pub day_ms : ℕ
day_ms = 86400000

-- The start of the day of a count of milliseconds, rounding down.
unfoldable pub floor_day : ℤ → ℤ
floor_day (pos n) = pos (n / day_ms * day_ms)
floor_day (negsuc n) = negsuc ((n / day_ms + 1) * day_ms - 1)

-- `DayStart`: midnight in the zone of the offset, in UTC milliseconds.
unfoldable pub day_start_of : ℤ → ℤ → ℤ
day_start_of now offset_minutes =
    let offset = offset_minutes *ℤ pos 60000 in floor_day (now +ℤ offset) -ℤ offset

-- `Rollover`: the state and whether it was reset.
unfoldable pub rollover : PlayerRg → ℤ → RgLimits → PlayerRg × Bool
rollover state now cfg =
    let start = day_start_of now cfg.reset_offset_minutes in
    if eqb_ℤ state.day_start start
    then (state, false)
    else (record state { day_start = start; daily_bet = pos 0; daily_win = pos 0 }, true)

unfoldable pub effective : ℤ → ℤ → ℤ
effective player_limit global_limit =
    if ltb_ℤ (pos 0) player_limit && (leb_ℤ global_limit (pos 0) || ltb_ℤ player_limit global_limit)
    then player_limit
    else global_limit

unfoldable pub session_seconds : PlayerRg → ℤ → ℤ
unfolding sub64 div64
session_seconds state now = div64 (sub64 now state.session_start) 1000

-- `notice`
unfoldable pub near_limit : PlayerRg → RgLimits → Notice
unfolding effective mul64
near_limit state cfg =
    let limit = effective state.daily_bet_limit cfg.daily_bet_limit in
    if ltb_ℤ (pos 0) limit && leb_ℤ (mul64 limit (pos 8)) (mul64 state.daily_bet (pos 10))
    then near_bet_limit
    else no_notice

unfoldable pub notice_for : PlayerRg → ℤ → RgLimits → Notice
unfolding near_limit session_seconds
notice_for state now cfg =
    if leb_ℤ cfg.notice_interval (pos 0)
    then no_notice
    else if ltb_ℤ (sub64 now state.last_notice_at) (mul64 cfg.notice_interval (pos 1000))
    then no_notice
    else if ltb_ℤ (pos 0) state.session_start
        && leb_ℤ cfg.notice_interval (session_seconds state now)
    then played_minutes (div64 (session_seconds state now) 60)
    else near_limit state cfg

-- The four tests of `CheckBet`.
unfoldable pub is_excluded : PlayerRg → ℤ → Bool
is_excluded state now = ltb_ℤ (pos 0) state.excluded_until && ltb_ℤ now state.excluded_until

unfoldable pub over_bet : PlayerRg → ℤ → RgLimits → Bool
over_bet state bet cfg =
    let limit = effective state.daily_bet_limit cfg.daily_bet_limit in
    ltb_ℤ (pos 0) limit && ltb_ℤ limit (add64 state.daily_bet bet)

unfoldable pub over_loss : PlayerRg → ℤ → RgLimits → Bool
over_loss state bet cfg =
    let limit = effective state.daily_loss_limit cfg.daily_loss_limit in
    ltb_ℤ (pos 0) limit && ltb_ℤ limit (add64 (sub64 state.daily_bet state.daily_win) bet)

unfoldable pub over_session : PlayerRg → ℤ → RgLimits → Bool
over_session state now cfg =
    let limit = effective state.session_limit cfg.session_limit in
    ltb_ℤ (pos 0) limit
    && ltb_ℤ (pos 0) state.session_start
    && ltb_ℤ limit (session_seconds state now)

-- `CheckBet`
unfoldable pub check_bet : Option PlayerRg → ℤ → ℤ → RgLimits → Decision
unfolding allow
check_bet none bet now cfg = allow
check_bet (some state) bet now cfg =
    if is_excluded state now
    then deny self_excluded
    else if over_bet state bet cfg
    then deny daily_bet_reached
    else if over_loss state bet cfg
    then deny daily_loss_reached
    else if over_session state now cfg
    then deny session_reached
    else record allow { notice = notice_for state now cfg }

unfoldable pub apply_bet : Option PlayerRg → ℤ → Option PlayerRg
apply_bet none bet = none
apply_bet (some state) bet = some (record state { daily_bet = add64 state.daily_bet bet })

unfoldable pub apply_win : Option PlayerRg → ℤ → Option PlayerRg
apply_win none win = none
apply_win (some state) win = some (record state { daily_win = add64 state.daily_win win })

unfoldable pub mark_notice : Option PlayerRg → ℤ → Option PlayerRg
mark_notice none now = none
mark_notice (some state) now = some (record state { last_notice_at = now })

unfoldable pub start_session : Option PlayerRg → ℤ → Option PlayerRg
start_session none now = none
start_session (some state) now = some (record state { session_start = now })

-- `LoginBlocked`
unfoldable pub login_blocked : Option PlayerRg → ℤ → Bool × ℤ
unfolding is_excluded
login_blocked none now = (false, pos 0)
login_blocked (some state) now =
    if is_excluded state now then (true, state.excluded_until) else (false, pos 0)

pub record RgStatus : Type 0 where
  pub daily_bet : ℤ
  pub daily_bet_limit : ℤ
  pub daily_loss : ℤ
  pub daily_loss_limit : ℤ
  pub session_seconds : ℤ
  pub session_limit : ℤ
  pub excluded_until : ℤ
  pub blocked : Bool
  pub reason : Reason

abbrev pub empty_rg : PlayerRg
empty_rg = record {
  day_start = pos 0;
  daily_bet = pos 0;
  daily_win = pos 0;
  daily_bet_limit = pos 0;
  daily_loss_limit = pos 0;
  session_limit = pos 0;
  session_start = pos 0;
  excluded_until = pos 0;
  last_notice_at = pos 0;
}

-- `Status`; a nil state counts as an empty one.
unfoldable pub status_of : PlayerRg → ℤ → RgLimits → RgStatus
status_of state now cfg =
    let d = check_bet (some state) (pos 0) now cfg in
    record {
      daily_bet = state.daily_bet;
      daily_bet_limit = effective state.daily_bet_limit cfg.daily_bet_limit;
      daily_loss = sub64 state.daily_bet state.daily_win;
      daily_loss_limit = effective state.daily_loss_limit cfg.daily_loss_limit;
      session_seconds =
          if ltb_ℤ (pos 0) state.session_start then session_seconds state now else pos 0;
      session_limit = effective state.session_limit cfg.session_limit;
      excluded_until = state.excluded_until;
      blocked = not d.allowed;
      reason = d.code;
    }

unfoldable pub status : Option PlayerRg → ℤ → RgLimits → RgStatus
unfolding status_of
status none now cfg = status_of empty_rg now cfg
status (some state) now cfg = status_of state now cfg
