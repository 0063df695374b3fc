-- ===== src/Lobby/Spin.antt =====
-- internal/lobby/slots.go: `handleSpin` up to the commit, on copies of the player, and `fastForward`.
-- The random seed and the round number are arguments, `none` where their source fails. The identifiers
-- of ledger entries, the blobs and the reply are not modelled.
pub mod Trace
pub mod Aligned
pub mod Orders
pub mod Money
pub mod Guards
mod Examples
use text.Mathlib.Text.{◌==◌ as str_eq}
use f.Prelude.{
  ℕ, zero, suc, ◌+◌, ◌-◌, ℤ, pos, ltb, leb, ltb_ℤ, leb_ℤ, eqb_ℤ, ◌==◌, if◌then◌else◌, Bool, true,
  false, ◌||◌, ◌&&◌, not, Option, none, some, List, [], ◌∷◌, ◌++◌, String, Result, ok, err, ◌>>=◌,
  ◌>>◌, require, reject, add64, sub64, u32,
}
use f.Rng.{Stream, Source}
use f.Rng as rng
use f.Rng.Seed.{hex, parse_seed}
use f.Rg.{PlayerRg, RgLimits, Decision, Reason, self_excluded, rollover, check_bet}
use f.Jackpot.{contribution_of}
use f.Slots.{SlotMachine, SpinResult, SpinError, spin}
use f.Lobby.Bag.{Wallet, set_balance}

pub record Round : Type 0 where
  pub round_id : ℕ
  pub game_id : String
  pub config_version : String
  pub seed_hex : List ℕ
  pub currency : ℕ
  pub bet : ℤ
  pub multiplier : ℕ
  pub spin_index : ℕ
  pub free_spins_left : ℕ
  pub free_spins_total : ℕ
  pub total_win : ℤ
  pub settled : Bool
  pub created_at : ℤ
  pub settled_at : ℤ

pub data EntryKind : Type 0 where
  bet_entry win_entry : EntryKind
  contribution_entry : String → ℤ → EntryKind

pub record Entry : Type 0 where
  pub kind : EntryKind
  pub currency : ℕ
  pub amount : ℤ
  pub balance : ℤ
  pub round_id : ℕ

pub data SpinRefusal : Type 0 where
  game_not_found round_open other_machine bet_invalid not_enough rg_limit excluded : SpinRefusal
  seed_broken replay_failed no_seed no_round_id spin_failed : SpinRefusal

-- `ValidBet`
unfoldable pub valid_bet : List ℤ → ℤ → Bool
valid_bet [] bet = false
valid_bet (b ∷ bs) bet = if eqb_ℤ b bet then true else valid_bet bs bet

-- Whether the player's round has free spins left.
abbrev pub is_free : Option Round → Bool
is_free none = false
is_free (some r) = ltb 0 r.free_spins_left

-- The checks on a round that is open.
unfoldable pub check_round : Option Round → String → Result SpinRefusal (Unit {0})
check_round none game = ok tt
check_round (some r) game =
    if not (ltb 0 r.free_spins_left)
    then err round_open
    else if str_eq r.game_id game
    then ok tt
    else err other_machine

abbrev pub refused_as : Reason → SpinRefusal
refused_as self_excluded = excluded
refused_as _ = rg_limit

-- The checks on a paid spin: the bet, the balance, and the limits after the rollover.
unfoldable pub check_paid :
    SlotMachine → ℤ → Wallet → PlayerRg → ℤ → RgLimits → Result SpinRefusal (Unit {0})
check_paid m bet w rg now cfg = do
  require (valid_bet m.bet_levels bet) bet_invalid
  reject (ltb_ℤ (w m.currency) bet) not_enough
  let d = check_bet (some (rollover rg now cfg).0) bet now cfg
  require d.allowed (refused_as d.code)

-- What the player's limits are in memory once the checks of a paid spin have run: `Rollover` is done
-- in place, whether the spin is then let through or not.
unfoldable pub rg_after_checks : SlotMachine → ℤ → Wallet → PlayerRg → ℤ → RgLimits → PlayerRg
rg_after_checks m bet w rg now cfg =
    if valid_bet m.bet_levels bet && not (ltb_ℤ (w m.currency) bet)
    then (rollover rg now cfg).0
    else rg

-- The round after a spin: `next` of `handleSpin`, before it is settled.
unfoldable pub advance : SlotMachine → Bool → SpinResult → Round → Round
advance m free r round =
    let left =
      if free && ltb 0 round.free_spins_left
      then round.free_spins_left - 1
      else round.free_spins_left in
    let spun = record round {
      spin_index = u32 (round.spin_index + 1);
      total_win = add64 round.total_win r.total_win;
      free_spins_left = left;
    } in
    if ltb 0 r.free_spins_awarded
    then record spun {
      free_spins_left = u32 (left + r.free_spins_awarded);
      free_spins_total = u32 (round.free_spins_total + r.free_spins_awarded);
      multiplier = if m.free_spin_multiplier == 0 then 1 else m.free_spin_multiplier;
    }
    else spun

abbrev pub paid_wallet : Bool → Wallet → ℕ → ℤ → Wallet
paid_wallet free w c bet = if free then w else set_balance w c (sub64 (w c) bet)

abbrev pub won_wallet : Wallet → ℕ → ℤ → Wallet
won_wallet w c win = if ltb_ℤ (pos 0) win then set_balance w c (add64 (w c) win) else w

-- The entries of the ledger: the bet, the win, the contribution to the pool.
unfoldable pub entries_of : SlotMachine → Bool → ℕ → ℕ → ℤ → ℤ → Wallet → List Entry
unfolding set_balance
entries_of m free round_id c bet win w =
    let w1 = paid_wallet free w c bet in
    let w2 = won_wallet w1 c win in
    let contrib = contribution_of bet m.jackpot_contrib_bp in
    (if free
      then []
      else record {
        kind = bet_entry;
        currency = c;
        amount = sub64 (pos 0) bet;
        balance = w1 c;
        round_id = round_id;
      }
        ∷ [])
    ++ ((if ltb_ℤ (pos 0) win
          then record {
            kind = win_entry;
            currency = c;
            amount = win;
            balance = w2 c;
            round_id = round_id;
          }
            ∷ []
          else [])
        ++ (if not free && not (str_eq m.jackpot_pool "") && ltb_ℤ (pos 0) contrib
            then record {
              kind = contribution_entry m.jackpot_pool contrib;
              currency = c;
              amount = pos 0;
              balance = w2 c;
              round_id = round_id;
            }
              ∷ []
            else []))

pub record SpinCommit : Type 0 where
  pub wallet : Wallet
  pub rg : PlayerRg
  pub round : Round
  pub finished : Bool
  pub entries : List Entry
  pub result : SpinResult

abbrev pub bet_in : Bool → ℤ → PlayerRg → PlayerRg
bet_in free bet rg = if free then rg else record rg { daily_bet = add64 rg.daily_bet bet }

-- A round without free spins left is settled.
abbrev pub close_round : Bool → ℤ → Round → Round
close_round true now round = record round { settled = true; settled_at = now }
close_round false now round = round

-- What is committed after a spin with the result `r`: balance, limits, round and ledger.
abbrev pub committed :
    SlotMachine → Bool → ℤ → Wallet → PlayerRg → Round → ℤ → SpinResult → SpinCommit
committed m free now w rg round bet r =
    let c = round.currency in
    let next = advance m free r round in
    let finished = next.free_spins_left == 0 in
    let rg1 = bet_in free bet rg in
    record {
      wallet = won_wallet (paid_wallet free w c bet) c r.total_win;
      rg = record rg1 { daily_win = add64 rg1.daily_win r.total_win };
      round = close_round finished now next;
      finished = finished;
      entries = entries_of m free next.round_id c bet r.total_win w;
      result = r;
    }

unfoldable pub commit_of :
    SlotMachine
    → Bool
    → ℤ
    → Wallet
    → PlayerRg
    → Round
    → ℤ
    → SpinResult
    → Result SpinRefusal SpinCommit
unfolding set_balance
commit_of m free now w rg round bet r = do
  reject (not free && ltb_ℤ (paid_wallet free w round.currency bet round.currency) (pos 0))
      not_enough
  ok (committed m free now w rg round bet r)

abbrev pub or_fail : {A : Type 0} → SpinRefusal → Result SpinError A → Result SpinRefusal A
or_fail e (ok a) = ok a
or_fail e (err f) = err e

abbrev pub new_round : SlotMachine → String → String → ℤ → ℤ → ℕ → List ℕ → Round
new_round m game version now bet id seed = record {
  round_id = id;
  game_id = game;
  config_version = version;
  seed_hex = hex seed;
  currency = m.currency;
  bet = bet;
  multiplier = 1;
  spin_index = 0;
  free_spins_left = 0;
  free_spins_total = 0;
  total_win = pos 0;
  settled = false;
  created_at = now;
  settled_at = pos 0;
}

abbrev pub or_missing : {A : Type 0} → SpinRefusal → Option A → Result SpinRefusal A
or_missing e none = err e
or_missing e (some a) = ok a

module _ (G : Stream) where
  -- `fastForward`: `n` rounds of its loop, with the free spins left, the multiplier and the source.
  unfoldable pub fast_forward :
      ℕ → SlotMachine → ℤ → ℕ → ℕ → Source G → Result SpinError (ℕ × ℕ × Source G)
  fast_forward zero m bet left mult src = ok (left, mult, src)
  fast_forward (suc n) m bet left mult src = do
    let free = ltb 0 left
    (r, src') ← spin G (some m) src bet (if free then mult else 1) free
    let left' = if free then left - 1 else left
    let won = ltb 0 r.free_spins_awarded
    fast_forward n m bet (if won then u32 (left' + r.free_spins_awarded) else left')
        (if won && ltb 0 m.free_spin_multiplier then m.free_spin_multiplier else mult) src'

  -- The source of a free spin: the round's seed, run forward to where the round is.
  unfoldable pub resume : SlotMachine → Round → Result SpinRefusal (Source G)
  resume m round = elim (parse_seed round.seed_hex) [
    | err e ↦ err seed_broken
    | ok seed ↦
        or_fail replay_failed (fast_forward round.spin_index m round.bet 0 1 (rng.new G seed))
        >>= λ s. ok s.2
  ]

  -- The spin of an open round, by its own bet and multiplier, and what it commits.
  unfoldable pub free_spin :
      SlotMachine → ℤ → Wallet → PlayerRg → Round → Result SpinRefusal SpinCommit
  free_spin m now w rg round = do
    src ← resume m round
    (r, src') ←
        or_fail spin_failed (
          spin G (some m) src round.bet (if round.multiplier == 0 then 1 else round.multiplier)
            true)
    commit_of m true now w rg round round.bet r

  -- A paid spin that was let through, with its seed and its round.
  unfoldable pub paid_spin :
      SlotMachine → ℤ → Wallet → PlayerRg → List ℕ → Round → Result SpinRefusal SpinCommit
  paid_spin m now w rg seed round = do
    (r, src') ← or_fail spin_failed (spin G (some m) (rng.new G seed) round.bet 1 false)
    commit_of m false now w rg round round.bet r

  -- `handleSpin` up to the commit, for the machine that the game has.
  unfoldable pub prepare_spin :
      Option SlotMachine
      → String
      → RgLimits
      → String
      → ℤ
      → ℤ
      → Option (List ℕ)
      → Option ℕ
      → Wallet
      → PlayerRg
      → Option Round
      → Result SpinRefusal SpinCommit
  prepare_spin machine game cfg version now bet seed id w rg round = do
    m ← or_missing game_not_found machine
    check_round round game
    elim round [
      | some open_round ↦ free_spin m now w rg open_round
      | none ↦ (do
        check_paid m bet w rg now cfg
        s ← or_missing no_seed seed
        n ← or_missing no_round_id id
        paid_spin m now w (rg_after_checks m bet w rg now cfg) s
            (new_round m game version now bet n s))
    ]
