-- ===== src/Lobby/Transfer.antt =====
-- internal/lobby/handlers.go: `handleTransfer` up to its write, `handleApplyTransfer` and `claimAsync`. The
-- identifiers of new items, the time and the
-- configuration are arguments. The wait for Redis, during which the player is busy, is in
-- f.Lobby.Shard; here the write has its result at once.
pub mod Items
pub mod Conserved
mod Examples
use f.Prelude.{
  ℕ, zero, suc, ◌+◌, ℤ, pos, ltb_ℤ, leb_ℤ, eqb_ℤ, ◌==◌, if◌then◌else◌, Bool, true, false, ◌||◌,
  Option, none, some, List, [], ◌∷◌, ◌++◌, sub64, Result, ok, err,
}
use f.Lobby.Bag.{Bag, Wallet, Item, add_currency, add_item, remove_item_by_tpl}
use f.Fencing.{Redis}
use f.Transfers.{Index, Transfer, TransferError, claim, complete}

pub record Assets : Type 0 where
  pub wallet : Wallet
  pub bag : Bag

-- A template and a count.
abbrev pub Attachment : Type 0
Attachment = ℕ × ℤ

pub record Job : Type 0 where
  pub tx_id : ℕ
  pub from_uid : ℕ
  pub to_uid : ℕ
  pub items : List Attachment
  pub curr_type : ℕ
  pub curr_delta : ℤ

pub data TransferRefusal : Type 0 where
  bad_target items_short money_short no_id : TransferRefusal

-- The loop over the items that are given away.
unfoldable pub take_items : List Attachment → Bag → Option Bag
take_items [] bag = some bag
take_items ((tpl, c) ∷ gifts) bag =
    let r = remove_item_by_tpl tpl c bag in
    let rest = take_items gifts r.0 in if r.1 then rest else none

-- The currency that is given away.
unfoldable pub take_money : ℕ → ℤ → Wallet → Option Wallet
take_money t delta w =
    let r = add_currency w t (sub64 (pos 0) delta) in
    if ltb_ℤ (pos 0) delta then (if r.2 then some r.0 else none) else some w

abbrev with_money : Option Wallet → Option ℕ → Bag → Job → Result TransferRefusal (Assets × Job)
with_money none id bag job = err money_short
with_money (some w) none bag job = err no_id
with_money (some w) (some id) bag job =
    ok (record { wallet = w; bag = bag }, record job { tx_id = id })

abbrev with_items : Option Bag → Option ℕ → Job → Assets → Result TransferRefusal (Assets × Job)
with_items none id job a = err items_short
with_items (some bag) id job a =
    with_money (take_money job.curr_type job.curr_delta a.wallet) id bag job

-- `handleTransfer` up to `Begin`: what is written for the sender, and the record.
unfoldable pub prepare_transfer : Option ℕ → Job → Assets → Result TransferRefusal (Assets × Job)
prepare_transfer id job a =
    if (job.to_uid == 0) || (job.to_uid == job.from_uid)
    then err bad_target
    else with_items (take_items job.items a.bag) id job a

-- The loop over the items that arrive, `i` counting the identifiers used: no identifier, no room, or the
-- bag.
pub data Landed : Type 0 where
  no_more_ids full : Landed
  landed : Bag → Landed

abbrev land_one : Option Item → Landed → Landed
land_one none rest = full
land_one (some it) rest = rest

unfoldable pub add_items : (ℕ → Option ℕ) → ℕ → ℤ → (ℕ → Bool) → List Attachment → Bag → Landed
add_items ids i now stackable [] bag = landed bag
add_items ids i now stackable ((tpl, c) ∷ gifts) bag = elim (ids i) [
  | none ↦ no_more_ids
  | some id ↦
      (let r = add_item id tpl c now (stackable tpl) bag in
        land_one r.1 (add_items ids (i + 1) now stackable gifts r.0))
]

abbrev pub add_money : ℕ → ℤ → Wallet → Wallet
add_money t delta w = if ltb_ℤ (pos 0) delta then (add_currency w t delta).0 else w

-- `handleApplyTransfer` up to `claimAsync`
pub data Arrival : Type 0 where
  failed mailed : Arrival
  credits : Assets → Arrival

abbrev pub arrival_of : Landed → Job → Assets → Arrival
arrival_of no_more_ids job a = failed
arrival_of full job a = mailed
arrival_of (landed bag) job a =
    credits (record { wallet = add_money job.curr_type job.curr_delta a.wallet; bag = bag })

unfoldable pub apply_transfer : (ℕ → Option ℕ) → ℤ → (ℕ → Bool) → Job → Assets → Arrival
apply_transfer ids now stackable job a =
    arrival_of (add_items ids 0 now stackable job.items a.bag) job a

module _ (R : Redis) (I : Index R) (encode : Transfer → R.Value) where
  -- The receiver in memory, and Redis.
  pub record Receiver : Type 0 where
    pub assets : Assets
    pub store : R.State

  -- The keys of a delivery, its epoch, and the record that the job describes.
  pub record Route : Type 0 where
    pub epoch_key : R.Key
    pub done_key : R.Key
    pub tx_key : R.Key
    pub pending_key : R.Key
    pub epoch : ℤ
    pub ttl : ℤ
    pub rec : Transfer
    pub blobs : Assets → List (R.Key × R.Value)

  -- The end of `claimAsync`; the result tells whether the job is acknowledged.
  abbrev pub claimed :
      Route → ℤ → Assets → R.State × Result TransferError Bool → Receiver → Receiver × Bool
  claimed k now a (s, ok true) r = (
    record r { assets = a; store = complete R I encode k.tx_key k.pending_key now k.rec s },
    true,
  )
  claimed k now a (s, ok false) r =
      (record r { store = complete R I encode k.tx_key k.pending_key now k.rec s }, true)
  claimed k now a (s, err e) r = (record r { store = s }, false)

  -- The rest of `handleApplyTransfer`: whether the job is acknowledged. A job that does not fit is, before
  -- `fallbackToMailbox` mails its items in the background.
  unfoldable pub arrive : Route → ℤ → Job → Arrival → Receiver → Receiver × Bool
  arrive k now job failed r = (r, false)
  arrive k now job mailed r = (r, true)
  arrive k now job (credits a) r =
      claimed k now a (claim R k.epoch_key k.done_key k.ttl k.epoch (k.blobs a) r.store) r

  unfoldable pub deliver :
      Route → (ℕ → Option ℕ) → ℤ → (ℕ → Bool) → Job → Receiver → Receiver × Bool
  deliver k ids now stackable job r =
      arrive k now job (apply_transfer ids now stackable job r.assets) r
