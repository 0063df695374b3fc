-- ===== src/Transfers.antt =====
-- pkg/xtx/xtx.go: the record of a transfer between shards, its index of pending transfers, and the
-- receiver's mark that it has been credited, with the Redis scripts. Records are JSON: how one is
-- written is a parameter. The sorted set of an index is an interface on top of Redis'.
pub mod Claims
pub mod Pending
mod Examples
use f.Prelude.{
  ℕ, ◌≡◌, ◌≢◌, ℤ, pos, ltb_ℤ, eqb_ℤ, if◌then◌else◌, Bool, true, false, Option, none, some, List, [],
  ◌∷◌, Result, ok, err, add64,
}
use f.Fencing.{Redis, IsRedis, is_stale, set_all}

-- `ZADD`, `ZREM`, `SET ... KEEPTTL`, and whether a sorted set has a member.
pub record Index (R : Redis) : Type 0 where
  pub zadd : R.Key → ℤ → R.Value → R.State → R.State
  pub zrem : R.Key → R.Value → R.State → R.State
  pub set_keep : R.Key → R.Value → R.State → R.State
  pub has : R.Key → R.Value → R.State → Bool

-- What the scripts rely on besides: a deleted key is gone, strings and sorted sets are apart.
pub record IsIndex (R : Redis) (I : Index R) : Type 0 where
  pub get-delete : (k : R.Key) (s : R.State) → R.get k (R.delete k s) ≡ none
  pub get-zadd :
      (j k : R.Key) (n : ℤ) (v : R.Value) (s : R.State) → R.get j (I.zadd k n v s) ≡ R.get j s
  pub get-zrem : (j k : R.Key) (v : R.Value) (s : R.State) → R.get j (I.zrem k v s) ≡ R.get j s
  pub get-set_keep : (k : R.Key) (v : R.Value) (s : R.State) → R.get k (I.set_keep k v s) ≡ some v
  pub has-zadd : (k : R.Key) (n : ℤ) (v : R.Value) (s : R.State) → I.has k v (I.zadd k n v s) ≡ true
  pub has-zrem : (k : R.Key) (v : R.Value) (s : R.State) → I.has k v (I.zrem k v s) ≡ false
  -- Removing a member adds none.
  pub has-zrem_other :
      (j k : R.Key) (v w : R.Value) (s : R.State)
      → I.has j v s ≡ false
      → I.has j v (I.zrem k w s) ≡ false
  pub has-set : (j k : R.Key) (v w : R.Value) (s : R.State) → I.has j v (R.set k w s) ≡ I.has j v s
  pub has-set_keep :
      (j k : R.Key) (v w : R.Value) (s : R.State) → I.has j v (I.set_keep k w s) ≡ I.has j v s

pub data TransferState : Type 0 where
  unset pending completed : TransferState

-- `Record`; what is transferred, and the reason, do not matter to the scripts.
pub record Transfer : Type 0 where
  pub tx_id : ℕ
  pub cargo : ℕ
  pub state : TransferState
  pub created_at : ℤ
  pub done_at : ℤ
  pub retries : ℤ

pub data TransferError : Type 0 where
  no_tx_id duplicate fenced : TransferError

abbrev pub is_set {ℓ} : {A : Type ℓ} → Option A → Bool
is_set none = false
is_set (some a) = true

-- `Begin` fills in the state and the time; an empty transaction number is 0 here.
abbrev or_pending : TransferState → TransferState
or_pending unset = pending
or_pending st = st

unfoldable pub prepared : ℤ → Transfer → Transfer
prepared now rec = record rec {
  state = or_pending rec.state;
  created_at = if eqb_ℤ rec.created_at (pos 0) then now else rec.created_at;
}

module _ (R : Redis) where
  -- `scriptClaim`
  unfoldable pub claim :
      R.Key → R.Key → ℤ → ℤ → List (R.Key × R.Value) → R.State → R.State × Result TransferError Bool
  claim epoch_key done_key ttl epoch kvs s =
      let marked = R.set_ex done_key (R.of_number epoch) ttl s in
      if is_set (R.get done_key s)
      then (s, ok false)
      else if is_stale R epoch_key epoch marked
      then (R.delete done_key marked, err fenced)
      else (set_all R kvs marked, ok true)

module _ (R : Redis) (I : Index R) (encode : Transfer → R.Value) where
  -- `Begin` with `scriptBegin`
  unfoldable pub begin :
      R.Key
      → R.Key
      → R.Key
      → ℤ
      → ℤ
      → ℤ
      → Transfer
      → List (R.Key × R.Value)
      → R.State
      → R.State × Result TransferError (Unit {0})
  begin epoch_key tx_key pending_key ttl now epoch rec kvs s =
      let rec' = prepared now rec in
      let blob = encode rec' in
      let written = if ltb_ℤ (pos 0) ttl then R.set_ex tx_key blob ttl s else R.set tx_key blob s in
      if eqb_ℤ (pos rec.tx_id) (pos 0)
      then (s, err no_tx_id)
      else if is_set (R.get tx_key s)
      then (s, err duplicate)
      else if is_stale R epoch_key epoch s
      then (s, err fenced)
      else (set_all R kvs (I.zadd pending_key rec'.created_at blob written), ok tt)

  -- The member of the index that the record's key names.
  abbrev pub remove_current : R.Key → Option R.Value → R.State → R.State
  remove_current pending_key none s = s
  remove_current pending_key (some cur) s = I.zrem pending_key cur s

  -- `Complete` with `scriptComplete`
  unfoldable pub complete : R.Key → R.Key → ℤ → Transfer → R.State → R.State
  complete tx_key pending_key now rec s =
      let s1 = I.zrem pending_key (encode rec) (remove_current pending_key (R.get tx_key s) s) in
      I.set_keep tx_key (encode (record rec { state = completed; done_at = now })) s1

  -- `Requeue`
  unfoldable pub requeue : R.Key → R.Key → ℤ → Transfer → R.State → R.State
  requeue tx_key pending_key now rec s =
      let blob = encode (record rec { retries = add64 rec.retries (pos 1) }) in
      I.set_keep tx_key blob (I.zadd pending_key now blob (I.zrem pending_key (encode rec) s))
