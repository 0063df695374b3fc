-- ===== src/Fencing.antt =====
-- pkg/store/fencing.go: the Redis scripts that guard every write with the epoch of the shard, and the
-- Go calls around them. Redis is a parameter, an interface of the commands that the scripts call.
-- A call that fails on the network, and the alarms of a refusal, are not modelled.
pub mod Laws
pub mod Epochs
pub mod Commits
mod Examples
use f.Prelude.{
  ℕ, zero, suc, ◌<◌, ◌≡◌, ◌≢◌, ◌≤◌, ◌<ℤ◌, ◌⊎◌, drop, ℤ, pos, pos_part, neg_part, ltb_ℤ, leb_ℤ, ltb,
  if◌then◌else◌, Bool, true, false, ◌||◌, ◌&&◌, not, Option, none, some, List, [], ◌∷◌, ◌++◌,
  length, Result, ok, err, ◌==◌,
}

-- A Redis with its strings and streams. `to_number` is Lua's `tonumber` of a string, a double.
pub record Redis : Type 1 where
  pub State : Type 0
  pub Key : Type 0
  pub Value : Type 0
  pub get : Key → State → Option Value
  pub set : Key → Value → State → State
  -- `SET k v EX ttl`
  pub set_ex : Key → Value → ℤ → State → State
  pub delete : Key → State → State
  -- `XADD`, with the `MAXLEN ~` if it is not 0
  pub xadd : Key → ℤ → Value → State → State
  pub hset : Key → List Value → State → State
  pub expire : Key → ℤ → State → State
  pub stream : Key → State → List Value
  pub to_number : Value → ℤ
  pub of_number : ℤ → Value

-- `MAXLEN ~ m` takes some entries from the front and leaves m at least; without a length none.
abbrev pub Trims {ℓ} : {A : Type ℓ} → ℕ → List A → List A → Type ℓ
Trims m xs ys = (n : ℕ) × (ys ≡ drop n xs) × ((n ≡ 0) ⊎ ((0 < m) × (m ≤ length ys)))

-- What the scripts rely on: a command changes its own key, and a double keeps 53 bits.
pub record IsRedis (R : Redis) : Type 0 where
  pub get-set : (k : R.Key) (v : R.Value) (s : R.State) → R.get k (R.set k v s) ≡ some v
  pub get-set_other :
      (j k : R.Key) (v : R.Value) (s : R.State) → j ≢ k → R.get j (R.set k v s) ≡ R.get j s
  pub get-set_ex :
      (k : R.Key) (v : R.Value) (ttl : ℤ) (s : R.State)
      → pos 0 <ℤ ttl
      → R.get k (R.set_ex k v ttl s) ≡ some v
  pub get-set_ex_other :
      (j k : R.Key) (v : R.Value) (ttl : ℤ) (s : R.State)
      → j ≢ k
      → R.get j (R.set_ex k v ttl s) ≡ R.get j s
  pub get-delete_other : (j k : R.Key) (s : R.State) → j ≢ k → R.get j (R.delete k s) ≡ R.get j s
  pub get-xadd_other :
      (j k : R.Key) (n : ℤ) (v : R.Value) (s : R.State)
      → j ≢ k
      → R.get j (R.xadd k n v s) ≡ R.get j s
  pub get-hset_other :
      (j k : R.Key) (vs : List R.Value) (s : R.State) → j ≢ k → R.get j (R.hset k vs s) ≡ R.get j s
  pub get-expire_other :
      (j k : R.Key) (ttl : ℤ) (s : R.State) → j ≢ k → R.get j (R.expire k ttl s) ≡ R.get j s
  pub stream-set :
      (j k : R.Key) (v : R.Value) (s : R.State) → j ≢ k → R.stream j (R.set k v s) ≡ R.stream j s
  pub stream-set_ex :
      (j k : R.Key) (v : R.Value) (ttl : ℤ) (s : R.State)
      → j ≢ k
      → R.stream j (R.set_ex k v ttl s) ≡ R.stream j s
  pub stream-xadd :
      (k : R.Key) (m : ℕ) (v : R.Value) (s : R.State)
      → Trims m (R.stream k s ++ (v ∷ [])) (R.stream k (R.xadd k (pos m) v s))
  pub number : (n : ℕ) → n < 9007199254740992 → R.to_number (R.of_number (pos n)) ≡ pos n

pub data FencingError : Type 0 where
  fenced no_stream_key : FencingError

module _ (R : Redis) where
  -- `tonumber(redis.call('GET', k) or '0')`
  abbrev pub number_or_0 : Option R.Value → ℤ
  number_or_0 none = pos 0
  number_or_0 (some v) = R.to_number v

  unfoldable pub number_at : R.Key → R.State → ℤ
  number_at k s = number_or_0 (R.get k s)

  unfoldable pub set_all : List (R.Key × R.Value) → R.State → R.State
  set_all [] s = s
  set_all ((k, v) ∷ kvs) s = set_all kvs (R.set k v s)

  unfoldable pub delete_all : List R.Key → R.State → R.State
  delete_all [] s = s
  delete_all (k ∷ ks) s = delete_all ks (R.delete k s)

  unfoldable pub add_entries : R.Key → ℤ → List R.Value → R.State → R.State
  add_entries k maxlen [] s = s
  add_entries k maxlen (v ∷ vs) s = add_entries k maxlen vs (R.xadd k maxlen v s)

  -- `CurrentEpoch`
  unfoldable pub current_epoch : R.Key → R.State → ℤ
  current_epoch = number_at

  -- `RaiseEpoch` with `scriptRaiseEpoch`
  unfoldable pub raise_epoch : R.Key → ℤ → R.State → R.State × Result FencingError (Unit {0})
  raise_epoch epoch_key new s =
      if leb_ℤ new (number_at epoch_key s)
      then (s, err fenced)
      else (R.set epoch_key (R.of_number new) s, ok tt)

  -- The check that opens every guarded script.
  unfoldable pub is_stale : R.Key → ℤ → R.State → Bool
  is_stale epoch_key epoch s = ltb_ℤ epoch (number_at epoch_key s)

  -- `WriteModules` with `scriptWriteModules`
  unfoldable pub write_modules :
      R.Key → ℤ → List (R.Key × R.Value) → R.State → R.State × Result FencingError (Unit {0})
  write_modules epoch_key epoch [] s = (s, ok tt)
  write_modules epoch_key epoch (kv ∷ kvs) s =
      if is_stale epoch_key epoch s then (s, err fenced) else (set_all (kv ∷ kvs) s, ok tt)

  -- `WriteHash` with `scriptWriteHash`
  unfoldable pub write_hash :
      R.Key → ℤ → R.Key → ℤ → List R.Value → R.State → R.State × Result FencingError (Unit {0})
  write_hash epoch_key epoch key ttl [] s = (s, ok tt)
  write_hash epoch_key epoch key ttl (v ∷ vs) s =
      if is_stale epoch_key epoch s then (s, err fenced) else (
        let s' = R.hset key (v ∷ vs) s in if ltb_ℤ (pos 0) ttl then R.expire key ttl s' else s',
        ok tt,
      )

  -- `Delete` with `scriptDeleteKeys`
  unfoldable pub delete_keys :
      R.Key → ℤ → List R.Key → R.State → R.State × Result FencingError (Unit {0})
  delete_keys epoch_key epoch [] s = (s, ok tt)
  delete_keys epoch_key epoch (k ∷ ks) s =
      if is_stale epoch_key epoch s then (s, err fenced) else (delete_all (k ∷ ks) s, ok tt)

  -- What a write with an idempotence key returns.
  pub record CommitResult : Type 0 where
    pub duplicate : Bool
    pub payload : R.Value

  -- `WriteThrough` with `scriptWriteThrough`: the first write under an order key.
  unfoldable pub write_first :
      R.Key
      → R.Key
      → ℤ
      → ℤ
      → R.Value
      → List (R.Key × R.Value)
      → R.State
      → R.State × Result FencingError CommitResult
  write_first epoch_key order_key epoch ttl payload kvs s =
      if is_stale epoch_key epoch s then (s, err fenced) else (
        set_all kvs (
            if ltb_ℤ (pos 0) ttl
            then R.set_ex order_key payload ttl s
            else R.set order_key payload s),
        ok (record { duplicate = false; payload = payload }),
      )

  unfoldable pub write_through :
      R.Key
      → ℤ
      → R.Key
      → ℤ
      → R.Value
      → List (R.Key × R.Value)
      → R.State
      → R.State × Result FencingError CommitResult
  write_through epoch_key epoch order_key ttl payload kvs s = elim (R.get order_key s) [
    | some existing ↦ (s, ok (record { duplicate = true; payload = existing }))
    | none ↦ write_first epoch_key order_key epoch ttl payload kvs s
  ]

  -- `CommitReq`: an empty key of Go is `none`.
  pub record CommitReq : Type 0 where
    pub epoch : ℤ
    pub idem_key : Option R.Key
    pub idem_ttl : ℤ
    pub idem_payload : R.Value
    pub ledger_key : Option R.Key
    pub ledger_max_len : ℤ
    pub entries : List R.Value
    pub kv : List (R.Key × R.Value)

  -- The idempotence key is set if it is used.
  abbrev pub with_idem : Option R.Key → CommitReq → R.State → R.State
  with_idem none req s = s
  with_idem (some k) req s = R.set_ex k req.idem_payload req.idem_ttl s

  -- The second half of `scriptCommit`: the check of the epoch, then the writes.
  unfoldable pub commit_first :
      R.Key
      → Option R.Key
      → R.Key
      → CommitReq
      → R.State
      → R.State × Result FencingError CommitResult
  commit_first epoch_key idem ledger req s =
      if is_stale epoch_key req.epoch s then (s, err fenced) else (
        set_all req.kv (add_entries ledger req.ledger_max_len req.entries (with_idem idem req s)),
        ok (record { duplicate = false; payload = req.idem_payload }),
      )

  -- `scriptCommit`: `idem` is the idempotence key if it is used.
  unfoldable pub script_commit :
      R.Key
      → Option R.Key
      → R.Key
      → CommitReq
      → R.State
      → R.State × Result FencingError CommitResult
  script_commit epoch_key none ledger req s = commit_first epoch_key none ledger req s
  script_commit epoch_key (some k) ledger req s = elim (R.get k s) [
    | some existing ↦ (s, ok (record { duplicate = true; payload = existing }))
    | none ↦ commit_first epoch_key (some k) ledger req s
  ]

  -- The key of the request when its time to live is positive.
  abbrev pub used_idem : CommitReq → Option R.Key
  used_idem req = if ltb_ℤ (pos 0) req.idem_ttl then req.idem_key else none

  -- `Commit`: without a ledger key there may be no entry, and the script touches no stream.
  unfoldable pub commit : R.Key → CommitReq → R.State → R.State × Result FencingError CommitResult
  commit epoch_key req s = elim req.ledger_key [
    | some ledger ↦ script_commit epoch_key (used_idem req) ledger req s
    | none ↦
        if ltb 0 (length req.entries)
        then (s, err no_stream_key)
        else script_commit epoch_key (used_idem req) epoch_key req s
  ]
