-- ===== src/Fencing/Examples.antt =====
-- A small store that fills the interface of Redis, and the theorems on pkg/store/fencing.go at runs on it.
use f.Prelude.{
  inl, inr, ℕ, ◌≡◌, ◌≢◌, refl, arith, ℤ, pos, ◌≤ℤ◌, ◌<ℤ◌, ◌==◌, if◌then◌else◌, true, false, Option,
  none, some, List, [], ◌∷◌, ◌++◌, ◌⊎◌, ok, err,
}
use f.Fencing.{
  Redis, IsRedis, CommitReq, fenced, raise_epoch, commit, number_at, is_stale, set_all, add_entries,
  script_commit, commit_first,
}
use f.Fencing.Epochs.{modules, committing, run, run_all, old_owner-IsFenced}
use f.Fencing.Commits.{IsRequest, IsWritten, commit_lem, commit-commit}

-- Keys and values are numbers; the state is the strings and the streams.
abbrev Store : Type 0
Store = (ℕ → Option ℤ) × (ℕ → List ℤ)

abbrev set_key : ℕ → ℤ → Store → Store
set_key k v s = ((λ j. if j == k then some v else s.0 j), s.1)

abbrev delete_key : ℕ → Store → Store
delete_key k s = ((λ j. if j == k then none else s.0 j), s.1)

abbrev add_to : ℕ → ℤ → Store → Store
add_to k v s = (s.0, λ j. if j == k then s.1 j ++ (v ∷ []) else s.1 j)

abbrev memory : Redis
memory = record {
  State = Store;
  Key = ℕ;
  Value = ℤ;
  get = λ k s. s.0 k;
  set = set_key;
  set_ex = λ k v ttl s. set_key k v s;
  delete = delete_key;
  xadd = λ k n v s. add_to k v s;
  hset = λ k vs s. s;
  expire = λ k ttl s. s;
  stream = λ k s. s.1 k;
  to_number = λ v. v;
  of_number = λ n. n;
}

get-set_key : (k : ℕ) (v : ℤ) (s : Store) → (set_key k v s).0 k ≡ some v
get-set_key k v s = ground arith

get-set_key_other : (j k : ℕ) (v : ℤ) (s : Store) → j ≢ k → (set_key k v s).0 j ≡ s.0 j
get-set_key_other j k v s h = ground arith

get-delete_key_other : (j k : ℕ) (s : Store) → j ≢ k → (delete_key k s).0 j ≡ s.0 j
get-delete_key_other j k s h = ground arith

stream-add_to : (k : ℕ) (v : ℤ) (s : Store) → (add_to k v s).1 k ≡ s.1 k ++ (v ∷ [])
stream-add_to k v s = ground arith

memory-IsRedis : IsRedis memory
memory-IsRedis = record {
  get-set = get-set_key;
  get-set_other = get-set_key_other;
  get-set_ex = λ k v ttl s h. get-set_key k v s;
  get-set_ex_other = λ j k v ttl s h. get-set_key_other j k v s h;
  get-delete_other = get-delete_key_other;
  get-xadd_other = λ j k n v s h. refl;
  get-hset_other = λ j k vs s h. refl;
  get-expire_other = λ j k ttl s h. refl;
  stream-set = λ j k v s h. refl;
  stream-set_ex = λ j k v ttl s h. refl;
  stream-xadd = λ k m v s. (0, stream-add_to k v s, inl refl);
  number = λ n h. refl;
}

-- Key 0 is the epoch, 1 an order, 2 the ledger, 3 the wallet.
abbrev empty_store : Store
empty_store = ((λ k. none), λ k. [])

abbrev bet : CommitReq memory
bet = record {
  epoch = pos 7;
  idem_key = some 1;
  idem_ttl = pos 60;
  idem_payload = pos 99;
  ledger_key = some 2;
  ledger_max_len = pos 2000;
  entries = pos 11 ∷ pos 12 ∷ [];
  kv = (3, pos 500) ∷ [];
}

bet-IsRequest : IsRequest memory 0 1 2 bet
bet-IsRequest = record {
  keyed = refl;
  lives = omega arith;
  to_ledger = refl;
  max_len = 2000;
  trimmed = refl;
  kept = inr (omega arith);
  k_not_ledger = omega arith;
  ledger_not_k = omega arith;
  k_free = (omega arith, tt);
  ledger_free = (omega arith, tt);
  distinct = (tt, tt);
}

-- The store of an owner with epoch 7.
abbrev owned : Store
owned = set_key 0 (pos 7) empty_store

abbrev bet_done : Store
bet_done = set_key 3 (pos 500) (add_to 2 (pos 12) (add_to 2 (pos 11) (set_key 1 (pos 99) owned)))

commit_bet :
    commit memory 0 bet owned ≡ (bet_done, ok (record { duplicate = false; payload = pos 99 }))
unfolding commit script_commit commit_first is_stale number_at set_all add_entries
commit_bet = refl

commit_lem_example :
    ((v : ℤ) × (owned.0 1 ≡ some v)
      × (commit memory 0 bet owned ≡ (owned, ok (record { duplicate = true; payload = v }))))
    ⊎ (((owned.0 1 ≡ none)
          × (pos 7 <ℤ number_at memory 0 owned)
          × (commit memory 0 bet owned ≡ (owned, err fenced)))
        ⊎ ((owned.0 1 ≡ none)
            × (number_at memory 0 owned ≤ℤ pos 7)
            × ((s' : Store) × (commit memory 0 bet owned
                  ≡ (s', ok (record { duplicate = false; payload = pos 99 })))
                × IsWritten memory 1 2 2000 bet owned s')))
unfolding bet-IsRequest
commit_lem_example = commit_lem memory memory-IsRedis 0 1 2 bet bet-IsRequest owned

commit-commit_example :
    commit memory 0 bet bet_done ≡ (bet_done, ok (record { duplicate = true; payload = pos 99 }))
commit-commit_example =
    commit-commit memory memory-IsRedis 0 1 2 bet bet-IsRequest owned bet_done
      (record { duplicate = false; payload = pos 99 }) bet_done commit_bet refl

-- The owner of epoch 8 has raised and written; the owner of epoch 7 comes late.
old_owner-IsFenced_example :
    let s' =
      run_all memory 0
        (modules (pos 8) ((3, pos 42) ∷ []) ∷ [])
        (raise_epoch memory 0 (pos 8) owned).0 in
    (pos 8 ≤ℤ number_at memory 0 s') × (run memory 0 (committing bet) s' ≡ s')
old_owner-IsFenced_example =
    old_owner-IsFenced memory memory-IsRedis 0 8 owned (modules (pos 8) ((3, pos 42) ∷ []) ∷ [])
      (committing bet) (omega arith) ((omega arith, tt), tt) (omega arith)
