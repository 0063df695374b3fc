-- ===== src/Fencing/Epochs.antt =====
-- The epoch of a shard under the operations of pkg/store/fencing.go.
use f.Prelude.{
  ℕ, ◌<◌, ◌≡◌, ◌≢◌, refl, ap, subst, ◌∙◌, arith, ℤ, pos, ◌<ℤ◌, ◌≤ℤ◌, ltb_ℤ, ltb, length, true,
  false, List, [], ◌∷◌, Option, none, some, All, Bool-cases, Option-cases, inl, inr, ◌⊎◌,
}
use f.Fencing.{
  Redis, IsRedis, CommitReq, used_idem, with_idem, number_or_0, number_at, set_all, delete_all,
  add_entries, raise_epoch, is_stale, write_modules, write_hash, delete_keys, write_first,
  write_through, commit_first, script_commit, commit,
}
use f.Fencing.Laws.{Misses, Free, get-set_all, get-delete_all, get-add_entries}

module _ (R : Redis) where
  -- One call on the shard, by any node.
  pub data Call : Type 0 where
    raise : ℤ → Call
    modules : ℤ → List (R.Key × R.Value) → Call
    hash : ℤ → R.Key → ℤ → List R.Value → Call
    remove : ℤ → List R.Key → Call
    through : ℤ → R.Key → ℤ → R.Value → List (R.Key × R.Value) → Call
    committing : CommitReq R → Call

  -- The state that a call leaves, on the shard whose epoch key is `ek`.
  abbrev pub run : R.Key → Call → R.State → R.State
  run ek (raise e) s = (raise_epoch R ek e s).0
  run ek (modules e kvs) s = (write_modules R ek e kvs s).0
  run ek (hash e k ttl vs) s = (write_hash R ek e k ttl vs s).0
  run ek (remove e ks) s = (delete_keys R ek e ks s).0
  run ek (through e order ttl payload kvs) s = (write_through R ek e order ttl payload kvs s).0
  run ek (committing req) s = (commit R ek req s).0

  abbrev pub run_all : R.Key → List Call → R.State → R.State
  run_all ek [] s = s
  run_all ek (c ∷ cs) s = run_all ek cs (run ek c s)

  -- The epoch with which the caller writes; `RaiseEpoch` claims its own.
  abbrev pub epoch_of : Call → ℤ
  epoch_of (raise e) = e
  epoch_of (modules e kvs) = e
  epoch_of (hash e k ttl vs) = e
  epoch_of (remove e ks) = e
  epoch_of (through e order ttl payload kvs) = e
  epoch_of (committing req) = req.epoch

  abbrev pub MissesKey : R.Key → Option R.Key → Type 0
  MissesKey ek none = Unit
  MissesKey ek (some k) = ek ≢ k

  -- The data keys are not the epoch key, and an epoch to raise to fits a double.
  abbrev pub Proper : R.Key → Call → Type 0
  Proper ek (raise e) = (n : ℕ) × (e ≡ pos n) × (n < 9007199254740992)
  Proper ek (modules e kvs) = Misses ek kvs
  Proper ek (hash e k ttl vs) = ek ≢ k
  Proper ek (remove e ks) = Free ek ks
  Proper ek (through e order ttl payload kvs) = (ek ≢ order) × Misses ek kvs
  Proper ek (committing req) =
      MissesKey ek req.idem_key × MissesKey ek req.ledger_key × Misses ek req.kv

module _ (R : Redis) (L : IsRedis R) (ek : R.Key) where
  -- The guard of the scripts: a caller whose epoch is behind changes nothing.
  stale-guard : (e : ℤ) (s : R.State) → e <ℤ number_at R ek s → is_stale R ek e s ≡ true
  unfolding is_stale
  stale-guard e s h = ground arith

  through-stale :
      (e : ℤ) (order : R.Key) (ttl : ℤ) (payload : R.Value) (kvs : List (R.Key × R.Value))
      (s : R.State)
      → e <ℤ number_at R ek s
      → (write_through R ek e order ttl payload kvs s).0 ≡ s
  unfolding write_through write_first
  through-stale e order ttl payload kvs s h = elim (Option-cases (R.get order s)) [
    | inl absent ↦ ground (arith, absent, stale-guard e s h)
    | inr (v, present) ↦ ground (arith, present)
  ]

  script-stale :
      (idem : Option R.Key) (ledger : R.Key) (req : CommitReq R) (s : R.State)
      → req.epoch <ℤ number_at R ek s
      → (script_commit R ek idem ledger req s).0 ≡ s
  unfolding script_commit commit_first
  script-stale none ledger req s h = ground (arith, stale-guard req.epoch s h)
  script-stale (some k) ledger req s h = elim (Option-cases (R.get k s)) [
    | inl absent ↦ ground (arith, absent, stale-guard req.epoch s h)
    | inr (v, present) ↦ ground (arith, present)
  ]

  commit-stale :
      (req : CommitReq R) (s : R.State) → req.epoch <ℤ number_at R ek s → (commit R ek req s).0 ≡ s
  unfolding commit
  commit-stale req s h = elim (Option-cases req.ledger_key) [
    | inl absent ↦ elim (Bool-cases (ltb 0 (length req.entries))) [
      | inl some_entry ↦ ground (arith, absent, some_entry)
      | inr no_entry ↦ ground (arith, absent, no_entry, script-stale (used_idem R req) ek req s h)
    ]
    | inr (k, present) ↦ ground (arith, present, script-stale (used_idem R req) k req s h)
  ]

  run-stale : (c : Call R) (s : R.State) → epoch_of R c <ℤ number_at R ek s → run R ek c s ≡ s
  unfolding raise_epoch write_modules write_hash delete_keys
  run-stale (raise e) s h = ground arith
  run-stale (modules e []) s h = refl
  run-stale (modules e (kv ∷ kvs)) s h = ground (arith, stale-guard e s h)
  run-stale (hash e k ttl []) s h = refl
  run-stale (hash e k ttl (v ∷ vs)) s h = ground (arith, stale-guard e s h)
  run-stale (remove e []) s h = refl
  run-stale (remove e (k ∷ ks)) s h = ground (arith, stale-guard e s h)
  run-stale (through e order ttl payload kvs) s h = through-stale e order ttl payload kvs s h
  run-stale (committing req) s h = commit-stale req s h

  -- A state that reads the same at the epoch key has the same epoch.
  number-kept : (s s' : R.State) → R.get ek s' ≡ R.get ek s → number_at R ek s' ≡ number_at R ek s
  unfolding number_at
  number-kept s s' h = ap (number_or_0 R) h

  number-set :
      (n : ℕ) (s : R.State)
      → n < 9007199254740992
      → number_at R ek (R.set ek (R.of_number (pos n)) s) ≡ pos n
  unfolding number_at
  number-set n s fits = ap (number_or_0 R) (L.get-set ek (R.of_number (pos n)) s) ∙ L.number n fits

  raise-rises :
      (n : ℕ) (s : R.State)
      → n < 9007199254740992
      → (number_at R ek s ≤ℤ number_at R ek (raise_epoch R ek (pos n) s).0)
        × (pos n ≤ℤ number_at R ek (raise_epoch R ek (pos n) s).0)
  unfolding raise_epoch
  raise-rises n s fits = ground (arith, number-set n s fits)

  through-kept :
      (e : ℤ) (order : R.Key) (ttl : ℤ) (payload : R.Value) (kvs : List (R.Key × R.Value))
      (s : R.State)
      → ek ≢ order
      → Misses ek kvs
      → R.get ek (write_through R ek e order ttl payload kvs s).0 ≡ R.get ek s
  unfolding write_through write_first
  through-kept e order ttl payload kvs s m ms = ground (
    arith,
    get-set_all R L ek kvs (R.set_ex order payload ttl s) ms,
    get-set_all R L ek kvs (R.set order payload s) ms,
    L.get-set_ex_other ek order payload ttl s m,
    L.get-set_other ek order payload s m,
  )

  entries-kept :
      (ledger : R.Key) (n : ℤ) (vs : List R.Value) (s : R.State)
      → ((vs ≡ []) ⊎ (ek ≢ ledger))
      → R.get ek (add_entries R ledger n vs s) ≡ R.get ek s
  unfolding add_entries
  entries-kept ledger n vs s (inl none_left) = rw none_left refl
  entries-kept ledger n vs s (inr other) = get-add_entries R L ek ledger n vs s other

  idem-kept :
      (idem : Option R.Key) (req : CommitReq R) (s : R.State)
      → MissesKey R ek idem
      → R.get ek (with_idem R idem req s) ≡ R.get ek s
  idem-kept none req s m = refl
  idem-kept (some k) req s m = L.get-set_ex_other ek k req.idem_payload req.idem_ttl s m

  first-kept :
      (idem : Option R.Key) (ledger : R.Key) (req : CommitReq R) (s : R.State)
      → MissesKey R ek idem
      → ((req.entries ≡ []) ⊎ (ek ≢ ledger))
      → Misses ek req.kv
      → R.get ek (commit_first R ek idem ledger req s).0 ≡ R.get ek s
  unfolding commit_first
  first-kept idem ledger req s mi ml mk =
      let s1 = with_idem R idem req s in
      let s2 = add_entries R ledger req.ledger_max_len req.entries s1 in
      ground (
        arith,
        get-set_all R L ek req.kv s2 mk,
        entries-kept ledger req.ledger_max_len req.entries s1 ml,
        idem-kept idem req s mi,
      )

  script-kept :
      (idem : Option R.Key) (ledger : R.Key) (req : CommitReq R) (s : R.State)
      → MissesKey R ek idem
      → ((req.entries ≡ []) ⊎ (ek ≢ ledger))
      → Misses ek req.kv
      → R.get ek (script_commit R ek idem ledger req s).0 ≡ R.get ek s
  unfolding script_commit
  script-kept none ledger req s mi ml mk = first-kept none ledger req s mi ml mk
  script-kept (some k) ledger req s mi ml mk =
      ground (arith, first-kept (some k) ledger req s mi ml mk)

  used-misses : (req : CommitReq R) → MissesKey R ek req.idem_key → MissesKey R ek (used_idem R req)
  used-misses req m = elim (Bool-cases (ltb_ℤ (pos 0) req.idem_ttl)) [
    | inl used ↦ rw used m
    | inr unused ↦ rw unused tt
  ]

  empty : {A : Type 0} (xs : List A) → ltb 0 (length xs) ≡ false → xs ≡ []
  empty [] h = refl
  empty (x ∷ xs) h = absurd (ground (arith, h))

  commit-kept :
      (req : CommitReq R) (s : R.State)
      → Proper R ek (committing req)
      → R.get ek (commit R ek req s).0 ≡ R.get ek s
  unfolding commit
  commit-kept req s m = elim (Option-cases req.ledger_key) [
    | inl absent ↦ elim (Bool-cases (ltb 0 (length req.entries))) [
      | inl some_entry ↦ ground (arith, absent, some_entry)
      | inr no_entry ↦ ground (
        arith,
        absent,
        no_entry,
        script-kept (used_idem R req) ek req s (used-misses req m.0)
            (inl (empty req.entries no_entry)) m.2,
      )
    ]
    | inr (k, present) ↦ ground (
      arith,
      present,
      script-kept (used_idem R req) k req s (used-misses req m.0)
          (inr (subst (MissesKey R ek) present m.1)) m.2,
    )
  ]

  -- No call lowers the epoch, and one that claims an epoch leaves at least that.
  run-rises :
      (c : Call R) (s : R.State) → Proper R ek c → number_at R ek s ≤ℤ number_at R ek (run R ek c s)
  unfolding write_modules write_hash delete_keys
  run-rises (raise e) s (n, is, fits) = rw is (raise-rises n s fits).0
  run-rises (modules e []) s p = omega arith
  run-rises (modules e (kv ∷ kvs)) s p =
      ground (arith, number-kept s (set_all R (kv ∷ kvs) s) (get-set_all R L ek (kv ∷ kvs) s p))
  run-rises (hash e k ttl []) s p = omega arith
  run-rises (hash e k ttl (v ∷ vs)) s p =
      let s' = R.hset k (v ∷ vs) s in
      ground (
        arith,
        number-kept s s' (L.get-hset_other ek k (v ∷ vs) s p),
        number-kept s' (R.expire k ttl s') (L.get-expire_other ek k ttl s' p),
      )
  run-rises (remove e []) s p = omega arith
  run-rises (remove e (k ∷ ks)) s p =
      ground (arith, number-kept s (delete_all R (k ∷ ks) s) (get-delete_all R L ek (k ∷ ks) s p))
  run-rises (through e order ttl payload kvs) s p =
      rw
        (number-kept s (run R ek (through e order ttl payload kvs) s)
          (through-kept e order ttl payload kvs s p.0 p.1))
        (omega arith)
  run-rises (committing req) s p =
      rw (number-kept s (run R ek (committing req) s) (commit-kept req s p)) (omega arith)

  all-rises :
      (cs : List (Call R)) (s : R.State)
      → All (Proper R ek) cs
      → number_at R ek s ≤ℤ number_at R ek (run_all R ek cs s)
  all-rises [] s p = omega arith
  all-rises (c ∷ cs) s p = omega (arith, run-rises c s p.0, all-rises cs (run R ek c s) p.1)

  -- Once an owner has raised the epoch of a shard to n, below 2^53, and whatever calls follow, by
  -- whichever nodes, on data keys other than the epoch key, the epoch is at least n, and any call
  -- with an older epoch leaves the whole store as it is.
  pub old_owner-IsFenced :
      (n : ℕ) (s : R.State) (cs : List (Call R)) (late : Call R)
      → n < 9007199254740992
      → All (Proper R ek) cs
      → epoch_of R late <ℤ pos n
      → let s' = run_all R ek cs (raise_epoch R ek (pos n) s).0 in
        (pos n ≤ℤ number_at R ek s') × (run R ek late s' ≡ s')
  old_owner-IsFenced n s cs late fits p behind =
      let s0 = (raise_epoch R ek (pos n) s).0 in
      let high : pos n ≤ℤ number_at R ek (run_all R ek cs s0) =
        omega (arith, (raise-rises n s fits).1, all-rises cs s0 p) in
      (high, run-stale late (run_all R ek cs s0) (omega (arith, high, behind)))
