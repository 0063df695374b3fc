-- ===== src/Fencing/Commits.antt =====
-- `Commit` and `WriteThrough` of pkg/store/fencing.go: what a first and a repeated request do.
use f.Prelude.{
  ℕ, length, subst, ◌≤◌, ◌≡◌, ◌≢◌, sym, ap, ◌∙◌, arith, pos, ◌<ℤ◌, ◌≤ℤ◌, true, false, Option, none,
  some, All, Bool-cases, Option-cases, inl, inr, ◌⊎◌, Result, ok, err,
}
use f.Fencing.{
  Redis, IsRedis, CommitReq, CommitResult, FencingError, fenced, with_idem, number_at, set_all,
  add_entries, is_stale, commit_first, script_commit, commit,
}
use f.Fencing.Laws.{
  Appends, Misses, Distinct, get-set_all, get-add_entries, stream-set_all, stream-add_entries,
  set_all-read,
}

module _ (R : Redis) where
  -- A request for money: an idempotence key with a time to live, no more entries than the ledger
  -- keeps (0 stands for all), and different keys everywhere.
  pub record IsRequest (ek k ledger : R.Key) (req : CommitReq R) : Type 0 where
    pub keyed : req.idem_key ≡ some k
    pub lives : pos 0 <ℤ req.idem_ttl
    pub to_ledger : req.ledger_key ≡ some ledger
    pub max_len : ℕ
    pub trimmed : req.ledger_max_len ≡ pos max_len
    pub kept : (max_len ≡ 0) ⊎ (length req.entries ≤ max_len)
    pub k_not_ledger : k ≢ ledger
    pub ledger_not_k : ledger ≢ k
    pub k_free : Misses k req.kv
    pub ledger_free : Misses ledger req.kv
    pub distinct : Distinct req.kv

  -- What the first execution writes.
  abbrev pub IsWritten : R.Key → R.Key → ℕ → CommitReq R → R.State → R.State → Type 0
  IsWritten k ledger max_len req s s' =
      (R.get k s' ≡ some req.idem_payload)
      × Appends max_len (R.stream ledger s) req.entries (R.stream ledger s')
      × All (λ (kv : R.Key × R.Value). R.get kv.0 s' ≡ some kv.1) req.kv

module _ (R : Redis) (L : IsRedis R) (ek k ledger : R.Key) (req : CommitReq R)
    (V : IsRequest R ek k ledger req) where
  commit-script : (s : R.State) → commit R ek req s ≡ script_commit R ek (some k) ledger req s
  unfolding commit
  commit-script s = ground (arith, V.to_ledger, V.keyed, V.lives)

  -- The state after the writes.
  written : R.State → R.State
  written s =
      set_all R req.kv
        (add_entries R ledger req.ledger_max_len req.entries (with_idem R (some k) req s))

  appended :
      (s s1 : R.State)
      → R.stream ledger s1 ≡ R.stream ledger s
      → Appends V.max_len (R.stream ledger s) req.entries (
          R.stream ledger
            (set_all R req.kv (add_entries R ledger req.ledger_max_len req.entries s1)))
  appended s s1 same = rw V.trimmed (
      rw
        (stream-set_all R L ledger req.kv (add_entries R ledger (pos V.max_len) req.entries s1)
          V.ledger_free)
        (subst
          (λ xs.
            Appends V.max_len xs req.entries
              (R.stream ledger (add_entries R ledger (pos V.max_len) req.entries s1)))
          same (stream-add_entries R L ledger V.max_len req.entries s1 V.kept)))

  written-IsWritten : (s : R.State) → IsWritten R k ledger V.max_len req s (written s)
  unfolding written
  written-IsWritten s =
      let s1 = R.set_ex k req.idem_payload req.idem_ttl s in
      let s2 = add_entries R ledger req.ledger_max_len req.entries s1 in
      (
        get-set_all R L k req.kv s2 V.k_free
            ∙ get-add_entries R L k ledger req.ledger_max_len req.entries s1 V.k_not_ledger
            ∙ L.get-set_ex k req.idem_payload req.idem_ttl s V.lives,
        appended s s1 (L.stream-set_ex ledger k req.idem_payload req.idem_ttl s V.ledger_not_k),
        set_all-read R L req.kv s2 V.distinct,
      )

  -- A request with an idempotence key that lives for a time, no more entries than the ledger
  -- keeps and different keys everywhere has three outcomes: a repeated one returns the stored
  -- payload and changes nothing, an outdated one is refused and changes nothing, and a first one
  -- writes the idempotence key, every pair of data and every entry, in order, at the end of the
  -- ledger, from whose front old entries are taken only when its length stays at the limit or
  -- above.
  pub commit_lem :
      (s : R.State)
      → ((v : R.Value) × (R.get k s ≡ some v)
          × (commit R ek req s ≡ (s, ok (record { duplicate = true; payload = v }))))
        ⊎ (((R.get k s ≡ none)
              × (req.epoch <ℤ number_at R ek s)
              × (commit R ek req s ≡ (s, err fenced)))
            ⊎ ((R.get k s ≡ none)
                × (number_at R ek s ≤ℤ req.epoch)
                × ((s' : R.State) × (commit R ek req s
                      ≡ (s', ok (record { duplicate = false; payload = req.idem_payload })))
                    × IsWritten R k ledger V.max_len req s s')))
  unfolding script_commit commit_first is_stale written
  commit_lem s = elim (Option-cases (R.get k s)) [
    | inr (v, present) ↦ inl (v, present, commit-script s ∙ ground (arith, present))
    | inl absent ↦ inr (elim (Bool-cases (is_stale R ek req.epoch s)) [
      | inl stale ↦
          inl (absent, ground (arith, stale), commit-script s ∙ ground (arith, absent, stale))
      | inr fresh ↦ inr (
        absent,
        ground (arith, fresh),
        (written s, commit-script s ∙ ground (arith, absent, fresh), written-IsWritten s),
      )
    ])
  ]

  repeated :
      (s : R.State) (v : R.Value)
      → R.get k s ≡ some v
      → commit R ek req s ≡ (s, ok (record { duplicate = true; payload = v }))
  unfolding script_commit
  repeated s v present = commit-script s ∙ ground (arith, present)

  abbrev Outcome : Type 0
  Outcome = R.State × Result FencingError (CommitResult R)

  abbrev answer : Outcome → Option R.Value
  answer (s, ok r) = some r.payload
  answer (s, err e) = none

  -- After an accepted request its key holds the payload that it was answered with.
  stored :
      (s s' : R.State) (r : CommitResult R)
      → commit R ek req s ≡ (s', ok r)
      → R.get k s' ≡ some r.payload
  stored s s' r done = elim (commit_lem s) [
    | inl (v, present, eq) ↦
        let same : ◌≡◌ {A = Outcome} (s', ok r) (s, ok (record { duplicate = true; payload = v })) =
          sym done ∙ eq in
        ap (λ (o : Outcome). R.get k o.0) same ∙ present ∙ sym (ap answer same)
    | inr (inl (absent, behind, eq)) ↦
        let same : ◌≡◌ {A = Outcome} (s', ok r) (s, err fenced) = sym done ∙ eq in
        absurd (none_some (sym (ap answer same)))
    | inr (inr (absent, fresh, (s1, eq, w))) ↦
        let same : ◌≡◌ {A = Outcome} (s', ok r)
            (s1, ok (record { duplicate = false; payload = req.idem_payload })) =
          sym done ∙ eq in
        ap (λ (o : Outcome). R.get k o.0) same ∙ w.0 ∙ sym (ap answer same)
  ]
    where
      none_some : {A : Type 0} {a : A} → ◌≡◌ {A = Option A} none (some a) → ⊥
      none_some h = cc h

  -- Such a request that was accepted and comes again, in any state in which its idempotence key
  -- still holds the value that it had, is answered with the first payload and changes nothing.
  pub commit-commit :
      (s s' : R.State) (r : CommitResult R) (later : R.State)
      → commit R ek req s ≡ (s', ok r)
      → R.get k later ≡ R.get k s'
      → commit R ek req later ≡ (later, ok (record { duplicate = true; payload = r.payload }))
  commit-commit s s' r later done kept = repeated later r.payload (kept ∙ stored s s' r done)
