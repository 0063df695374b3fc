-- ===== src/Transfers/Pending.antt =====
-- pkg/xtx/xtx.go: the index of pending transfers.
use f.Prelude.{
  ◌≡◌, refl, ◌∙◌, arith, ℤ, pos, ltb_ℤ, eqb_ℤ, ◌≤ℤ◌, if◌then◌else◌, true, false, Bool-cases, inl,
  inr, ◌<◌, none, some, List, [], ◌∷◌, All, ok,
}
use f.Fencing.{Redis, IsRedis, is_stale, number_at, set_all}
use f.Fencing.Laws.{Misses, Distinct, get-set_all, set_all-read}
use f.Transfers.{Index, IsIndex, Transfer, prepared, begin, complete, completed}

module _ (R : Redis) (L : IsRedis R) (I : Index R) (X : IsIndex R I) (encode : Transfer → R.Value)
    (epoch_key tx_key pending_key : R.Key) where
  has-set_all :
      (j : R.Key) (v : R.Value) (kvs : List (R.Key × R.Value)) (s : R.State)
      → I.has j v (set_all R kvs s) ≡ I.has j v s
  unfolding set_all
  has-set_all j v [] s = refl
  has-set_all j v (kv ∷ kvs) s = has-set_all j v kvs (R.set kv.0 kv.1 s) ∙ X.has-set j kv.0 v kv.1 s

  -- A transfer that is begun under a new number: the record, the index and the player's data.
  abbrev pub IsBegun : R.Value → List (R.Key × R.Value) → R.State → Type 0
  IsBegun blob kvs s =
      (R.get tx_key s ≡ some blob)
      × (I.has pending_key blob s ≡ true)
      × All (λ (kv : R.Key × R.Value). R.get kv.0 s ≡ some kv.1) kvs

  begin-IsBegun :
      (ttl now epoch : ℤ) (rec : Transfer) (kvs : List (R.Key × R.Value)) (s : R.State)
      → 0 < rec.tx_id
      → R.get tx_key s ≡ none
      → number_at R epoch_key s ≤ℤ epoch
      → Misses tx_key kvs
      → Distinct kvs
      → (let (s', r) = begin R I encode epoch_key tx_key pending_key ttl now epoch rec kvs s in
          (r ≡ ok tt) × IsBegun (encode (prepared now rec)) kvs s')
  unfolding begin is_stale
  begin-IsBegun ttl now epoch rec kvs s z e g m d =
      let blob = encode (prepared now rec) in
      let written = if ltb_ℤ (pos 0) ttl then R.set_ex tx_key blob ttl s else R.set tx_key blob s in
      let s1 = I.zadd pending_key (prepared now rec).created_at blob written in
      let stored : R.get tx_key written ≡ some blob = elim (Bool-cases (ltb_ℤ (pos 0) ttl)) [
        | inl h ↦ rw h (L.get-set_ex tx_key blob ttl s (ground (arith, h)))
        | inr h ↦ rw h (L.get-set tx_key blob s)
      ] in
      let fresh : ltb_ℤ epoch (number_at R epoch_key s) ≡ false = ground arith in
      let numbered : eqb_ℤ (pos rec.tx_id) (pos 0) ≡ false = ground arith in
      rw numbered (
        rw e (
          rw fresh (
            refl,
            (
              get-set_all R L tx_key kvs s1 m
                  ∙ X.get-zadd tx_key pending_key (prepared now rec).created_at blob written
                  ∙ stored,
              has-set_all pending_key blob kvs s1
                  ∙ X.has-zadd pending_key (prepared now rec).created_at blob written,
              set_all-read R L kvs s1 d,
            ),
          )))

  -- Completing takes the stored record out of the index, whatever record the receiver has.
  complete-stored :
      (now : ℤ) (rec : Transfer) (blob : R.Value) (s : R.State)
      → R.get tx_key s ≡ some blob
      → I.has pending_key blob (complete R I encode tx_key pending_key now rec s) ≡ false
  unfolding complete
  complete-stored now rec blob s e =
      let s1 = I.zrem pending_key blob s in
      let s2 = I.zrem pending_key (encode rec) s1 in
      let done = encode (record rec { state = completed; done_at = now }) in
      rw (e, complete)
        (X.has-set_keep pending_key tx_key blob done s2
          ∙ X.has-zrem_other pending_key pending_key blob (encode rec) s1
              (X.has-zrem pending_key blob s))

  -- A transfer with a number that is begun by a current owner, under a record key that is not in
  -- use, is stored, indexed as pending and written with the sender's data; completing it, with
  -- whatever record the receiver has, takes that member out of the index.
  pub complete-begin :
      (ttl now later epoch : ℤ) (rec received : Transfer) (kvs : List (R.Key × R.Value))
      (s : R.State)
      → 0 < rec.tx_id
      → R.get tx_key s ≡ none
      → number_at R epoch_key s ≤ℤ epoch
      → Misses tx_key kvs
      → Distinct kvs
      → (let (s', r) = begin R I encode epoch_key tx_key pending_key ttl now epoch rec kvs s in
          let blob = encode (prepared now rec) in
          (r ≡ ok tt)
          × IsBegun blob kvs s'
          × (I.has pending_key blob (complete R I encode tx_key pending_key later received s')
              ≡ false))
  complete-begin ttl now later epoch rec received kvs s z e g m d =
      let s' = (begin R I encode epoch_key tx_key pending_key ttl now epoch rec kvs s).0 in
      let (a, b) = begin-IsBegun ttl now epoch rec kvs s z e g m d in
      (a, b, complete-stored later received (encode (prepared now rec)) s' b.0)
