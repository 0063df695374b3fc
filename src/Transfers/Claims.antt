-- ===== src/Transfers/Claims.antt =====
-- pkg/xtx/xtx.go: the deliveries of one transfer to its receiver.
use f.Prelude.{
  sym, subst, pos, ◌<ℤ◌, ◌≡◌, ◌≢◌, refl, ap, ◌∙◌, ℤ, ltb_ℤ, if◌then◌else◌, Bool, true, false,
  Bool-cases, inl, inr, some, List, [], ◌∷◌, All, Result, ok, err,
}
use f.Fencing.{Redis, IsRedis, is_stale, number_at, set_all, number_or_0}
use f.Fencing.Laws.{Misses, Distinct, get-set_all, set_all-read}
use f.Transfers.{Index, IsIndex, TransferError, fenced, is_set, claim}

-- What a receiver promises of deliveries by owners of the given epochs, while the epoch of the shard is
-- `n`: the first that is not outdated is credited, and no other.
abbrev pub verdicts :
    {A B : Type 0} → Bool → ℤ → List (ℤ × A × B) → List (Result TransferError Bool)
verdicts done n [] = []
verdicts true n (d ∷ ds) = ok false ∷ verdicts true n ds
verdicts false n (d ∷ ds) =
    let later = verdicts false n ds in
    let over = verdicts true n ds in if ltb_ℤ d.0 n then err fenced ∷ later else ok true ∷ over

abbrev pub credited : {A B : Type 0} → ℤ → List (ℤ × List A × B) → List A
credited n [] = []
credited n (d ∷ ds) = let rest = credited n ds in if ltb_ℤ d.0 n then rest else d.1

-- The epoch of the owner, the receiver's data, and what happens in Redis before the next delivery.
abbrev pub Delivery : Redis → Type 0
Delivery R = ℤ × List (R.Key × R.Value) × (R.State → R.State)

module _ (R : Redis) (epoch_key done_key : R.Key) (ttl : ℤ) where
  unfoldable pub claims : List (Delivery R) → R.State → R.State × List (Result TransferError Bool)
  claims [] s = (s, [])
  claims (d ∷ ds) s =
      let (s', r) = claim R epoch_key done_key ttl d.0 d.1 s in
      let (s'', rs) = claims ds (d.2 s') in (s'', r ∷ rs)

  -- The keys of the player's data are others than those of the epoch and of the mark, and nothing
  -- that happens between deliveries changes the epoch, lets the mark expire or writes that data.
  abbrev pub Apart : List (R.Key × R.Value) → Delivery R → Type 0
  Apart target d =
      Misses epoch_key d.1
      × Misses done_key d.1
      × Distinct d.1
      × ((s : R.State) → R.get epoch_key (d.2 s) ≡ R.get epoch_key s)
      × ((s : R.State) → R.get done_key (d.2 s) ≡ R.get done_key s)
      × All (λ (kv : R.Key × R.Value). (s : R.State) → R.get kv.0 (d.2 s) ≡ R.get kv.0 s) target

module _ (R : Redis) (L : IsRedis R) (I : Index R) (X : IsIndex R I) (epoch_key done_key : R.Key)
    (ttl : ℤ) (lives : pos 0 <ℤ ttl) (apart : epoch_key ≢ done_key) where
  later-credited :
      (d : Delivery R) (ds : List (Delivery R)) (n : ℤ)
      → ltb_ℤ d.0 n ≡ true
      → credited n (d ∷ ds) ≡ credited n ds
  later-credited d ds n e = rw e refl

  first-credited :
      (d : Delivery R) (ds : List (Delivery R)) (n : ℤ)
      → ltb_ℤ d.0 n ≡ false
      → credited n (d ∷ ds) ≡ d.1
  first-credited d ds n e = rw e refl

  number-mark :
      (epoch : ℤ) (s : R.State)
      → number_at R epoch_key (R.set_ex done_key (R.of_number epoch) ttl s)
        ≡ number_at R epoch_key s
  unfolding number_at
  number-mark epoch s =
      ap (number_or_0 R) (L.get-set_ex_other epoch_key done_key (R.of_number epoch) ttl s apart)

  -- A repeated delivery does nothing.
  claim-repeated :
      (d : Delivery R) (s : R.State)
      → is_set (R.get done_key s) ≡ true
      → claim R epoch_key done_key ttl d.0 d.1 s ≡ (s, ok false)
  unfolding claim
  claim-repeated d s h = rw h refl

  abbrev Reads : List (R.Key × R.Value) → R.State → Type 0
  Reads kvs s = All (λ (kv : R.Key × R.Value). R.get kv.0 s ≡ some kv.1) kvs

  Reads-kept :
      (kvs : List (R.Key × R.Value)) (wait : R.State → R.State) (s : R.State)
      → All (λ (kv : R.Key × R.Value). (s : R.State) → R.get kv.0 (wait s) ≡ R.get kv.0 s) kvs
      → Reads kvs s
      → Reads kvs (wait s)
  Reads-kept [] wait s h r = tt
  Reads-kept (kv ∷ kvs) wait s h r = (h.0 s ∙ r.0, Reads-kept kvs wait s h.1 r.1)

  claims-repeated :
      (target : List (R.Key × R.Value)) (ds : List (Delivery R)) (s : R.State) (n : ℤ)
      → All (Apart R epoch_key done_key ttl target) ds
      → is_set (R.get done_key s) ≡ true
      → Reads target s
      → (let (s', rs) = claims R epoch_key done_key ttl ds s in
          (rs ≡ verdicts true n ds) × Reads target s')
  unfolding claims
  claims-repeated target [] s n h m r = (refl, r)
  claims-repeated target (d ∷ ds) s n h m r =
      let (same, read) =
        claims-repeated target ds (d.2 s) n h.1 (ap is_set (h.0.4 s) ∙ m)
          (Reads-kept target d.2 s h.0.5 r) in
      rw (claim-repeated d s m) (ap (λ rs. ok false ∷ rs) same, read)

  claim-stale :
      (d : Delivery R) (s : R.State)
      → is_set (R.get done_key s) ≡ false
      → ltb_ℤ d.0 (number_at R epoch_key s) ≡ true
      → claim R epoch_key done_key ttl d.0 d.1 s
        ≡ (R.delete done_key (R.set_ex done_key (R.of_number d.0) ttl s), err fenced)
  unfolding claim is_stale
  claim-stale d s h e = rw h (rw (number-mark d.0 s) (rw e refl))

  claim-first :
      (d : Delivery R) (s : R.State)
      → is_set (R.get done_key s) ≡ false
      → ltb_ℤ d.0 (number_at R epoch_key s) ≡ false
      → claim R epoch_key done_key ttl d.0 d.1 s
        ≡ (set_all R d.1 (R.set_ex done_key (R.of_number d.0) ttl s), ok true)
  unfolding claim is_stale
  claim-first d s h e = rw h (rw (number-mark d.0 s) (rw e refl))

  number-delete :
      (s : R.State) → number_at R epoch_key (R.delete done_key s) ≡ number_at R epoch_key s
  unfolding number_at
  number-delete s = ap (number_or_0 R) (L.get-delete_other epoch_key done_key s apart)

  number-wait :
      (wait : R.State → R.State) (s : R.State)
      → R.get epoch_key (wait s) ≡ R.get epoch_key s
      → number_at R epoch_key (wait s) ≡ number_at R epoch_key s
  unfolding number_at
  number-wait wait s e = ap (number_or_0 R) e

  -- What each delivery may not touch is the data of the credited one.
  claims-run :
      (target : List (R.Key × R.Value)) (ds : List (Delivery R)) (s : R.State) (n : ℤ)
      → number_at R epoch_key s ≡ n
      → credited n ds ≡ target
      → All (Apart R epoch_key done_key ttl target) ds
      → is_set (R.get done_key s) ≡ false
      → (let (s', rs) = claims R epoch_key done_key ttl ds s in
          (rs ≡ verdicts false n ds) × Reads target s')
  unfolding claims
  claims-run target [] s n q c h f = (refl, subst (λ kvs. Reads kvs s) c tt)
  claims-run target (d ∷ ds) s n q c h f =
      let s1 = R.set_ex done_key (R.of_number d.0) ttl s in
      let s2 = set_all R d.1 s1 in
      let s3 = R.delete done_key s1 in
      elim (Bool-cases (ltb_ℤ d.0 n)) [
        | inl e ↦
            (let (a, b) =
                claims-run target ds (d.2 s3) n
                  (number-wait d.2 s3 (h.0.3 s3) ∙ number-delete s1 ∙ number-mark d.0 s ∙ q)
                  (sym (later-credited d ds n e) ∙ c) h.1
                  (ap is_set (h.0.4 s3 ∙ X.get-delete done_key s1)) in
              rw (claim-stale d s f (ap (λ m. ltb_ℤ d.0 m) q ∙ e))
                (rw e (ap (λ rs. err fenced ∷ rs) a, b)))
        | inr e ↦
            (let marked : is_set (R.get done_key s2) ≡ true = ap is_set (
                get-set_all R L done_key d.1 s1 h.0.1
                ∙ L.get-set_ex done_key (R.of_number d.0) ttl s lives) in
              let read : Reads target s2 =
                subst (λ kvs. Reads kvs s2) (sym (first-credited d ds n e) ∙ c)
                  (set_all-read R L d.1 s1 h.0.2) in
              let (a, b) =
                claims-repeated target ds (d.2 s2) n h.1 (ap is_set (h.0.4 s2) ∙ marked)
                  (Reads-kept target d.2 s2 h.0.5 read) in
              rw (claim-first d s f (ap (λ m. ltb_ℤ d.0 m) q ∙ e))
                (rw e (ap (λ rs. ok true ∷ rs) a, b)))
      ]

  -- The deliveries of one transfer, by owners of any epochs, to a receiver without the mark,
  -- whose data has keys apart from those of the mark and the epoch, have the verdicts of a
  -- one-shot switch, when marks live for a time and none expires, the epoch stays and the
  -- credited data is not written in between: the first that is not older than the shard's epoch
  -- is credited, earlier ones are refused, later ones are duplicates; and in the end the
  -- receiver's data is what the credited one wrote.
  pub claims-verdicts :
      (ds : List (Delivery R)) (s : R.State)
      → (let n = number_at R epoch_key s in
          All (Apart R epoch_key done_key ttl (credited n ds)) ds
          → is_set (R.get done_key s) ≡ false
          → (let (s', rs) = claims R epoch_key done_key ttl ds s in
              (rs ≡ verdicts false n ds) × Reads (credited n ds) s'))
  claims-verdicts ds s h f =
      let n = number_at R epoch_key s in claims-run (credited n ds) ds s n refl refl h f
