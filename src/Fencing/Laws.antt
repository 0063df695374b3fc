-- ===== src/Fencing/Laws.antt =====
-- What a run of commands of pkg/store/fencing.go leaves of the keys it does not name.
use f.Prelude.{
  ℕ, zero, suc, ◌+◌, ◌-◌, ◌≤◌, ◌<◌, ◌⊎◌, inl, inr, ap, arith, length, length-append, drop, ◌≡◌, ◌≢◌,
  refl, sym, ◌∙◌, ℤ, pos, List, [], ◌∷◌, ◌++◌, some, All,
}
use f.Fencing.{Trims, Redis, IsRedis, set_all, delete_all, add_entries}

-- No pair has the key.
abbrev pub Misses : {K V : Type 0} → K → List (K × V) → Type 0
Misses k [] = Unit
Misses k (kv ∷ kvs) = (k ≢ kv.0) × Misses k kvs

abbrev pub Free : {K : Type 0} → K → List K → Type 0
Free k ks = All (λ j. k ≢ j) ks

-- The keys of the pairs are all different.
abbrev pub Distinct : {K V : Type 0} → List (K × V) → Type 0
Distinct [] = Unit
Distinct (kv ∷ kvs) = Misses kv.0 kvs × Distinct kvs

append_assoc : {A : Type 0} (xs ys zs : List A) → (xs ++ ys) ++ zs ≡ xs ++ (ys ++ zs)
append_assoc [] ys zs = refl
append_assoc (x ∷ xs) ys zs = cc (append_assoc xs ys zs)

append_nil : {A : Type 0} (xs : List A) → xs ++ [] ≡ xs
append_nil [] = refl
append_nil (x ∷ xs) = cc (append_nil xs)

drop_nil : {A : Type 0} (n : ℕ) → ◌≡◌ {A = List A} (drop n []) []
drop_nil zero = refl
drop_nil (suc n) = refl

drop-drop : {A : Type 0} (n k : ℕ) (xs : List A) → drop k (drop n xs) ≡ drop (n + k) xs
drop-drop zero k xs = let e : k ≡ 0 + k = omega arith in ap (λ i. drop i xs) e
drop-drop (suc n) k [] = drop_nil k ∙ sym (drop_nil (suc n + k))
drop-drop (suc n) k (x ∷ xs) =
    let e : suc (n + k) ≡ suc n + k = omega arith in drop-drop n k xs ∙ ap (λ i. drop i (x ∷ xs)) e

drop-append :
    {A : Type 0} (n : ℕ) (xs ys : List A) → n ≤ length xs → drop n (xs ++ ys) ≡ drop n xs ++ ys
drop-append zero xs ys h = refl
drop-append (suc n) [] ys h = absurd (omega arith)
drop-append (suc n) (x ∷ xs) ys h = drop-append n xs ys (omega arith)

length-drop : {A : Type 0} (n : ℕ) (xs : List A) → length (drop n xs) ≡ length xs - n
length-drop zero xs = omega arith
length-drop (suc n) [] = omega arith
length-drop (suc n) (x ∷ xs) = omega (arith, length-drop n xs)

-- A stream to which entries are appended, and from whose front some old ones are taken.
abbrev pub Appends : {A : Type 0} → ℕ → List A → List A → List A → Type 0
Appends m old vs new = (n : ℕ) × (new ≡ drop n old ++ vs) × ((n ≡ 0) ⊎ ((0 < m) × (m ≤ length new)))

Appends-cons :
    {A : Type 0} (m : ℕ) (old : List A) (v : A) (vs mid new : List A)
    → (m ≡ 0) ⊎ (length (v ∷ vs) ≤ m)
    → Trims m (old ++ (v ∷ [])) mid
    → Appends m mid vs new
    → Appends m old (v ∷ vs) new
Appends-cons m old v vs mid new fits (n, e, b) (k, f, c) =
    let ends = old ++ (v ∷ []) in
    let in_mid : length mid ≡ length old + 1 - n =
      ap length e ∙ length-drop n ends ∙ ap (λ i. i - n) (length-append old (v ∷ [])) in
    let in_new : length new ≡ length mid - k + length vs =
      ap length f ∙ length-append (drop k mid) vs ∙ ap (λ i. i + length vs) (length-drop k mid) in
    let within : n + k ≤ length old = ground (arith, b, c, fits, in_mid, in_new) in
    (
      n + k,
      f
          ∙ ap (λ xs. drop k xs ++ vs) e
          ∙ ap (λ xs. xs ++ vs) (drop-drop n k ends ∙ drop-append (n + k) old (v ∷ []) within)
          ∙ append_assoc (drop (n + k) old) (v ∷ []) vs,
      ground (arith, b, c, in_mid, in_new),
    )

fits_rest :
    {A : Type 0} (m : ℕ) (v : A) (vs : List A)
    → (m ≡ 0) ⊎ (length (v ∷ vs) ≤ m)
    → (m ≡ 0) ⊎ (length vs ≤ m)
fits_rest m v vs (inl z) = inl z
fits_rest m v vs (inr h) = inr (omega (arith, h))

module _ (R : Redis) (L : IsRedis R) where
  pub get-set_all :
      (k : R.Key) (kvs : List (R.Key × R.Value)) (s : R.State)
      → Misses k kvs
      → R.get k (set_all R kvs s) ≡ R.get k s
  unfolding set_all
  get-set_all k [] s m = refl
  get-set_all k (kv ∷ kvs) s m =
      get-set_all k kvs (R.set kv.0 kv.1 s) m.1 ∙ L.get-set_other k kv.0 kv.1 s m.0

  pub get-delete_all :
      (k : R.Key) (ks : List R.Key) (s : R.State)
      → Free k ks
      → R.get k (delete_all R ks s) ≡ R.get k s
  unfolding delete_all
  get-delete_all k [] s m = refl
  get-delete_all k (j ∷ ks) s m =
      get-delete_all k ks (R.delete j s) m.1 ∙ L.get-delete_other k j s m.0

  pub get-add_entries :
      (j k : R.Key) (n : ℤ) (vs : List R.Value) (s : R.State)
      → j ≢ k
      → R.get j (add_entries R k n vs s) ≡ R.get j s
  unfolding add_entries
  get-add_entries j k n [] s m = refl
  get-add_entries j k n (v ∷ vs) s m =
      get-add_entries j k n vs (R.xadd k n v s) m ∙ L.get-xadd_other j k n v s m

  pub stream-set_all :
      (k : R.Key) (kvs : List (R.Key × R.Value)) (s : R.State)
      → Misses k kvs
      → R.stream k (set_all R kvs s) ≡ R.stream k s
  unfolding set_all
  stream-set_all k [] s m = refl
  stream-set_all k (kv ∷ kvs) s m =
      stream-set_all k kvs (R.set kv.0 kv.1 s) m.1 ∙ L.stream-set k kv.0 kv.1 s m.0

  -- As many entries as a trimmed stream keeps stand at its end, in their order.
  pub stream-add_entries :
      (k : R.Key) (m : ℕ) (vs : List R.Value) (s : R.State)
      → (m ≡ 0) ⊎ (length vs ≤ m)
      → Appends m (R.stream k s) vs (R.stream k (add_entries R k (pos m) vs s))
  unfolding add_entries
  stream-add_entries k m [] s fits = (0, sym (append_nil (R.stream k s)), inl refl)
  stream-add_entries k m (v ∷ vs) s fits =
      Appends-cons m (R.stream k s) v vs (R.stream k (R.xadd k (pos m) v s))
        (R.stream k (add_entries R k (pos m) vs (R.xadd k (pos m) v s))) fits
        (L.stream-xadd k m v s)
        (stream-add_entries k m vs (R.xadd k (pos m) v s) (fits_rest m v vs fits))

  -- Every pair can be read back.
  pub set_all-read :
      (kvs : List (R.Key × R.Value)) (s : R.State)
      → Distinct kvs
      → All (λ (kv : R.Key × R.Value). R.get kv.0 (set_all R kvs s) ≡ some kv.1) kvs
  unfolding set_all
  set_all-read [] s d = tt
  set_all-read (kv ∷ kvs) s d = (
    get-set_all kv.0 kvs (R.set kv.0 kv.1 s) d.0 ∙ L.get-set kv.0 kv.1 s,
    set_all-read kvs (R.set kv.0 kv.1 s) d.1,
  )
