-- ===== src/Lobby/Transfer/Conserved.antt =====
-- internal/lobby/handlers.go: what a transfer takes from its sender and gives to its receiver.
use f.Prelude.{
  ℕ, ◌+◌, ◌<◌, ◌≡◌, ◌≢◌, refl, sym, ap, subst, ◌∙◌, arith, ℤ, pos, ◌<ℤ◌, ◌≤ℤ◌, ltb_ℤ, ◌==◌,
  if◌then◌else◌, Bool, true, false, ◌||◌, two63, sub64, sub64-exact, Option, none, some, inl, inr,
  Bool-cases, ℕ_discrete, Result, ok, err, IsInt64, ◌+ℤ◌, ◌-ℤ◌, -ℤ_parts, +ℤ_parts, parts_disjoint,
  eq_of_parts,
}
use f.Lobby.Bag.{Bag, Wallet, add_currency}
use f.Lobby.Bag.Held.{held}
use f.Lobby.Bag.Ops.{IsBag, add_currency_lem}
use f.Lobby.Transfer.{
  Assets, Job, Landed, no_more_ids, full, landed, take_items, take_money, with_money, with_items,
  prepare_transfer, add_items, add_money, Arrival, credits, TransferRefusal, bad_target, arrival_of,
  apply_transfer,
}
use f.Lobby.Transfer.Items.{asked, take_items-Gives, add_items-Receives}

from_ok : {E A : Type 0} → A → Result E A → A
from_ok a (ok b) = b
from_ok a (err e) = a

with_money-ok :
    (w : Option Wallet) (id : Option ℕ) (bag : Bag) (job job' : Job) (a' : Assets)
    → with_money w id bag job ≡ ok (a', job')
    → (w ≡ some a'.wallet)
      × (bag ≡ a'.bag)
      × (job'.items ≡ job.items)
      × (job'.curr_type ≡ job.curr_type)
      × (job'.curr_delta ≡ job.curr_delta)
unfolding from_ok
with_money-ok none id bag job job' a' e = absurd (cc e)
with_money-ok (some w) none bag job job' a' e = absurd (cc e)
with_money-ok (some w) (some id) bag job job' a' e =
    let same : ◌≡◌ {A = Assets × Job} (record { wallet = w; bag = bag }, record job { tx_id = id })
        (a', job') =
      ap (from_ok (a', job')) e in
    (
      ap (λ (x : Assets × Job). some x.0.wallet) same,
      ap (λ (x : Assets × Job). x.0.bag) same,
      ap (λ (x : Assets × Job). x.1.items) (sym same),
      ap (λ (x : Assets × Job). x.1.curr_type) (sym same),
      ap (λ (x : Assets × Job). x.1.curr_delta) (sym same),
    )

-- What is written for the sender, and what the job carries.
abbrev Prepared : Job → Assets → Assets → Job → Type 0
Prepared job a a' job' =
    (take_items job.items a.bag ≡ some a'.bag)
    × (take_money job.curr_type job.curr_delta a.wallet ≡ some a'.wallet)
    × (job'.items ≡ job.items)
    × (job'.curr_type ≡ job.curr_type)
    × (job'.curr_delta ≡ job.curr_delta)

prepare_transfer-Prepared :
    (id : Option ℕ) (job job' : Job) (a a' : Assets)
    → prepare_transfer id job a ≡ ok (a', job')
    → Prepared job a a' job'
unfolding prepare_transfer
prepare_transfer-Prepared id job job' a a' e =
    by_items (take_items job.items a.bag) refl
      (by_target ((job.to_uid == 0) || (job.to_uid == job.from_uid)) e)
  where
    by_target :
        (b : Bool) {r : Result TransferRefusal (Assets × Job)}
        → (if b then err bad_target else r) ≡ ok (a', job')
        → r ≡ ok (a', job')
    by_target true h = absurd (cc h)
    by_target false h = h

    by_items :
        (o : Option Bag)
        → take_items job.items a.bag ≡ o
        → with_items o id job a ≡ ok (a', job')
        → Prepared job a a' job'
    by_items none q h = absurd (cc h)
    by_items (some bag) q h =
        let (w, b, i, t, d) =
          with_money-ok (take_money job.curr_type job.curr_delta a.wallet) id bag job job' a' h in
        (q ∙ ap some b, w, i, t, d)

-- The money of a job: nothing unless it is positive.
abbrev pub paid : ℤ → ℤ
paid delta = if ltb_ℤ (pos 0) delta then delta else pos 0

add_zero : (a : ℤ) → a +ℤ pos 0 ≡ a
add_zero a = eq_of_parts (a +ℤ pos 0) a (omega (arith, +ℤ_parts a (pos 0)))

-- The amount that `AddCurrency` is called with.
minus : (delta : ℤ) → pos 0 <ℤ delta → IsInt64 delta → sub64 (pos 0) delta ≡ pos 0 -ℤ delta
minus delta h g =
    sub64-exact (pos 0) delta
      (ground (arith, -ℤ_parts (pos 0) delta, parts_disjoint (pos 0 -ℤ delta), g))

paid-exact : (delta : ℤ) → pos 0 <ℤ delta → paid delta ≡ delta
paid-exact delta h = ground arith

-- A balance that pays.
abbrev Pays : ℕ → ℤ → Wallet → Wallet → Type 0
Pays t delta w w' = (w' t +ℤ paid delta ≡ w t) × (pos 0 ≤ℤ w' t) × ((c : ℕ) → c ≢ t → w' c ≡ w c)

add_currency-Pays :
    (t : ℕ) (delta : ℤ) (w : Wallet)
    → IsInt64 (w t)
    → IsInt64 delta
    → pos 0 ≤ℤ w t
    → pos 0 <ℤ delta
    → (add_currency w t (pos 0 -ℤ delta)).2 ≡ true
    → Pays t delta w (add_currency w t (pos 0 -ℤ delta)).0
add_currency-Pays t delta w f g h z e =
    let nd = pos 0 -ℤ delta in
    let parts = -ℤ_parts (pos 0) delta in
    let sum = +ℤ_parts (w t) nd in
    let fits : IsInt64 (w t +ℤ nd) =
      ground (arith, parts, sum, parts_disjoint (w t +ℤ nd), parts_disjoint nd, f, g) in
    elim (add_currency_lem w t nd fits) [
      | inl (a, b, c) ↦ absurd (not_both (sym (ap (λ (r : Wallet × ℤ × Bool). r.2) c) ∙ e))
      | inr (a, b, c, d) ↦ (
        ap (λ x. x +ℤ paid delta) b
            ∙ ap (λ x. w t +ℤ nd +ℤ x) (paid-exact delta z)
            ∙ eq_of_parts (w t +ℤ nd +ℤ delta) (w t)
                (omega (arith, +ℤ_parts (w t +ℤ nd) delta, sum, parts)),
        subst (λ x. pos 0 ≤ℤ x) (sym b)
            (elim a [ inl n ↦ absurd (omega (arith, n, parts, z)) | inr n ↦ n ]),
        c,
      )
    ]
  where
    not_both : false ≡ true → ⊥
    not_both h = cc h

take_money-Pays :
    (t : ℕ) (delta : ℤ) (w w' : Wallet)
    → IsInt64 (w t)
    → IsInt64 delta
    → pos 0 ≤ℤ w t
    → take_money t delta w ≡ some w'
    → Pays t delta w w'
unfolding take_money
take_money-Pays t delta w w' f g h e = elim (Bool-cases (ltb_ℤ (pos 0) delta)) [
  | inl q ↦
      (let z : pos 0 <ℤ delta = ground (arith, q) in
        let r = add_currency w t (pos 0 -ℤ delta) in
        let (a, b) = taken r (sym (rw (minus delta z g) (rw q refl)) ∙ e) in
        subst (Pays t delta w) b (add_currency-Pays t delta w f g h z a))
  | inr q ↦
      (let same : w ≡ w' = kept (sym (rw q refl) ∙ e) in
        subst (Pays t delta w) same
          (ap (λ x. w t +ℤ x) (rw q refl) ∙ add_zero (w t), h, λ c n. refl))
]
  where
    taken :
        (r : Wallet × ℤ × Bool)
        → (if r.2 then some r.0 else none) ≡ some w'
        → (r.2 ≡ true) × (r.0 ≡ w')
    taken (x, y, true) k = (refl, cc k)
    taken (x, y, false) k = absurd (cc k)

    kept : ◌≡◌ {A = Option Wallet} (some w) (some w') → w ≡ w'
    kept k = cc k

add_money-paid :
    (t : ℕ) (delta : ℤ) (w : Wallet)
    → IsInt64 (w t +ℤ paid delta)
    → (add_money t delta w t ≡ w t +ℤ paid delta) × ((c : ℕ) → c ≢ t → add_money t delta w c ≡ w c)
add_money-paid t delta w f = elim (Bool-cases (ltb_ℤ (pos 0) delta)) [
  | inl q ↦
      (let z : pos 0 <ℤ delta = ground (arith, q) in
        elim (add_currency_lem w t delta (subst (λ x. IsInt64 (w t +ℤ x)) (paid-exact delta z) f)) [
          | inl (a, b, c) ↦ absurd (omega (arith, a, z))
          | inr (a, b, c, d) ↦ rw q (b, c)
        ])
  | inr q ↦ rw q (sym (add_zero (w t)), λ c n. refl)
]

apply_transfer-credits :
    (ids : ℕ → Option ℕ) (now : ℤ) (stackable : ℕ → Bool) (job : Job) (b b' : Assets)
    → apply_transfer ids now stackable job b ≡ credits b'
    → (add_items ids 0 now stackable job.items b.bag ≡ landed b'.bag)
      × (add_money job.curr_type job.curr_delta b.wallet ≡ b'.wallet)
unfolding apply_transfer
apply_transfer-credits ids now stackable job b b' e =
    by_landed (add_items ids 0 now stackable job.items b.bag) refl e
  where
    wallet_of : Arrival → Wallet
    wallet_of (credits x) = x.wallet
    wallet_of _ = b'.wallet

    bag_of : Arrival → Bag
    bag_of (credits x) = x.bag
    bag_of _ = b'.bag

    by_landed :
        (l : Landed)
        → add_items ids 0 now stackable job.items b.bag ≡ l
        → arrival_of l job b ≡ credits b'
        → (add_items ids 0 now stackable job.items b.bag ≡ landed b'.bag)
          × (add_money job.curr_type job.curr_delta b.wallet ≡ b'.wallet)
    by_landed no_more_ids q h = absurd (cc h)
    by_landed full q h = absurd (cc h)
    by_landed (landed bag) q h = (q ∙ ap landed (ap bag_of h), ap wallet_of h)

-- When a transfer is prepared for its sender and credited to its receiver, both with well-formed
-- bags and amounts that stay int64, nothing comes into being or is lost: of every template and
-- every currency the two together hold what they held before, and the sender's balance does not
-- become negative.
pub apply_transfer-conserves :
    (id : Option ℕ) (ids : ℕ → Option ℕ) (now : ℤ) (stackable : ℕ → Bool) (job job' : Job)
    (a a' b b' : Assets)
    → prepare_transfer id job a ≡ ok (a', job')
    → apply_transfer ids now stackable job' b ≡ credits b'
    → IsBag a.bag
    → IsBag b.bag
    → ((t : ℕ) → held t b.bag.items + asked t job.items < two63)
    → IsInt64 (a.wallet job.curr_type)
    → IsInt64 job.curr_delta
    → pos 0 ≤ℤ a.wallet job.curr_type
    → IsInt64 (b.wallet job.curr_type +ℤ paid job.curr_delta)
    → ((t : ℕ)
        → held t a'.bag.items + held t b'.bag.items ≡ held t a.bag.items + held t b.bag.items)
      × ((c : ℕ) → a'.wallet c +ℤ b'.wallet c ≡ a.wallet c +ℤ b.wallet c)
      × (pos 0 ≤ℤ a'.wallet job.curr_type)
apply_transfer-conserves id ids now stackable job job' a a' b b' e f va vb h i64 d64 z j64 =
    let t = job.curr_type in
    let (taken, money, items, type, delta) = prepare_transfer-Prepared id job job' a a' e in
    let (added, funds) = apply_transfer-credits ids now stackable job' b b' f in
    let (given, va', out) = take_items-Gives job.items a.bag a'.bag va taken in
    let (vb', in_) =
      add_items-Receives ids 0 now stackable job.items b.bag b'.bag given vb h
        (ap (λ l. add_items ids 0 now stackable l b.bag) (sym items) ∙ added) in
    let (less, rest, same_a) =
      take_money-Pays t job.curr_delta a.wallet a'.wallet i64 d64 z money in
    let (more, same_b) = add_money-paid t job.curr_delta b.wallet j64 in
    let wallet_b : add_money t job.curr_delta b.wallet ≡ b'.wallet =
      subst (λ x. add_money x job.curr_delta b.wallet ≡ b'.wallet) type
        (subst (λ x. add_money job'.curr_type x b.wallet ≡ b'.wallet) delta funds) in
    (
      λ u. omega (arith, out u, in_ u),
      λ c. elim (ℕ_discrete c t) [
        | yes q ↦
            subst (λ u. a'.wallet u +ℤ b'.wallet u ≡ a.wallet u +ℤ b.wallet u) (sym q)
              (balanced (a'.wallet t) (a.wallet t) (b.wallet t) (b'.wallet t) (paid job.curr_delta)
                less (ap (λ w. w t) (sym wallet_b) ∙ more))
        | no n ↦ ap2 (same_a c n) (ap (λ w. w c) (sym wallet_b) ∙ same_b c n)
      ],
      rest,
    )
  where
    ap2 : {x x' y y' : ℤ} → x ≡ x' → y ≡ y' → x +ℤ y ≡ x' +ℤ y'
    ap2 p q = cc (p, q)

    balanced : (a' a b b' p : ℤ) → a' +ℤ p ≡ a → b' ≡ b +ℤ p → a' +ℤ b' ≡ a +ℤ b
    balanced a' a b b' p x y =
        ap (λ q. a' +ℤ q) y
        ∙ eq_of_parts (a' +ℤ (b +ℤ p)) ((a' +ℤ p) +ℤ b)
            (omega (arith, +ℤ_parts a' (b +ℤ p), +ℤ_parts b p, +ℤ_parts (a' +ℤ p) b, +ℤ_parts a' p))
        ∙ ap (λ q. q +ℤ b) x
