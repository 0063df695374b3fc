-- ===== src/Dirty/Taken.antt =====
-- pkg/store/dirty.go: where the marks are once they have been taken.
use f.Prelude.{
  ℕ, ◌+◌, ◌≤◌, ◌<◌, ◌≡◌, refl, sym, ap, subst, ◌∙◌, arith, leb, ltb, if◌then◌else◌, Bool, true,
  false, ◌&&◌, Option, none, some, List, [], ◌∷◌, Has, ◌⊎◌, inl, inr,
}
use f.Dirty.{
  Module, Level, all_modules, Marks, put, put_each, mark, pick, sooner, earliest, item_of, is_empty,
  take_from, take, Item, remark,
}
use f.Dirty.Covers.{
  IsTimed, Within, Covers, Covers-trans, mark-Covers, put-cases, remark-Covers, remark-Has,
}

-- The time of an item is not the zero time, and not after the marks it takes.
sooner-le : (e t : ℕ) → 0 < t → (0 < sooner e (some t)) × (sooner e (some t) ≤ t)
sooner-le e t h = (ground arith, ground arith)

sooner-start :
    (e : ℕ) (o : Option ℕ)
    → ((t : ℕ) → o ≡ some t → 0 < t)
    → 0 < e
    → (0 < sooner e o) × (sooner e o ≤ e)
sooner-start e none f h = (h, omega arith)
sooner-start e (some t) f h = let z = f t refl in (ground (arith, z), ground arith)

earliest-start :
    (id e : ℕ) (ms : List Module) (d : Marks)
    → IsTimed d
    → 0 < e
    → (0 < earliest id e ms d) × (earliest id e ms d ≤ e)
unfolding earliest
earliest-start id e [] d h z = (z, omega arith)
earliest-start id e (m ∷ ms) d h z =
    let (a, b) = sooner-start e (d id m) (h id m) z in
    let (c, g) = earliest-start id (sooner e (d id m)) ms d h a in (c, omega arith)

earliest-le :
    (id e : ℕ) (m : Module) (t : ℕ) (ms : List Module) (d : Marks)
    → IsTimed d
    → Has m ms
    → d id m ≡ some t
    → (0 < earliest id e ms d) × (earliest id e ms d ≤ t)
unfolding earliest
earliest-le id e m t [] d h hm q = absurd hm
earliest-le id e m t (x ∷ ms) d h (inl same) q =
    let o : d id x ≡ some t = ap (d id) (sym same) ∙ q in
    let (a, b) = sooner-le e t (h id m t q) in
    let (c, g) = earliest-start id (sooner e (some t)) ms d h a in rw o (c, omega arith)
earliest-le id e m t (x ∷ ms) d h (inr hm) q = earliest-le id (sooner e (d id x)) m t ms d h hm q

-- Taking marks away leaves the others.
put_each-keeps :
    (id : ℕ) (ms : List Module) (d : Marks) (id' : ℕ) (m' : Module) (t : ℕ)
    → d id' m' ≡ some t
    → (put_each id ms d id' m' ≡ some t) ⊎ ((id' ≡ id) × Has m' ms)
put_each-keeps id [] d id' m' t e = inl e
put_each-keeps id (m ∷ ms) d id' m' t e = elim (put-cases id m none d id' m') [
  | inl (a, b, c) ↦ inr (a, inl b)
  | inr c ↦ (elim (put_each-keeps id ms (put id m none d) id' m' t (c ∙ e)) [
    | inl k ↦ inl k
    | inr (a, b) ↦ inr (a, inr b)
  ])
]

put_each-Within : (id : ℕ) (ms : List Module) (d : Marks) → Within (put_each id ms d) d
put_each-Within id [] d id' m' t e = e
put_each-Within id (m ∷ ms) d id' m' t e =
    let k = put_each-Within id ms (put id m none d) id' m' t e in
    elim (put-cases id m none d id' m') [
      | inl (a, b, c) ↦ absurd (none≢some (sym c ∙ k))
      | inr c ↦ sym c ∙ k
    ]
  where
    none≢some : ◌≡◌ {A = Option ℕ} none (some t) → ⊥
    none≢some h = cc h

-- A mark is in an item, from the item's time on.
abbrev pub InItem : ℕ → Module → ℕ → List Item → Type 0
InItem id m t items =
    (it : Item) × Has it items
    × (it.id ≡ id)
    × Has m it.modules
    × (0 < it.dirty_at)
    × (it.dirty_at ≤ t)

InItem-item_of :
    (id : ℕ) (m : Module) (t : ℕ) (ms : List Module) (d : Marks) (items : List Item)
    → IsTimed d
    → Has m ms
    → d id m ≡ some t
    → InItem id m t (item_of id ms d ∷ items)
InItem-item_of id m t ms d items h hm e =
    let (a, b) = earliest-le id 0 m t ms d h hm e in (item_of id ms d, inl refl, refl, hm, a, b)

InItem-cons :
    (id : ℕ) (m : Module) (t : ℕ) (x : Item) (items : List Item)
    → InItem id m t items
    → InItem id m t (x ∷ items)
InItem-cons id m t x items (it, a, b, c, d, e) = (it, inr a, b, c, d, e)

-- Every mark stays or is in an item.
abbrev pub Kept : Marks → List Item × Marks → Type 0
Kept d r = (id : ℕ) (m : Module) (t : ℕ) → d id m ≡ some t → (r.1 id m ≡ some t) ⊎ InItem id m t r.0

Kept-if :
    (b : Bool) (d : Marks) (r s : List Item × Marks)
    → Kept d r
    → Kept d s
    → Kept d (if b then r else s)
Kept-if true d r s f g = f
Kept-if false d r s f g = g

Kept-item :
    (id : ℕ) (picked : List Module) (d : Marks) (r : List Item × Marks)
    → IsTimed d
    → Kept (put_each id picked d) r
    → Kept d (item_of id picked d ∷ r.0, r.1)
Kept-item id picked d r h f id' m' t e = elim (put_each-keeps id picked d id' m' t e) [
  | inl k ↦ (elim (f id' m' t k) [
    | inl a ↦ inl a
    | inr a ↦ inr (InItem-cons id' m' t (item_of id picked d) r.0 a)
  ])
  | inr (a, b) ↦ inr (
      subst (λ i. InItem i m' t (item_of id picked d ∷ r.0)) (sym a)
        (InItem-item_of id m' t picked d r.0 h b (ap (λ i. d i m') (sym a) ∙ e)))
]

pub take_from-Kept :
    (l : Level) (limit n : ℕ) (ids : List ℕ) (d : Marks)
    → IsTimed d
    → Kept d (take_from l limit n ids d)
unfolding take_from
take_from-Kept l limit n [] d h = λ id m t e. inl e
take_from-Kept l limit n (id ∷ ids) d h =
    let picked = pick (some l) id all_modules d in
    let skipped = take_from l limit n ids d in
    let rest = take_from l limit (n + 1) ids (put_each id picked d) in
    let inner : Kept d
        (if is_empty picked then skipped else (item_of id picked d ∷ rest.0, rest.1)) =
      Kept-if (is_empty picked) d skipped (item_of id picked d ∷ rest.0, rest.1)
        (take_from-Kept l limit n ids d h)
        (Kept-item id picked d rest h (
          take_from-Kept l limit (n + 1) ids (put_each id picked d)
            (λ id' m' t e. h id' m' t (put_each-Within id picked d id' m' t e)))) in
    Kept-if (ltb 0 limit && leb limit n) d ([], d)
      (if is_empty picked then skipped else (item_of id picked d ∷ rest.0, rest.1))
      (λ id' m' t e. inl e) inner

-- Marks that are made between the taking and the result.
abbrev pub mark_list : List (ℕ × ℕ × Module) → Marks → Marks
mark_list [] d = d
mark_list ((now, id, m) ∷ ms) d = mark_list ms (mark now id m d)

mark_list-Covers : (ms : List (ℕ × ℕ × Module)) (d : Marks) → Covers d (mark_list ms d)
mark_list-Covers [] d = λ id m t e. (t, e, omega arith)
mark_list-Covers ((now, id, m) ∷ ms) d =
    Covers-trans d (mark now id m d) (mark_list ms (mark now id m d)) (mark-Covers now id m d)
      (mark_list-Covers ms (mark now id m d))

-- Marks that `Take` takes out and `ReMark` puts back, with any marks made in between, are set
-- from their first time or an earlier one, as are those that were not taken.
pub take-remark :
    (l : Level) (limit now : ℕ) (ids : List ℕ) (ms : List (ℕ × ℕ × Module)) (d : Marks) (id : ℕ)
    (m : Module) (t : ℕ)
    → IsTimed d
    → d id m ≡ some t
    → (let (items, taken) = take l limit ids d in
        (t' : ℕ) × (remark now items (mark_list ms taken) id m ≡ some t') × (t' ≤ t))
unfolding take
take-remark l limit now ids ms d id m t h e =
    let r = take_from l limit 0 ids d in
    let mid = mark_list ms r.1 in
    elim (take_from-Kept l limit 0 ids d h id m t e) [
      | inl q ↦
          Covers-trans r.1 mid (remark now r.0 mid) (mark_list-Covers ms r.1)
            (remark-Covers now r.0 mid) id m t q
      | inr (it, a, b, c, z, w) ↦
          (let (t', q, k) = remark-Has now it m r.0 mid a c z in
            (t', ap (λ i. remark now r.0 mid i m) (sym b) ∙ q, omega arith))
    ]
