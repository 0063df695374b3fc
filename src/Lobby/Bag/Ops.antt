-- ===== src/Lobby/Bag/Ops.antt =====
-- The operations on the wallet and the bag of internal/lobby/player.go, against what is held.
use f.Prelude.{
  ℕ, ◌+◌, ◌≤◌, ◌<◌, ◌≡◌, ◌≢◌, refl, arith, ℤ, pos, pos_part, neg_part, ◌<ℤ◌, ◌≤ℤ◌, ◌==◌,
  if◌then◌else◌, Bool, true, false, List, [], ◌∷◌, ◌++◌, length, length-append, All-append, two63,
  add64-exact, ◌+ℤ◌, IsInt64, Option, none, some, Option-cases, inl, inr, dec_lt, ◌⊎◌, Bool-cases,
  subst, sym, ◌∙◌, ltb_ℤ, ◌&&◌,
}
use f.Lobby.Bag.{
  Item, Bag, Wallet, add_currency, stack_onto, append_item, add_item, take_from, compact,
  remove_item_by_tpl,
}
use f.Lobby.Bag.Held.{
  held, held-compact, AllPositive, AllPositive-compact, AllSmall, held-take_from, held-stack_onto,
  count_item-held,
}

-- A bag between two requests: no empty slot, no more slots than the capacity, int64 totals.
pub record IsBag (bag : Bag) : Type 0 where
  pub positive : AllPositive bag.items
  pub room : length bag.items ≤ bag.capacity
  pub fits : (t : ℕ) → held t bag.items < two63

held-append : (t : ℕ) (its js : List Item) → held t (its ++ js) ≡ held t its + held t js
unfolding held
held-append t [] js = omega arith
held-append t (it ∷ its) js = omega (arith, held-append t its js)

small : (its : List Item) → AllPositive its → ((t : ℕ) → held t its < two63) → AllSmall its
unfolding held
small [] a f = tt
small (it ∷ its) a f =
    ((a.0.1, ground (arith, f it.tpl_id)), small its a.1 (λ t. omega (arith, f t)))

-- What an addition of `c` of a template makes of the other bag.
abbrev pub Added : ℕ → ℕ → Bag → Bag → Type 0
Added tpl c bag bag' =
    AllPositive bag'.items
    × (length bag'.items ≤ bag'.capacity)
    × ((t : ℕ) → held t bag'.items ≡ held t bag.items + (if t == tpl then c else 0))

-- The outcomes of an addition, as the result says.
abbrev pub Adds : ℕ → ℕ → Bag → Bag × Option Item → Type 0
Adds tpl c bag r =
    ((r ≡ (bag, none)) × (bag.capacity ≤ length bag.items))
    ⊎ ((it : Item) × (bag' : Bag) × (r ≡ (bag', some it)) × Added tpl c bag bag')

append-Added :
    (id tpl c : ℕ) (now : ℤ) (bag : Bag)
    → 0 < c
    → IsBag bag
    → Adds tpl c bag (append_item id tpl (pos c) now bag)
unfolding append_item held
append-Added id tpl c now bag p v = elim (dec_lt (length bag.items) bag.capacity) [
  | no full ↦ inl (ground arith, omega arith)
  | yes free ↦
      let it : Item = record { instance_id = id; tpl_id = tpl; count = pos c; obtained_at = now } in
      inr (
        it,
        record bag { items = bag.items ++ (it ∷ []) },
        ground arith,
        (
          All-append (λ (x : Item). (0 < pos_part x.count) × (neg_part x.count ≡ 0)) bag.items
              (it ∷ []) v.positive ((p, refl), tt),
          omega (arith, length-append bag.items (it ∷ [])),
          λ t. ground (arith, held-append t bag.items (it ∷ [])),
        ),
      )
]

add_item-eq :
    (id tpl c : ℕ) (now : ℤ) (stackable : Bool) (bag : Bag)
    → 0 < c
    → add_item id tpl (pos c) now stackable bag ≡ (
        if stackable
        then elim (stack_onto tpl (pos c) bag.items) [
          | none ↦ append_item id tpl (pos c) now bag
          | some (its, it) ↦ (record bag { items = its }, some it)
        ]
        else append_item id tpl (pos c) now bag)
unfolding add_item
add_item-eq id tpl c now stackable bag p = ground arith

-- `AddItem` with a positive count, on a well-formed bag whose total stays an int64, either finds
-- the bag full and changes nothing, or adds exactly that many of the template and nothing of
-- another, within the capacity.
pub add_item_lem :
    (id tpl c : ℕ) (now : ℤ) (stackable : Bool) (bag : Bag)
    → 0 < c
    → IsBag bag
    → held tpl bag.items + c < two63
    → Adds tpl c bag (add_item id tpl (pos c) now stackable bag)
add_item_lem id tpl c now false bag p v h =
    rw (add_item-eq id tpl c now false bag p) (append-Added id tpl c now bag p v)
add_item_lem id tpl c now true bag p v h = elim (Option-cases (stack_onto tpl (pos c) bag.items)) [
  | inl missing ↦
      subst (Adds tpl c bag) (sym (add_item-eq id tpl c now true bag p))
        (rw missing (append-Added id tpl c now bag p v))
  | inr ((its, it), found) ↦
      let stacked = λ (t : ℕ). held-stack_onto tpl t c bag.items its it v.positive h found in
      inr (
        it,
        record bag { items = its },
        rw (add_item-eq id tpl c now true bag p) (rw found refl),
        ((stacked tpl).1, omega (arith, (stacked tpl).2, v.room), λ t. (stacked t).0),
      )
]

-- `RemoveItemByTpl` with a positive count, on a well-formed bag, takes exactly what was asked and
-- nothing of another template, or, when the bag holds too few, changes nothing; no empty slot is
-- left.
pub remove_item_by_tpl_lem :
    (tpl c : ℕ) (bag : Bag)
    → 0 < c
    → IsBag bag
    → ((held tpl bag.items < c) × (remove_item_by_tpl tpl (pos c) bag ≡ (bag, false)))
      ⊎ ((c ≤ held tpl bag.items)
          × ((bag' : Bag) × (remove_item_by_tpl tpl (pos c) bag ≡ (bag', true))
              × (held tpl bag'.items + c ≡ held tpl bag.items)
              × ((t : ℕ) → t ≢ tpl → held t bag'.items ≡ held t bag.items)
              × AllPositive bag'.items))
unfolding remove_item_by_tpl
remove_item_by_tpl_lem tpl c bag p v =
    let counted = count_item-held tpl bag.items v.positive (v.fits tpl) in
    elim (dec_lt (held tpl bag.items) c) [
      | yes few ↦ inl (few, ground (arith, counted))
      | no enough ↦
          let after = take_from tpl (pos c) bag.items in
          let taken = λ (t : ℕ).
            held-take_from tpl t c bag.items (small bag.items v.positive v.fits)
              (omega (arith, v.fits tpl)) in
          inr (
            omega arith,
            (
              record bag { items = compact after },
              ground (arith, counted),
              omega (arith, held-compact tpl after, (taken tpl).0 refl (omega arith)),
              (λ t n. held-compact t after ∙ (taken t).1 n),
              AllPositive-compact after (taken tpl).2,
            ),
          )
    ]

-- `AddCurrency`, when the sum is an int64, refuses exactly the payments that would leave a
-- negative balance, and then changes nothing; otherwise the balance moves by the amount and the
-- other currencies stay.
pub add_currency_lem :
    (w : Wallet) (t : ℕ) (delta : ℤ)
    → IsInt64 (w t +ℤ delta)
    → ((delta <ℤ pos 0) × (w t +ℤ delta <ℤ pos 0) × (add_currency w t delta ≡ (w, w t, false)))
      ⊎ (((pos 0 ≤ℤ delta) ⊎ (pos 0 ≤ℤ w t +ℤ delta))
          × ((add_currency w t delta).0 t ≡ w t +ℤ delta)
          × ((c : ℕ) → c ≢ t → (add_currency w t delta).0 c ≡ w c)
          × ((add_currency w t delta).2 ≡ true))
unfolding add_currency
add_currency_lem w t delta h =
    let sum = add64-exact (w t) delta h in
    elim (Bool-cases (ltb_ℤ delta (pos 0) && ltb_ℤ (w t +ℤ delta) (pos 0))) [
      | inl short ↦ inl (ground (arith, short), ground (arith, short), rw sum (rw short refl))
      | inr enough ↦ inr (
        ground (arith, enough),
        ground (arith, sum, enough),
        (λ c n. ground (arith, sum, enough)),
        ground (arith, sum, enough),
      )
    ]
