-- ===== src/Lobby/Transfer/Items.antt =====
-- internal/lobby/handlers.go: the loops of a transfer over its items, against what is held.
use f.Prelude.{
  ℕ, zero, suc, ◌+◌, ◌≤◌, ◌<◌, ◌≡◌, refl, sym, ap, subst, ◌∙◌, arith, ℤ, pos, negsuc, pos_part,
  ◌<ℤ◌, ◌≤ℤ◌, ltb_ℤ, leb_ℤ, ◌==◌, if◌then◌else◌, Bool, true, false, List, [], ◌∷◌, length, All,
  two63, sub64, Option, none, some, Option-cases, inl, inr, ◌⊎◌, Bool-cases, ◌||◌, ℕ_discrete,
}
use f.Lobby.Bag.{Item, Bag, add_item, take_from, compact, remove_item_by_tpl, count_item}
use f.Lobby.Bag.Held.{held}
use f.Lobby.Bag.Ops.{IsBag, add_item_lem, remove_item_by_tpl_lem, Adds, Added}
use f.Lobby.Transfer.{
  Attachment, take_items, add_items, Landed, no_more_ids, full, landed, land_one,
}

-- How many of a template the attachments name.
unfoldable pub asked : ℕ → List Attachment → ℕ
asked t [] = 0
asked t (a ∷ gifts) = (if t == a.0 then pos_part a.1 else 0) + asked t gifts

abbrev pub AllGiven : List Attachment → Type 0
AllGiven = All (λ (a : Attachment). pos 0 <ℤ a.1)

length-compact : (its : List Item) → length (compact its) ≤ length its
unfolding compact
length-compact [] = omega arith
length-compact (it ∷ its) = ground (arith, length-compact its)

length-take_from : (tpl : ℕ) (c : ℤ) (its : List Item) → length (take_from tpl c its) ≡ length its
unfolding take_from
length-take_from tpl c [] = refl
length-take_from tpl c (it ∷ its) =
    let taken = if ltb_ℤ c it.count then c else it.count in
    ground (arith, length-take_from tpl c its, length-take_from tpl (sub64 c taken) its)

remove-room :
    (tpl : ℕ) (c : ℤ) (bag : Bag)
    → length bag.items ≤ bag.capacity
    → (let r = remove_item_by_tpl tpl c bag in length r.0.items ≤ r.0.capacity)
unfolding remove_item_by_tpl
remove-room tpl c bag h =
    elim (Bool-cases (leb_ℤ c (pos 0) || ltb_ℤ (count_item tpl bag.items) c)) [
      | inl e ↦ rw e h
      | inr e ↦ rw e (
          omega (
            arith,
            length-compact (take_from tpl c bag.items),
            length-take_from tpl c bag.items,
            h,
          ))
    ]

-- What a removal of `c` of a template makes of the other bag.
abbrev Lowered : ℕ → ℕ → Bag → Bag → Type 0
Lowered tpl c bag bag' =
    IsBag bag' × ((t : ℕ) → held t bag'.items + (if t == tpl then c else 0) ≡ held t bag.items)

remove_item_by_tpl-Lowered :
    (tpl c : ℕ) (bag bag' : Bag)
    → 0 < c
    → IsBag bag
    → remove_item_by_tpl tpl (pos c) bag ≡ (bag', true)
    → Lowered tpl c bag bag'
remove_item_by_tpl-Lowered tpl c bag bag' p v e = elim (remove_item_by_tpl_lem tpl c bag p v) [
  | inl (few, e') ↦
      absurd (not_both (sym (ap (λ (r : Bag × Bool). r.1) e') ∙ ap (λ (r : Bag × Bool). r.1) e))
  | inr (enough, (bag'', e', here, others, positive)) ↦
      let same : bag'' ≡ bag' = ap (λ (r : Bag × Bool). r.0) (sym e' ∙ e) in
      let each : (t : ℕ) → held t bag''.items + (if t == tpl then c else 0) ≡ held t bag.items =
        λ t. elim (ℕ_discrete t tpl) [
          | yes q ↦
              subst (λ u. held u bag''.items + (if u == tpl then c else 0) ≡ held u bag.items)
                (sym q) (ground (arith, here))
          | no n ↦ ground (arith, others t n)
        ] in
      subst (Lowered tpl c bag) same (
        record {
          positive = positive;
          room =
              subst (λ (r : Bag × Bool). length r.0.items ≤ r.0.capacity) e'
                (remove-room tpl (pos c) bag v.room);
          fits = λ t. omega (arith, each t, v.fits t);
        },
        each,
      )
]
  where
    not_both : false ≡ true → ⊥
    not_both h = cc h

-- A removal that asks for nothing, or for less, is refused.
remove-refuses :
    (tpl : ℕ) (c : ℤ) (bag : Bag) → c ≤ℤ pos 0 → (remove_item_by_tpl tpl c bag).1 ≡ false
unfolding remove_item_by_tpl
remove-refuses tpl c bag h = ground arith

-- A count above 0 is a natural number.
positive_count : (c : ℤ) → pos 0 <ℤ c → c ≡ pos (pos_part c)
positive_count (pos n) h = refl
positive_count (negsuc n) h = absurd (omega arith)

-- What a list of attachments makes of the bag that they are taken from.
abbrev pub Gives : List Attachment → Bag → Bag → Type 0
Gives gifts bag bag' =
    AllGiven gifts × IsBag bag' × ((t : ℕ) → held t bag'.items + asked t gifts ≡ held t bag.items)

take_items-step :
    (tpl : ℕ) (c : ℤ) (gifts : List Attachment) (bag bag' : Bag)
    → take_items ((tpl, c) ∷ gifts) bag ≡ some bag'
    → ((remove_item_by_tpl tpl c bag).1 ≡ true)
      × (take_items gifts (remove_item_by_tpl tpl c bag).0 ≡ some bag')
unfolding take_items
take_items-step tpl c gifts bag bag' e = by_result (remove_item_by_tpl tpl c bag).1 refl
  where
    missing : ◌≡◌ {A = Option Bag} none (some bag') → ⊥
    missing h = cc h

    by_result :
        (b : Bool)
        → (remove_item_by_tpl tpl c bag).1 ≡ b
        → ((remove_item_by_tpl tpl c bag).1 ≡ true)
          × (take_items gifts (remove_item_by_tpl tpl c bag).0 ≡ some bag')
    by_result true q = (
      q,
      ap (λ b. if b then take_items gifts (remove_item_by_tpl tpl c bag).0 else none) (sym q) ∙ e,
    )
    by_result false q = absurd (
        missing (
          ap (λ b. if b then take_items gifts (remove_item_by_tpl tpl c bag).0 else none) (sym q)
          ∙ e))

pub take_items-Gives :
    (gifts : List Attachment) (bag bag' : Bag)
    → IsBag bag
    → take_items gifts bag ≡ some bag'
    → Gives gifts bag bag'
unfolding asked
take_items-Gives [] bag bag' v e =
    let same : bag ≡ bag' = unfold take_items in some_injective e in
    subst (Gives [] bag) same (tt, v, λ t. omega arith)
  where
    some_injective : ◌≡◌ {A = Option Bag} (some bag) (some bag') → bag ≡ bag'
    some_injective h = cc h
take_items-Gives ((tpl, c) ∷ gifts) bag bag' v e =
    let (enough, rest) = take_items-step tpl c gifts bag bag' e in
    let mid = (remove_item_by_tpl tpl c bag).0 in
    elim (positive_or c) [
      | inl h ↦
          (let n = pos_part c in
            let same = positive_count c h in
            let (w, each) =
              remove_item_by_tpl-Lowered tpl n bag mid (omega arith) v
                (ap (λ x. remove_item_by_tpl tpl x bag) (sym same) ∙ ap (λ b. (mid, b)) enough) in
            let (given, w', all) = take_items-Gives gifts mid bag' w rest in
            ((h, given), w', λ t. omega (arith, each t, all t)))
      | inr h ↦ absurd (not_both (sym (remove-refuses tpl c bag h) ∙ enough))
    ]
  where
    positive_or : (c : ℤ) → (pos 0 <ℤ c) ⊎ (c ≤ℤ pos 0)
    positive_or (pos zero) = inr (omega arith)
    positive_or (pos (suc n)) = inl (omega arith)
    positive_or (negsuc n) = inr (omega arith)

    not_both : false ≡ true → ⊥
    not_both h = cc h

-- What a list of attachments makes of the bag that they are added to.
abbrev pub Receives : List Attachment → Bag → Bag → Type 0
Receives gifts bag bag' =
    IsBag bag' × ((t : ℕ) → held t bag'.items ≡ held t bag.items + asked t gifts)

land_one-step :
    (tpl : ℕ) (c : ℕ) (gifts : List Attachment) (bag bag' : Bag) (r : Bag × Option Item)
    (rest : Landed)
    → land_one r.1 rest ≡ landed bag'
    → Adds tpl c bag r
    → (rest ≡ landed bag') × Added tpl c bag r.0
land_one-step tpl c gifts bag bag' r rest e (inl (q, h)) =
    absurd (missing (ap (λ (x : Bag × Option Item). land_one x.1 rest) (sym q) ∙ e))
  where
    missing : full ≡ landed bag' → ⊥
    missing h = cc h
land_one-step tpl c gifts bag bag' r rest e (inr (it, bag'', q, a)) = (
  ap (λ (x : Bag × Option Item). land_one x.1 rest) (sym q) ∙ e,
  subst (λ (x : Bag × Option Item). Added tpl c bag x.0) (sym q) a,
)

add_items-none :
    (ids : ℕ → Option ℕ) (i : ℕ) (now : ℤ) (stackable : ℕ → Bool) (tpl : ℕ) (c : ℤ)
    (gifts : List Attachment) (bag : Bag)
    → ids i ≡ none
    → add_items ids i now stackable ((tpl, c) ∷ gifts) bag ≡ no_more_ids
unfolding add_items
add_items-none ids i now stackable tpl c gifts bag q = rw (q, add_items) refl

add_items-some :
    (ids : ℕ → Option ℕ) (i : ℕ) (now : ℤ) (stackable : ℕ → Bool) (tpl : ℕ) (c : ℤ)
    (gifts : List Attachment) (bag : Bag) (id : ℕ)
    → ids i ≡ some id
    → (let r = add_item id tpl c now (stackable tpl) bag in
        add_items ids i now stackable ((tpl, c) ∷ gifts) bag
        ≡ land_one r.1 (add_items ids (i + 1) now stackable gifts r.0))
unfolding add_items
add_items-some ids i now stackable tpl c gifts bag id q = rw (q, add_items) refl

pub add_items-Receives :
    (ids : ℕ → Option ℕ) (i : ℕ) (now : ℤ) (stackable : ℕ → Bool) (gifts : List Attachment)
    (bag bag' : Bag)
    → AllGiven gifts
    → IsBag bag
    → ((t : ℕ) → held t bag.items + asked t gifts < two63)
    → add_items ids i now stackable gifts bag ≡ landed bag'
    → Receives gifts bag bag'
unfolding asked
add_items-Receives ids i now stackable [] bag bag' g v h e =
    let same : bag ≡ bag' = unfold add_items in landed_injective e in
    subst (Receives [] bag) same (v, λ t. omega arith)
  where
    landed_injective : landed bag ≡ landed bag' → bag ≡ bag'
    landed_injective h = cc h
add_items-Receives ids i now stackable ((tpl, c) ∷ gifts) bag bag' g v h e =
    elim (Option-cases (ids i)) [
      | inl q ↦ absurd (missing (sym (add_items-none ids i now stackable tpl c gifts bag q) ∙ e))
      | inr (id, q) ↦
          let n = pos_part c in
          let same = positive_count c g.0 in
          let r = add_item id tpl c now (stackable tpl) bag in
          let (rest, (positive, room, each)) =
            land_one-step tpl n gifts bag bag' r (add_items ids (i + 1) now stackable gifts r.0)
              (sym (add_items-some ids i now stackable tpl c gifts bag id q) ∙ e)
              (subst (λ x. Adds tpl n bag (add_item id tpl x now (stackable tpl) bag)) (sym same)
                (add_item_lem id tpl n now (stackable tpl) bag (ground (arith, g.0, same)) v
                  (ground (arith, h tpl)))) in
          let w : IsBag r.0 = record {
            positive = positive;
            room = room;
            fits = λ t. ground (arith, h t, each t);
          } in
          let (w', all) =
            add_items-Receives ids (i + 1) now stackable gifts r.0 bag' g.1 w
              (λ t. ground (arith, h t, each t)) rest in
          (w', λ t. omega (arith, each t, all t))
    ]
  where
    missing : no_more_ids ≡ landed bag' → ⊥
    missing h = cc h
