-- ===== src/Lobby/Bag.antt =====
-- internal/lobby/player.go: the wallet and the bag of a player. The currency map is a function, zero
-- where the map has no entry; a nil map is the zero function.
pub mod Held
pub mod Ops
mod Examples
use f.Prelude.{
  ℕ, zero, suc, ◌+◌, ◌≤◌, ℤ, pos, ltb_ℤ, leb_ℤ, ltb, leb, ◌==◌, Bool, true, false, not, ◌&&◌, ◌||◌,
  if◌then◌else◌, Option, none, some, List, [], ◌∷◌, ◌++◌, length, add64, sub64, to_u64,
}

pub record Item : Type 0 where
  pub instance_id : ℕ
  pub tpl_id : ℕ
  pub count : ℤ
  pub obtained_at : ℤ

pub record Bag : Type 0 where
  pub capacity : ℕ
  pub items : List Item

abbrev pub default_bag_capacity : ℕ
default_bag_capacity = 200

abbrev pub Wallet : Type 0
Wallet = ℕ → ℤ

unfoldable pub set_balance : Wallet → ℕ → ℤ → Wallet
set_balance w t v c = if c == t then v else w c

-- `AddCurrency`: the wallet, the balance that is reported, and whether it was changed.
unfoldable pub add_currency : Wallet → ℕ → ℤ → Wallet × ℤ × Bool
unfolding set_balance
add_currency w t delta =
    let cur = w t in
    if ltb_ℤ delta (pos 0) && ltb_ℤ (add64 cur delta) (pos 0)
    then (w, cur, false)
    else (set_balance w t (add64 cur delta), add64 cur delta, true)

-- `FindItem`: the first item with the instance id.
unfoldable pub find_item : ℕ → List Item → Option Item
find_item id [] = none
find_item id (it ∷ its) = if it.instance_id == id then some it else find_item id its

-- `CountItem`
unfoldable pub count_from : ℕ → ℤ → List Item → ℤ
count_from tpl n [] = n
count_from tpl n (it ∷ its) = count_from tpl (if it.tpl_id == tpl then add64 n it.count else n) its

unfoldable pub count_item : ℕ → List Item → ℤ
count_item tpl its = count_from tpl (pos 0) its

-- The stacking loop of `AddItem`: the first item of the template takes the count.
unfoldable pub stack_onto : ℕ → ℤ → List Item → Option (List Item × Item)
stack_onto tpl count [] = none
stack_onto tpl count (it ∷ its) =
    let rest = stack_onto tpl count its in
    if it.tpl_id == tpl
    then (let it' = record it { count = add64 it.count count } in some (it' ∷ its, it'))
    else elim rest [ none ↦ none | some (its', it') ↦ some (it ∷ its', it') ]

-- The end of `AddItem`: a new slot, if there is room.
unfoldable pub append_item : ℕ → ℕ → ℤ → ℤ → Bag → Bag × Option Item
append_item id tpl count now bag =
    let it : Item = record { instance_id = id; tpl_id = tpl; count = count; obtained_at = now } in
    if leb bag.capacity (length bag.items)
    then (bag, none)
    else (record bag { items = bag.items ++ (it ∷ []) }, some it)

-- `AddItem`; `none` is the result false.
unfoldable pub add_item : ℕ → ℕ → ℤ → ℤ → Bool → Bag → Bag × Option Item
add_item id tpl count now stackable bag =
    if leb_ℤ count (pos 0)
    then (bag, none)
    else if stackable
    then (elim (stack_onto tpl count bag.items) [
      | none ↦ append_item id tpl count now bag
      | some (its, it) ↦ (record bag { items = its }, some it)
    ])
    else append_item id tpl count now bag

-- `compactBag`
unfoldable pub compact : List Item → List Item
compact [] = []
compact (it ∷ its) = let rest = compact its in if ltb_ℤ (pos 0) it.count then it ∷ rest else rest

-- The loop of `RemoveItemByTpl`.
unfoldable pub take_from : ℕ → ℤ → List Item → List Item
take_from tpl remain [] = []
take_from tpl remain (it ∷ its) =
    let taken = if ltb_ℤ remain it.count then remain else it.count in
    let skipped = it ∷ take_from tpl remain its in
    let emptied =
      record it { count = sub64 it.count taken } ∷ take_from tpl (sub64 remain taken) its in
    if leb_ℤ remain (pos 0) then it ∷ its else if not (it.tpl_id == tpl) then skipped else emptied

unfoldable pub remove_item_by_tpl : ℕ → ℤ → Bag → Bag × Bool
remove_item_by_tpl tpl count bag =
    if leb_ℤ count (pos 0) || ltb_ℤ (count_item tpl bag.items) count
    then (bag, false)
    else (record bag { items = compact (take_from tpl count bag.items) }, true)

-- The write `it.Count -= count` of `UseItem` through the pointer that `FindItem` returned.
unfoldable pub lower_item : ℕ → ℤ → List Item → List Item
lower_item id count [] = []
lower_item id count (it ∷ its) =
    if it.instance_id == id
    then record it { count = sub64 it.count count } ∷ its
    else it ∷ lower_item id count its

abbrev pub use_found : Option Item → ℕ → ℤ → Bag → Bag × Option ℤ
use_found none id count bag = (bag, none)
use_found (some it) id count bag =
    if ltb_ℤ it.count count || leb_ℤ count (pos 0) then (bag, none) else (
      record bag { items = compact (lower_item id count bag.items) },
      some (sub64 it.count count),
    )

-- `UseItem`; the result is the count that is left, `none` for false.
unfoldable pub use_item : ℤ → ℤ → Bag → Bag × Option ℤ
use_item instance_id count bag =
    let id = to_u64 instance_id in use_found (find_item id bag.items) id count bag
