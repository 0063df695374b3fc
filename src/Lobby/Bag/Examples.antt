-- ===== src/Lobby/Bag/Examples.antt =====
-- Runs of internal/lobby/player.go, and its theorems at a concrete wallet and bag.
use f.Prelude.{
  ℕ, ◌+◌, ◌<◌, ◌≤◌, ◌≡◌, ◌≢◌, refl, arith, pos, negsuc, [], ◌∷◌, true, false, ◌+ℤ◌, sub64, ◌==◌,
  if◌then◌else◌, ◌⊎◌, IsInt64, two63,
}
use f.Lobby.Bag.{
  Item, Bag, Wallet, add_item, remove_item_by_tpl, compact, use_item, find_item, lower_item,
}
use f.Lobby.Bag.Held.{held, AllPositive}
use f.Lobby.Bag.Ops.{IsBag, Adds, add_item_lem, remove_item_by_tpl_lem}

abbrev sword : Item
sword = record { instance_id = 70; tpl_id = 5; count = pos 1; obtained_at = pos 100 }

abbrev potions : Item
potions = record { instance_id = 71; tpl_id = 6; count = pos 20; obtained_at = pos 100 }

abbrev packed : Bag
packed = record { capacity = 3; items = sword ∷ potions ∷ [] }

small_held : (t : ℕ) → held t packed.items < two63
unfolding held
small_held t = ground arith

packed-IsBag : IsBag packed
packed-IsBag = record {
  positive = ((omega arith, refl), ((omega arith, refl), tt));
  room = omega arith;
  fits = small_held;
}

used : (use_item (pos 71) (pos 20) packed).0 ≡ record packed { items = sword ∷ [] }
unfolding use_item find_item lower_item compact sub64
used = refl

add_item_lem_example : Adds 6 5 packed (add_item 72 6 (pos 5) (pos 200) true packed)
unfolding held
add_item_lem_example =
    add_item_lem 72 6 5 (pos 200) true packed (omega arith) packed-IsBag (omega arith)

remove_item_by_tpl_lem_example :
    ((held 6 packed.items < 7) × (remove_item_by_tpl 6 (pos 7) packed ≡ (packed, false)))
    ⊎ ((7 ≤ held 6 packed.items)
        × ((bag' : Bag) × (remove_item_by_tpl 6 (pos 7) packed ≡ (bag', true))
            × (held 6 bag'.items + 7 ≡ held 6 packed.items)
            × ((t : ℕ) → t ≢ 6 → held t bag'.items ≡ held t packed.items)
            × AllPositive bag'.items))
remove_item_by_tpl_lem_example = remove_item_by_tpl_lem 6 7 packed (omega arith) packed-IsBag

abbrev purse : Wallet
purse t = if t == 1 then pos 30 else pos 0

payment_fits : IsInt64 (purse 1 +ℤ negsuc 9)
unfolding ◌+ℤ◌
payment_fits = (omega arith, omega arith)
