-- ===== src/Dirty/Flush/Lossless.antt =====
-- internal/lobby/shard.go, pkg/store/dirty.go, pkg/store/flush.go: where the marks are after a flush and
-- its result.
use f.Prelude.{ℕ, ◌<◌, ◌≡◌, Bool, true, some, List, Has, ◌⊎◌}
use f.Dirty.{Module, Marks, Item}
use f.Dirty.Covers.{Covers}

abbrev pub IsMarked : ℕ → Module → Marks → Type 0
IsMarked id m d = (t : ℕ) × (d id m ≡ some t)

-- The item of a mark.
abbrev pub Carries : ℕ → Module → Item → Type 0
Carries id m it = (it.id ≡ id) × Has m it.modules × (0 < it.dirty_at)

module _ (resident : ℕ → Bool) (marshals : Item → Bool) where
  abbrev pub AllResident : Marks → Type 0
  AllResident d = (id : ℕ) (m : Module) (t : ℕ) → d id m ≡ some t → resident id ≡ true

  -- A mark is still set, or an item with it is in the batch.
  abbrev InFlight : ℕ → Module → List Item × Marks → Type 0
  InFlight id m r = ((it : Item) × Carries id m it × Has it r.0) ⊎ IsMarked id m r.1
