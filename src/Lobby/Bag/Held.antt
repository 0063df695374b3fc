-- ===== src/Lobby/Bag/Held.antt =====
-- How many of a template a bag holds, internal/lobby/player.go, as a plain sum.
use f.Prelude.{
  ℕ, ◌+◌, ◌-◌, ◌≤◌, ◌<◌, ◌≡◌, ◌≢◌, refl, arith, ℤ, pos, negsuc, pos_part, neg_part, ◌==◌,
  if◌then◌else◌, List, [], ◌∷◌, length, All, two63, add64, add64-exact, sub64, sub64-exact,
  +ℤ_parts, -ℤ_parts, ◌+ℤ◌, ◌-ℤ◌, eq_of_parts, some, Option-cases, inl, inr, dec_lt, ℕ_discrete,
}
use f.Lobby.Bag.{Item, count_from, count_item, stack_onto, take_from, compact}

unfoldable pub held : ℕ → List Item → ℕ
held tpl [] = 0
held tpl (it ∷ its) = (if it.tpl_id == tpl then pos_part it.count else 0) + held tpl its

-- Every slot holds something, and all the slots together fit an int64.
abbrev pub AllPositive : List Item → Type 0
AllPositive = All (λ (it : Item). (0 < pos_part it.count) × (neg_part it.count ≡ 0))

sum64 : (a b : ℕ) → a + b < two63 → add64 (pos a) (pos b) ≡ pos (a + b)
sum64 a b h = ground (
  arith,
  add64-exact (pos a) (pos b),
  +ℤ_parts (pos a) (pos b),
  eq_of_parts (pos a +ℤ pos b) (pos (a + b)),
)

diff64 : (a b : ℕ) → a < two63 → b ≤ a → sub64 (pos a) (pos b) ≡ pos (a - b)
diff64 a b h l = ground (
  arith,
  sub64-exact (pos a) (pos b),
  -ℤ_parts (pos a) (pos b),
  eq_of_parts (pos a -ℤ pos b) (pos (a - b)),
)

is_pos : (a : ℤ) → neg_part a ≡ 0 → a ≡ pos (pos_part a)
is_pos (pos n) h = refl
is_pos (negsuc n) h = absurd (omega arith)

count_from-held :
    (tpl n : ℕ) (its : List Item)
    → AllPositive its
    → n + held tpl its < two63
    → count_from tpl (pos n) its ≡ pos (n + held tpl its)
unfolding held count_from
count_from-held tpl n [] a h = ground arith
count_from-held tpl n (it ∷ its) a h = ground (
  arith,
  is_pos it.count,
  sum64 n (pos_part it.count),
  count_from-held tpl (n + pos_part it.count) its a.1,
  count_from-held tpl n its a.1,
)

-- `compact` drops nothing that is held.
pub held-compact : (tpl : ℕ) (its : List Item) → held tpl (compact its) ≡ held tpl its
unfolding held compact
held-compact tpl [] = refl
held-compact tpl (it ∷ its) = ground (arith, held-compact tpl its)

pub count_item-held :
    (tpl : ℕ) (its : List Item)
    → AllPositive its
    → held tpl its < two63
    → count_item tpl its ≡ pos (held tpl its)
unfolding count_item
count_item-held tpl its a h = ground (arith, count_from-held tpl 0 its)

-- Slots that may be empty, as they stand between a removal and the compaction.
abbrev pub AllCounts : List Item → Type 0
AllCounts = All (λ (it : Item). neg_part it.count ≡ 0)

pub AllPositive-compact : (its : List Item) → AllCounts its → AllPositive (compact its)
unfolding compact
AllPositive-compact [] a = tt
AllPositive-compact (it ∷ its) a = ground (arith, AllPositive-compact its a.1)

pub AllCounts-AllPositive : (its : List Item) → AllPositive its → AllCounts its
AllCounts-AllPositive [] a = tt
AllCounts-AllPositive (it ∷ its) a = (a.0.1, AllCounts-AllPositive its a.1)

-- One step of the removal.
data Taken (tpl r : ℕ) (it : Item) (its : List Item) : Type 0 where
  done : r ≡ 0 → take_from tpl (pos r) (it ∷ its) ≡ it ∷ its → Taken tpl r it its
  passed :
      it.tpl_id ≢ tpl
      → take_from tpl (pos r) (it ∷ its) ≡ it ∷ take_from tpl (pos r) its
      → Taken tpl r it its
  lowered :
      it.tpl_id ≡ tpl
      → r < pos_part it.count
      → take_from tpl (pos r) (it ∷ its) ≡ record it { count = pos (pos_part it.count - r) } ∷ its
      → Taken tpl r it its
  emptied :
      it.tpl_id ≡ tpl
      → pos_part it.count ≤ r
      → take_from tpl (pos r) (it ∷ its)
        ≡ record it { count = pos 0 } ∷ take_from tpl (pos (r - pos_part it.count)) its
      → Taken tpl r it its

take_from-zero : (tpl : ℕ) (its : List Item) → take_from tpl (pos 0) its ≡ its
unfolding take_from
take_from-zero tpl [] = refl
take_from-zero tpl (it ∷ its) = refl

taken :
    (tpl r : ℕ) (it : Item) (its : List Item)
    → neg_part it.count ≡ 0
    → r < two63
    → pos_part it.count < two63
    → Taken tpl r it its
unfolding take_from
taken tpl r it its c h k = elim (dec_lt 0 r) [
  | no z ↦ done (omega arith) (ground arith)
  | yes p ↦ elim (ℕ_discrete it.tpl_id tpl) [
    | no other ↦ passed other (ground arith)
    | yes same ↦ elim (dec_lt r (pos_part it.count)) [
      | yes less ↦ lowered same less (
          ground (
            arith,
            is_pos it.count c,
            diff64 (pos_part it.count) r,
            diff64 r r,
            take_from-zero tpl its,
          ))
      | no more ↦ emptied same (omega arith) (
          ground (
            arith,
            is_pos it.count c,
            diff64 (pos_part it.count) (pos_part it.count),
            diff64 r (pos_part it.count),
          ))
    ]
  ]
]

abbrev pub AllSmall : List Item → Type 0
AllSmall = All (λ (it : Item). (neg_part it.count ≡ 0) × (pos_part it.count < two63))

abbrev pub Removed : ℕ → ℕ → ℕ → List Item → Type 0
Removed tpl other r its =
    (other ≡ tpl → r ≤ held tpl its → held tpl (take_from tpl (pos r) its) + r ≡ held tpl its)
    × (other ≢ tpl → held other (take_from tpl (pos r) its) ≡ held other its)
    × AllCounts (take_from tpl (pos r) its)

small : (its : List Item) → AllSmall its → AllCounts its
small [] a = tt
small (it ∷ its) a = (a.0.0, small its a.1)

-- The removal takes `r` from the template, when there is that much, and nothing from another.
pub held-take_from :
    (tpl other r : ℕ) (its : List Item) → AllSmall its → r < two63 → Removed tpl other r its
unfolding held
held-take_from tpl other r [] a b = unfold take_from in ((λ e l. omega arith), (λ n. refl), tt)
held-take_from tpl other r (it ∷ its) a b = elim (taken tpl r it its a.0.0 b a.0.1) [
  | done z e ↦ rw e ((λ p l. omega arith), (λ n. refl), (a.0.0, small its a.1))
  | passed n e ↦
      let (x, y, z) = held-take_from tpl other r its a.1 b in
      rw e ((λ p l. ground (arith, x p)), (λ q. ground (arith, y q)), (a.0.0, z))
  | lowered same l e ↦ rw e ((λ p q. ground arith), (λ q. ground arith), (refl, small its a.1))
  | emptied same l e ↦
      let (x, y, z) = held-take_from tpl other (r - pos_part it.count) its a.1 (omega arith) in
      rw e ((λ p q. ground (arith, x p)), (λ q. ground (arith, y q)), (refl, z))
]

-- Stacking adds to the template's count alone.
pub held-stack_onto :
    (tpl other c : ℕ) (its its' : List Item) (it : Item)
    → AllPositive its
    → held tpl its + c < two63
    → stack_onto tpl (pos c) its ≡ some (its', it)
    → (held other its' ≡ held other its + (if other == tpl then c else 0))
      × AllPositive its'
      × (length its' ≡ length its)
unfolding held stack_onto
held-stack_onto tpl other c [] its' it a h e = ground arith
held-stack_onto tpl other c (x ∷ its) its' it a h e = elim (ℕ_discrete x.tpl_id tpl) [
  | yes same ↦ let n = pos_part x.count in ground (arith, same, is_pos x.count a.0.1, sum64 n c)
  | no other_tpl ↦ elim (Option-cases (stack_onto tpl (pos c) its)) [
    | inl missing ↦ ground (arith, missing)
    | inr ((rest, y), found) ↦ ground (arith, found, held-stack_onto tpl other c its rest y a.1)
  ]
]
