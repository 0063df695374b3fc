-- ===== src/Dirty.antt =====
-- pkg/store/dirty.go: the marks of modules that are not on disk yet; pkg/store/flush.go: the level of a
-- module and the verdict on a batch; internal/lobby/shard.go: what the shard flushes. The map of marks
-- is a function, and the order in which Go iterates over its keys is an argument. A time is the number
-- of nanoseconds since the zero time.
pub mod Covers
pub mod Taken
pub mod Flush
mod Examples
use f.Prelude.{
  ℕ, ◌+◌, leb, ltb, ◌==◌, if◌then◌else◌, Bool, true, false, ◌&&◌, ◌||◌, not, Option, none, some,
  List, [], ◌∷◌, ◌++◌, length,
}

pub data Module : Type 0 where
  base bag quest social mail round rg gacha : Module

abbrev pub all_modules : List Module
all_modules = base ∷ bag ∷ quest ∷ social ∷ mail ∷ round ∷ rg ∷ gacha ∷ []

-- The place in `all_modules`, to compare modules with.
abbrev pub code : Module → ℕ
code base = 0
code bag = 1
code quest = 2
code social = 3
code mail = 4
code round = 5
code rg = 6
code gacha = 7

pub data Level : Type 0 where
  l1 l2 : Level

-- `ModuleLevel`
unfoldable pub module_level : Module → Level
module_level social = l2
module_level mail = l2
module_level gacha = l2
module_level _ = l1

abbrev pub same_level : Level → Level → Bool
same_level l1 l1 = true
same_level l2 l2 = true
same_level l1 l2 = false
same_level l2 l1 = false

abbrev pub Marks : Type 0
Marks = ℕ → Module → Option ℕ

abbrev pub is_some {ℓ} : {A : Type ℓ} → Option A → Bool
is_some none = false
is_some (some a) = true

abbrev pub put : ℕ → Module → Option ℕ → Marks → Marks
put id m at d id' m' = if (id' == id) && (code m' == code m) then at else d id' m'

-- `Mark`
unfoldable pub mark : ℕ → ℕ → Module → Marks → Marks
mark now id m d = if is_some (d id m) then d else put id m (some now) d

unfoldable pub mark_each : ℕ → ℕ → List Module → Marks → Marks
mark_each now id [] d = d
mark_each now id (m ∷ ms) d = mark_each now id ms (mark now id m d)

-- `MarkAll`
unfoldable pub mark_all : ℕ → ℕ → Marks → Marks
mark_all now id d = mark_each now id all_modules d

abbrev pub put_each : ℕ → List Module → Marks → Marks
put_each id [] d = d
put_each id (m ∷ ms) d = put_each id ms (put id m none d)

-- `Clear`
unfoldable pub clear : ℕ → Marks → Marks
clear id d id' m = if id' == id then none else d id' m

abbrev pub any_marked : ℕ → List Module → Marks → Bool
any_marked id [] d = false
any_marked id (m ∷ ms) d = is_some (d id m) || any_marked id ms d

-- `IsDirty`
unfoldable pub is_dirty : ℕ → Marks → Bool
is_dirty id d = any_marked id all_modules d

pub record Item : Type 0 where
  pub id : ℕ
  pub modules : List Module
  pub dirty_at : ℕ

-- The inner loop of `Take`: the marked modules of a level (of any, where it is none).
abbrev pub of_level : Option Level → Module → Bool
of_level none m = true
of_level (some l) m = same_level (module_level m) l

abbrev pub pick : Option Level → ℕ → List Module → Marks → List Module
pick l id [] d = []
pick l id (m ∷ ms) d =
    let rest = pick l id ms d in if of_level l m && is_some (d id m) then m ∷ rest else rest

-- The earliest time at which one of them was marked, from the zero time on.
abbrev pub sooner : ℕ → Option ℕ → ℕ
sooner e none = e
sooner e (some at) = if e == 0 || ltb at e then at else e

unfoldable pub earliest : ℕ → ℕ → List Module → Marks → ℕ
earliest id e [] d = e
earliest id e (m ∷ ms) d = earliest id (sooner e (d id m)) ms d

abbrev pub item_of : ℕ → List Module → Marks → Item
item_of id ms d = record { id = id; modules = ms; dirty_at = earliest id 0 ms d }

abbrev pub is_empty {ℓ} : {A : Type ℓ} → List A → Bool
is_empty [] = true
is_empty (x ∷ xs) = false

-- `Take`: `ids` are the keys in the order of the iteration, `limit` 0 sets no limit, `n` are out.
unfoldable pub take_from : Level → ℕ → ℕ → List ℕ → Marks → List Item × Marks
take_from l limit n [] d = ([], d)
take_from l limit n (id ∷ ids) d =
    let picked = pick (some l) id all_modules d in
    let (skipped_items, skipped) = take_from l limit n ids d in
    let (items, d') = take_from l limit (n + 1) ids (put_each id picked d) in
    if ltb 0 limit && leb limit n
    then ([], d)
    else if is_empty picked
    then (skipped_items, skipped)
    else (item_of id picked d ∷ items, d')

unfoldable pub take : Level → ℕ → List ℕ → Marks → List Item × Marks
take l limit ids d = take_from l limit 0 ids d

-- `TakeAll`
unfoldable pub items_of : List ℕ → Marks → List Item
items_of [] d = []
items_of (id ∷ ids) d =
    let picked = pick none id all_modules d in
    let rest = items_of ids d in if is_empty picked then rest else item_of id picked d ∷ rest

unfoldable pub take_all : List ℕ → Marks → List Item × Marks
take_all ids d = (items_of ids d, λ id m. none)

-- `TakeOne`
unfoldable pub take_one : ℕ → Marks → Option Item × Marks
unfolding clear
take_one id d =
    let picked = pick none id all_modules d in
    if is_empty picked then (none, d) else (some (item_of id picked d), clear id d)

abbrev pub is_later : ℕ → Option ℕ → Bool
is_later at none = true
is_later at (some old) = ltb at old

-- `ReMark`: the time of the item, or the present one if it has none.
unfoldable pub remark_each : ℕ → ℕ → List Module → Marks → Marks
remark_each id at [] d = d
remark_each id at (m ∷ ms) d =
    remark_each id at ms (if is_later at (d id m) then put id m (some at) d else d)

unfoldable pub remark : ℕ → List Item → Marks → Marks
remark now [] d = d
remark now (e ∷ es) d =
    remark now es (remark_each e.id (if e.dirty_at == 0 then now else e.dirty_at) e.modules d)
