-- ===== src/Dirty/Examples.antt =====
-- pkg/store/dirty.go, internal/lobby/shard.go: marks of three players that are taken, written, and
-- marked again.
use f.Prelude.{
  ℕ, ◌≤◌, ◌≡◌, refl, arith, ◌==◌, pos, if◌then◌else◌, true, false, none, some, List, [], ◌∷◌, map,
}
use f.Dirty.{
  base, bag, mail, l1, Marks, Item, take, take_from, remark, remark_each, earliest, module_level,
  take_one, clear, put,
}
use f.Dirty.Covers.{IsTimed}
use f.Dirty.Taken.{take-remark, mark_list}
use f.Dirty.Flush.{build_batch, flush_level, unload_idle, take_victims, Reply, integer, failure}

-- Player 1 has two modules marked, player 2 one.
abbrev marks : Marks
marks = put 1 base (some 70) (put 1 mail (some 50) (put 2 bag (some 60) (λ id m. none)))

abbrev ids : List ℕ
ids = 2 ∷ 1 ∷ []

marks-IsTimed : IsTimed marks
marks-IsTimed id m t e = ground (arith, e)

take-remark_example :
    (let (items, taken) = take l1 0 ids marks in
      (t' : ℕ) × (remark 99 items (mark_list ((80, 1, base) ∷ []) taken) 1 base ≡ some t')
      × (t' ≤ 70))
take-remark_example =
    take-remark l1 0 99 ids ((80, 1, base) ∷ []) marks 1 base 70 marks-IsTimed refl

-- Redis takes player 2's bag and has no answer for player 1.
abbrev replies : Item → List Reply
replies it = if it.id == 2 then integer (pos 1) ∷ [] else failure ∷ []

-- A player who is unloaded while the write that then fails is under way is marked again, and the next
-- flush takes the mark and writes nothing.
unloaded_lost :
    (let (ents, out, d) = unload_idle (λ it. true) 90 (1 ∷ []) false marks in
      let again = remark 95 ents d in
      let (written, d') = flush_level (λ id. id == 2) (λ it. true) 99 l1 128 ids false again in
      (again 1 base ≡ some 50) × (d' 1 base ≡ none) × (map (λ (it : Item). it.id) written ≡ 2 ∷ []))
unfolding unload_idle take_victims take_one clear remark remark_each flush_level build_batch take
    take_from module_level earliest
unloaded_lost = (refl, refl, refl)
