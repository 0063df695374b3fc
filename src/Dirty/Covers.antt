-- ===== src/Dirty/Covers.antt =====
-- pkg/store/dirty.go: which marks an operation keeps.
use f.Prelude.{
  ℕ, ◌≡◌, refl, sym, ap, subst, ◌∙◌, arith, zero, suc, ◌≤◌, ◌<◌, ltb, ◌==◌, if◌then◌else◌, true,
  Option, none, some, List, [], ◌∷◌, Has, ◌⊎◌, inl, inr, Bool-cases, ==_iff,
}
use f.Dirty.{
  Module, base, bag, quest, social, mail, round, rg, gacha, code, Marks, put, mark, mark_each,
  is_later, remark_each, remark, Item, is_some,
}

decode : ℕ → Module
decode zero = base
decode (suc zero) = bag
decode (suc (suc zero)) = quest
decode (suc (suc (suc zero))) = social
decode (suc (suc (suc (suc zero)))) = mail
decode (suc (suc (suc (suc (suc zero))))) = round
decode (suc (suc (suc (suc (suc (suc zero)))))) = rg
decode _ = gacha

decode-code : (m : Module) → decode (code m) ≡ m
unfolding decode
decode-code base = refl
decode-code bag = refl
decode-code quest = refl
decode-code social = refl
decode-code mail = refl
decode-code round = refl
decode-code rg = refl
decode-code gacha = refl

code-injective : (m m' : Module) → code m ≡ code m' → m ≡ m'
code-injective m m' h = sym (decode-code m) ∙ ap decode h ∙ decode-code m'

-- Every mark of `d` is in `d'`, from the same time or an earlier one.
abbrev pub Covers : Marks → Marks → Type 0
Covers d d' =
    (id : ℕ) (m : Module) (t : ℕ) → d id m ≡ some t → (t' : ℕ) × (d' id m ≡ some t') × (t' ≤ t)

-- Every mark of `d'` is one of `d`.
abbrev pub Within : Marks → Marks → Type 0
Within d' d = (id : ℕ) (m : Module) (t : ℕ) → d' id m ≡ some t → d id m ≡ some t

-- The times are after the zero time.
abbrev pub IsTimed : Marks → Type 0
IsTimed d = (id : ℕ) (m : Module) (t : ℕ) → d id m ≡ some t → 0 < t

pub Covers-trans : (d d' d'' : Marks) → Covers d d' → Covers d' d'' → Covers d d''
Covers-trans d d' d'' f g id m t e =
    let (t', e', h) = f id m t e in let (t'', e'', h') = g id m t' e' in (t'', e'', ground arith)

pub put-cases :
    (id : ℕ) (m : Module) (at : Option ℕ) (d : Marks) (id' : ℕ) (m' : Module)
    → ((id' ≡ id) × (m' ≡ m) × (put id m at d id' m' ≡ at)) ⊎ (put id m at d id' m' ≡ d id' m')
put-cases id m at d id' m' = elim (Bool-cases (id' == id)) [
  | inl a ↦ (elim (Bool-cases (code m' == code m)) [
    | inl b ↦ inl (
      (==_iff id' id).0 a,
      code-injective m' m ((==_iff (code m') (code m)).0 b),
      rw a (rw b refl),
    )
    | inr b ↦ inr (rw a (rw b refl))
  ])
  | inr a ↦ inr (rw a refl)
]

==_refl : (a : ℕ) → (a == a) ≡ true
==_refl a = ground arith

pub put-same : (id : ℕ) (m : Module) (at : Option ℕ) (d : Marks) → put id m at d id m ≡ at
put-same id m at d = rw (==_refl id) (rw (==_refl (code m)) refl)

-- A mark set over none, or over a later one.
earlier : (at t : ℕ) (o : Option ℕ) → is_later at o ≡ true → o ≡ some t → at ≤ t
earlier at t none h e = absurd (cc e)
earlier at t (some old) h e = ground (arith, h, e)

put-Covers :
    (id : ℕ) (m : Module) (at : ℕ) (d : Marks)
    → is_later at (d id m) ≡ true
    → Covers d (put id m (some at) d)
put-Covers id m at d h id' m' t e = elim (put-cases id m (some at) d id' m') [
  | inl (a, b, c) ↦
      (at, c, earlier at t (d id m) h (ap (λ i. d i m) (sym a) ∙ ap (λ x. d id' x) (sym b) ∙ e))
  | inr c ↦ (t, c ∙ e, omega arith)
]

Covers-refl : (d : Marks) → Covers d d
Covers-refl d id m t e = (t, e, omega arith)

pub mark-Covers : (now id : ℕ) (m : Module) (d : Marks) → Covers d (mark now id m d)
unfolding mark
mark-Covers now id m d = by_mark (d id m) refl
  where
    by_mark :
        (o : Option ℕ) → d id m ≡ o → Covers d (if is_some o then d else put id m (some now) d)
    by_mark none e = put-Covers id m now d (rw e refl)
    by_mark (some t) e = Covers-refl d

pub mark_each-Covers :
    (now id : ℕ) (ms : List Module) (d : Marks) → Covers d (mark_each now id ms d)
unfolding mark_each
mark_each-Covers now id [] d = Covers-refl d
mark_each-Covers now id (m ∷ ms) d =
    Covers-trans d (mark now id m d) (mark_each now id ms (mark now id m d))
      (mark-Covers now id m d) (mark_each-Covers now id ms (mark now id m d))

-- One step of `remark_each`: it keeps what is marked, and the module is marked by then.
abbrev remark_one : ℕ → ℕ → Module → Marks → Marks
remark_one id at m d = if is_later at (d id m) then put id m (some at) d else d

remark_one-Covers : (id at : ℕ) (m : Module) (d : Marks) → Covers d (remark_one id at m d)
remark_one-Covers id at m d = elim (Bool-cases (is_later at (d id m))) [
  | inl e ↦ rw e (put-Covers id m at d e)
  | inr e ↦ rw e (Covers-refl d)
]

MarkedBy : ℕ → Module → ℕ → Marks → Type 0
MarkedBy id m at d = (t : ℕ) × (d id m ≡ some t) × (t ≤ at)

remark_one-MarkedBy : (id at : ℕ) (m : Module) (d : Marks) → MarkedBy id m at (remark_one id at m d)
unfolding MarkedBy
remark_one-MarkedBy id at m d = by_mark (d id m) refl
  where
    by_mark :
        (o : Option ℕ)
        → d id m ≡ o
        → (let d' = if is_later at o then put id m (some at) d else d in
            (t : ℕ) × (d' id m ≡ some t) × (t ≤ at))
    by_mark none e = (at, put-same id m (some at) d, omega arith)
    by_mark (some old) e = elim (Bool-cases (ltb at old)) [
      | inl h ↦ rw h (at, put-same id m (some at) d, omega arith)
      | inr h ↦ rw h (old, e, ground (arith, h))
    ]

Covers-MarkedBy :
    (id : ℕ) (m : Module) (at : ℕ) (d d' : Marks)
    → Covers d d'
    → MarkedBy id m at d
    → MarkedBy id m at d'
unfolding MarkedBy
Covers-MarkedBy id m at d d' f (t, e, h) = let (t', e', h') = f id m t e in (t', e', omega arith)

remark_each-Covers : (id at : ℕ) (ms : List Module) (d : Marks) → Covers d (remark_each id at ms d)
unfolding remark_each
remark_each-Covers id at [] d = Covers-refl d
remark_each-Covers id at (m ∷ ms) d =
    let d' = remark_one id at m d in
    Covers-trans d d' (remark_each id at ms d') (remark_one-Covers id at m d)
      (remark_each-Covers id at ms d')

remark_each-MarkedBy :
    (id at : ℕ) (m : Module) (ms : List Module) (d : Marks)
    → Has m ms
    → MarkedBy id m at (remark_each id at ms d)
unfolding remark_each
remark_each-MarkedBy id at m [] d h = absurd h
remark_each-MarkedBy id at m (x ∷ ms) d (inl e) =
    let d' = remark_one id at x d in
    Covers-MarkedBy id m at d' (remark_each id at ms d') (remark_each-Covers id at ms d')
      (subst (λ y. MarkedBy id y at d') (sym e) (remark_one-MarkedBy id at x d))
remark_each-MarkedBy id at m (x ∷ ms) d (inr h) =
    remark_each-MarkedBy id at m ms (remark_one id at x d) h

-- What the re-marking of one item uses as its time.
abbrev since : ℕ → Item → ℕ
since now e = if e.dirty_at == 0 then now else e.dirty_at

pub remark-Covers : (now : ℕ) (es : List Item) (d : Marks) → Covers d (remark now es d)
unfolding remark
remark-Covers now [] d = Covers-refl d
remark-Covers now (e ∷ es) d =
    let d' = remark_each e.id (since now e) e.modules d in
    Covers-trans d d' (remark now es d') (remark_each-Covers e.id (since now e) e.modules d)
      (remark-Covers now es d')

since-exact : (now : ℕ) (e : Item) → 0 < e.dirty_at → since now e ≡ e.dirty_at
since-exact now e h = ground arith

-- An item that is marked again has each of its modules marked, from its own time or an earlier one.
pub remark-Has :
    (now : ℕ) (e : Item) (m : Module) (es : List Item) (d : Marks)
    → Has e es
    → Has m e.modules
    → 0 < e.dirty_at
    → (t : ℕ) × (remark now es d e.id m ≡ some t) × (t ≤ e.dirty_at)
unfolding remark MarkedBy
remark-Has now e m [] d h hm z = absurd h
remark-Has now e m (x ∷ es) d (inl same) hm z =
    let d' = remark_each x.id (since now x) x.modules d in
    let first : MarkedBy e.id m e.dirty_at (remark_each e.id (since now e) e.modules d) =
      subst (λ at. MarkedBy e.id m at (remark_each e.id (since now e) e.modules d))
        (since-exact now e z) (remark_each-MarkedBy e.id (since now e) m e.modules d hm) in
    Covers-MarkedBy e.id m e.dirty_at d' (remark now es d') (remark-Covers now es d') (
      subst (λ y. MarkedBy e.id m e.dirty_at (remark_each y.id (since now y) y.modules d)) same
        first)
remark-Has now e m (x ∷ es) d (inr h) hm z =
    remark-Has now e m es (remark_each x.id (since now x) x.modules d) h hm z

pub mark_each-Has :
    (now id : ℕ) (m : Module) (ms : List Module) (d : Marks)
    → Has m ms
    → (t : ℕ) × (mark_each now id ms d id m ≡ some t)
unfolding mark_each mark
mark_each-Has now id m [] d h = absurd h
mark_each-Has now id m (x ∷ ms) d (inl e) =
    let (t, q) = marked (d id x) refl in
    let (t', q', l) = mark_each-Covers now id ms (mark now id x d) id x t q in
    (t', ap (λ y. mark_each now id ms (mark now id x d) id y) e ∙ q')
  where
    marked :
        (o : Option ℕ)
        → d id x ≡ o
        → (t : ℕ) × ((if is_some o then d else put id x (some now) d) id x ≡ some t)
    marked none q = (now, put-same id x (some now) d)
    marked (some t) q = (t, q)
mark_each-Has now id m (x ∷ ms) d (inr h) = mark_each-Has now id m ms (mark now id x d) h
