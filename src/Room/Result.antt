-- ===== src/Room/Result.antt =====
-- internal/room/room.go: who wins a battle.
use f.Prelude.{
  ℕ, ◌+◌, ◌<◌, ◌≡◌, refl, sym, subst, arith, Bool, true, false, ◌||◌, Bool-cases, if_cases, inl,
  inr, ◌⊎◌, List, [], ◌∷◌, length, All, ℤ, pos, ltb_ℤ, eqb_ℤ, eqb_ℤ_sound, ◌≤ℤ◌, ◌<ℤ◌,
}
use f.Room.{Room, best_from, divide, result}
use f.Room.Members.{count}

-- The best score is no lower than where the loop starts and than any that it sees.
best_from-upper :
    (s : ℕ → ℤ) (best : ℤ) (first : Bool) (us : List ℕ)
    → (let b = best_from s best first us in All (λ u. s u ≤ℤ b) us × (first ≡ false → best ≤ℤ b))
unfolding best_from
best_from-upper s best first [] = (tt, λ e. omega arith)
best_from-upper s best first (u ∷ us) =
    let (seen, above) = best_from-upper s (s u) false us in
    let (all, more) = best_from-upper s best first us in
    let P : ℤ → Type 0 = λ b. All (λ v. s v ≤ℤ b) (u ∷ us) × (first ≡ false → best ≤ℤ b) in
    if_cases P (first || ltb_ℤ best (s u)) (best_from s (s u) false us) (best_from s best first us)
      (λ c. ((above refl, seen), λ e. ground (arith, above refl, c, e)))
      (λ c. ((ground (arith, more, c), all), more))

divide-count :
    (s : ℕ → ℤ) (b : ℤ) (us : List ℕ) (u : ℕ)
    → (let d = divide s b us in count u d.0 + count u d.1 ≡ count u us)
unfolding divide
divide-count s b [] u = refl
divide-count s b (v ∷ us) u = elim (Bool-cases (eqb_ℤ (s v) b)) [
  | inl c ↦ rw c (omega (arith, divide-count s b us u))
  | inr c ↦ rw c (omega (arith, divide-count s b us u))
]

divide-winners : (s : ℕ → ℤ) (b : ℤ) (us : List ℕ) → All (λ u. s u ≡ b) (divide s b us).0
unfolding divide
divide-winners s b [] = tt
divide-winners s b (v ∷ us) = elim (Bool-cases (eqb_ℤ (s v) b)) [
  | inl c ↦ rw c (eqb_ℤ_sound (s v) b c, divide-winners s b us)
  | inr c ↦ rw c (divide-winners s b us)
]

divide-losers :
    (s : ℕ → ℤ) (b : ℤ) (us : List ℕ)
    → All (λ u. s u ≤ℤ b) us
    → All (λ u. s u <ℤ b) (divide s b us).1
unfolding divide
divide-losers s b [] h = tt
divide-losers s b (v ∷ us) h = elim (Bool-cases (eqb_ℤ (s v) b)) [
  | inl c ↦ rw c (divide-losers s b us h.1)
  | inr c ↦ rw c (ground (arith, h.0, c), divide-losers s b us h.1)
]

-- Who has the best score is a winner, and one more member takes no winner away.
divide-first :
    (s : ℕ → ℤ) (b : ℤ) (u : ℕ) (us : List ℕ)
    → (s u ≡ b) ⊎ (0 < length (divide s b us).0)
    → 0 < length (divide s b (u ∷ us)).0
unfolding divide
divide-first s b u us h = elim (Bool-cases (eqb_ℤ (s u) b)) [
  | inl c ↦ rw c (omega arith)
  | inr c ↦ rw c (elim h [ inl q ↦ absurd (ground (arith, c, q)) | inr more ↦ more ])
]

-- The best score is that of some winner, or the one where the loop starts.
best_from-reached :
    (s : ℕ → ℤ) (best : ℤ) (first : Bool) (us : List ℕ)
    → (let b = best_from s best first us in
        (0 < length (divide s b us).0) ⊎ ((b ≡ best) × (first ≡ true → us ≡ [])))
unfolding best_from
best_from-reached s best first [] = inr (refl, λ e. refl)
best_from-reached s best first (u ∷ us) =
    let P : ℤ → Type 0 =
      λ b. (0 < length (divide s b (u ∷ us)).0) ⊎ ((b ≡ best) × (first ≡ true → (u ∷ us) ≡ [])) in
    if_cases P (first || ltb_ℤ best (s u)) (best_from s (s u) false us) (best_from s best first us)
      (λ c. inl (
        divide-first s _ u us (elim (best_from-reached s (s u) false us) [
          | inl more ↦ inr more
          | inr (same, e) ↦ inl (sym same)
        ])))
      (λ c. elim (best_from-reached s best first us) [
        | inl more ↦ inl (divide-first s _ u us (inr more))
        | inr (same, e) ↦ inr (same, λ f. absurd (ground (arith, c, f)))
      ])

All-each : (Q R : ℕ → Type 0) (vs : List ℕ) → ((v : ℕ) → Q v → R v) → All Q vs → All R vs
All-each Q R [] f q = tt
All-each Q R (v ∷ vs) f (q, qs) = (f v q, All-each Q R vs f qs)

All-both :
    (P Q : ℕ → Type 0) (R : ℕ → ℕ → Type 0) (us vs : List ℕ)
    → ((u v : ℕ) → P u → Q v → R u v)
    → All P us
    → All Q vs
    → All (λ u. All (R u) vs) us
All-both P Q R [] vs f p q = tt
All-both P Q R (u ∷ us) vs f (p, ps) q =
    (All-each Q (R u) vs (λ v h. f u v p h) q, All-both P Q R us vs f ps q)

-- The result of a battle makes every member a winner or a loser, as often as a member, has a
-- winner when there is a member, has no member above a winner, and every loser below every
-- winner.
pub result_lem :
    (r : Room)
    → (let b = result r in
        let s = r.scores in
        ((u : ℕ) → count u b.winners + count u b.losers ≡ count u r.members)
        × (0 < length r.members → 0 < length b.winners)
        × All (λ w. All (λ m. s m ≤ℤ s w) r.members) b.winners
        × All (λ l. All (λ w. s l <ℤ s w) b.winners) b.losers)
unfolding result
result_lem r =
    let s = r.scores in
    let us = r.members in
    let b = best_from s (pos 0) true us in
    let upper = (best_from-upper s (pos 0) true us).0 in
    let top = divide-winners s b us in
    (
      divide-count s b us,
      λ z. elim (best_from-reached s (pos 0) true us) [
        | inl more ↦ more
        | inr (same, e) ↦
            absurd (subst (λ ms. 0 < length ms → ⊥) (sym (e refl)) (λ n. omega arith) z)
      ],
      All-both (λ w. s w ≡ b) (λ m. s m ≤ℤ b) (λ w m. s m ≤ℤ s w) (divide s b us).0 us
          (λ w m q h. rw q h) top upper,
      All-both (λ l. s l <ℤ b) (λ w. s w ≡ b) (λ l w. s l <ℤ s w) (divide s b us).1
          (divide s b us).0 (λ l w h q. rw q h) (divide-losers s b us upper) top,
    )
