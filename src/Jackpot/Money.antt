-- ===== src/Jackpot/Money.antt =====
-- Where the money of pkg/jackpot/jackpot.go goes.
use f.Prelude.{
  ℕ, zero, suc, ◌+◌, ◌-◌, leb, ◌*◌, ◌/◌, ◌<◌, ◌≤◌, ◌≡◌, ap, ◌∙◌, arith, ℤ, pos, negsuc, pos_part,
  ltb_ℤ, if◌then◌else◌, true, some, Option-cases, Bool-cases, inl, inr, List, [], ◌∷◌, Result, ok,
  err, mul64, sub64, div64, ◌+ℤ◌, ◌-ℤ◌, ◌*ℤ◌, IsInt64, mul64-exact, sub64-exact, two63, -ℤ_parts,
  parts_disjoint, ◌⊎◌,
}
use f.Jackpot.{
  Payout, JackpotError, Cells, IsCells, Claimant, payout_of, level_or, contribution_of,
  script_contribute, contribute, amount_of, script_claim, settle_difference, claim, empty,
}

mul_le : (a b c : ℕ) → b ≤ c → a * b ≤ a * c
mul_le zero b c h = omega arith
mul_le (suc a) b c h = omega (arith, mul_le a b c h)

no_bet : (bet bp : ℕ) → ((bet ≡ 0) ⊎ (bp ≡ 0)) → bet * bp / 10000 ≡ 0
no_bet bet bp (inl z) = rw z (omega arith)
no_bet bet bp (inr z) = rw z (omega arith)

-- The sum of the positive amounts.
abbrev pub sum_of : List ℤ → ℕ
sum_of [] = 0
sum_of (d ∷ ds) = pos_part d + sum_of ds

-- A contribution, whose product of bet and share is an int64, is the share of the bet in
-- ten-thousandths, rounded down: never negative, and never more than the bet when the share is at
-- most the whole.
contribution_of-share :
    (bet bp : ℕ)
    → bet * bp < two63
    → (c : ℕ) × (contribution_of (pos bet) (pos bp) ≡ pos c)
      × (c * 10000 ≤ bet * bp)
      × (bet * bp < c * 10000 + 10000)
      × (bp ≤ 10000 → c ≤ bet)
unfolding contribution_of div64 ◌*ℤ◌
contribution_of-share bet bp h =
    let product : mul64 (pos bet) (pos bp) ≡ pos (bet * bp) =
      mul64-exact (pos bet) (pos bp) (ground (arith, h)) ∙ ground arith in
    (
      bet * bp / 10000,
      ground (arith, product, no_bet bet bp),
      omega arith,
      omega arith,
      λ le. omega (arith, mul_le bet bp 10000 le),
    )

module _ (C : Cells) where
  abbrev state_of : C.State → Result JackpotError (C.State × ℤ) → C.State
  state_of s (ok r) = r.0
  state_of s (err e) = s

  -- The pool after some contributions, one after another.
  abbrev pub contribute_all : ℤ → List ℤ → C.State → C.State
  contribute_all seed [] s = s
  contribute_all seed (d ∷ ds) s =
      contribute_all seed ds (state_of s (contribute C (some seed) d s))

-- The difference of two levels of a claim, and what it adds to the seed.
within :
    (seed cur n : ℕ)
    → seed < cur
    → cur < 9007199254740992
    → n < 9007199254740992
    → IsInt64 (pos n -ℤ pos cur) × IsInt64 (pos seed +ℤ (pos n -ℤ pos cur))
unfolding ◌+ℤ◌ ◌-ℤ◌
within seed cur n h e e' = (ground arith, ground arith)

on_top :
    (seed cur n : ℕ)
    → (if ltb_ℤ (pos cur) (pos n) then pos seed +ℤ (pos n -ℤ pos cur) else pos seed)
      ≡ pos (seed + (n - cur))
unfolding ◌+ℤ◌ ◌-ℤ◌
on_top seed cur n = ground arith

module _ (C : Cells) (L : IsCells C) where
  script_contribute-get :
      (seed d n : ℤ) (s : C.State)
      → C.get s ≡ some n
      → IsInt64 (n +ℤ d)
      → C.get (script_contribute C seed d s) ≡ some (n +ℤ d)
  unfolding script_contribute
  script_contribute-get seed d n s at fits = ground (arith, at, L.get-incr_by d n s at fits)

  settled-member :
      (seed n cur : ℤ) (p : Payout) (s : C.State)
      → C.is_member p s ≡ true
      → C.is_member p (settle_difference C seed n cur s) ≡ true
  unfolding settle_difference script_contribute
  settled-member seed n cur p s h =
      let d = sub64 n cur in
      ground (
        arith,
        h,
        L.is_member-incr_by d p s,
        L.is_member-incr_by d p (C.set seed s),
        L.is_member-set seed p s,
      )

  settled-get :
      (seed n cur : ℤ) (s : C.State)
      → IsInt64 (n -ℤ cur)
      → IsInt64 (seed +ℤ (n -ℤ cur))
      → C.get s ≡ some seed
      → C.get (settle_difference C seed n cur s)
        ≡ some (if ltb_ℤ cur n then seed +ℤ (n -ℤ cur) else seed)
  unfolding settle_difference
  settled-get seed n cur s d64 s64 at =
      let same = sub64-exact n cur d64 in
      rw same (
        ground (
          arith,
          at,
          -ℤ_parts n cur,
          parts_disjoint (n -ℤ cur),
          script_contribute-get seed (n -ℤ cur) seed s at s64,
        ))

  -- A claim that has read the level `cur`, above the seed, when other processes have meanwhile
  -- brought it to `n`, both below 2^53: it is refused, and changes nothing, when no more than the
  -- seed is left. Otherwise it pays `cur`, the payout is due in the index, and the pool holds the
  -- seed and what had come on top of `cur`.
  pub claim_lem :
      (seed cur n : ℕ) (c : Claimant) (between : C.State → C.State) (s : C.State)
      → seed < cur
      → cur < 9007199254740992
      → n < 9007199254740992
      → C.get s ≡ some (pos cur)
      → C.get (between s) ≡ some (pos n)
      → ((n ≤ seed) × (claim C (some (pos seed)) c between s ≡ (between s, err empty)))
        ⊎ ((seed < n)
            × ((s' : C.State) × (claim C (some (pos seed)) c between s
                  ≡ (s', ok (payout_of c (pos cur))))
                × (C.is_member (payout_of c (pos cur)) s' ≡ true)
                × (C.get s' ≡ some (pos (seed + (n - cur))))))
  unfolding claim amount_of script_claim
  claim_lem seed cur n c between s rich exact exact' at later =
      let seed_number = L.number seed (omega (arith, rich, exact)) in
      let n_number = L.number n exact' in
      elim (Bool-cases (leb n seed)) [
        | inl poor ↦
            inl (ground (arith, poor), ground (arith, at, later, poor, rich, seed_number, n_number))
        | inr enough ↦
            let p = payout_of c (pos cur) in
            let s1 = C.zadd (C.to_number c.now) p (C.set (pos seed) (between s)) in
            let (d64, s64) = within seed cur n rich exact exact' in
            inr (
              ground (arith, enough),
              (
                settle_difference C (pos seed) (pos n) (pos cur) s1,
                ground (arith, at, later, enough, rich, seed_number, n_number),
                settled-member (pos seed) (pos n) (pos cur) p s1
                    (L.is_member-zadd (C.to_number c.now) p (C.set (pos seed) (between s))),
                settled-get (pos seed) (pos n) (pos cur) s1 d64 s64 (
                      L.get-zadd (C.to_number c.now) p (C.set (pos seed) (between s))
                      ∙ L.get-set (pos seed) (between s))
                    ∙ ap some (on_top seed cur n),
              ),
            )
      ]

  contribute-get :
      (seed d : ℤ) (n : ℕ) (s : C.State)
      → level_or seed (C.get s) ≡ pos n
      → n + pos_part d < two63
      → level_or seed (C.get (state_of C s (contribute C (some seed) d s))) ≡ pos (n + pos_part d)
  unfolding contribute script_contribute ◌+ℤ◌
  contribute-get seed (negsuc d) n s at fits = ground (arith, at)
  contribute-get seed (pos d) n s at fits = elim (Option-cases (C.get s)) [
    | inl absent ↦
        let start : seed ≡ pos n = ground (arith, at, absent) in
        ground (
          arith,
          absent,
          start,
          L.get-incr_by (pos d) seed (C.set seed s) (L.get-set seed s) (ground (arith, start)),
        )
    | inr (m, present) ↦
        let start : m ≡ pos n = ground (arith, at, present) in
        ground (arith, present, start, L.get-incr_by (pos d) m s present (ground (arith, start)))
  ]

  -- While the level stays below 2^63, the pool grows by exactly the positive contributions, from
  -- the seed if it is new.
  pub contribute_all-sum :
      (seed : ℤ) (n : ℕ) (ds : List ℤ) (s : C.State)
      → level_or seed (C.get s) ≡ pos n
      → n + sum_of ds < two63
      → amount_of C (some seed) (contribute_all C seed ds s) ≡ pos (n + sum_of ds)
  unfolding amount_of
  contribute_all-sum seed n [] s at fits = at ∙ ap pos (omega arith)
  contribute_all-sum seed n (d ∷ ds) s at fits =
      contribute_all-sum seed (n + pos_part d) ds (state_of C s (contribute C (some seed) d s))
        (contribute-get seed d n s at (omega arith)) (omega arith)
      ∙ ap pos (omega arith)
