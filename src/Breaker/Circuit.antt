-- ===== src/Breaker/Circuit.antt =====
-- The state of the circuit breaker of pkg/idp/breaker.go under any interleaving of its operations.
use f.Prelude.{
  ℕ, suc, ◌+◌, ◌<◌, ◌≤◌, ◌≡◌, refl, arith, ℤ, pos, pos_part, neg_part, ◌<ℤ◌, ◌≤ℤ◌, ltb_ℤ,
  if◌then◌else◌, true, false, Option, none, some, Option-cases, Bool-cases, inl, inr,
  parts_disjoint, subst, sym, ap, All, List, [], ◌∷◌, length, add64, add64-exact, ◌+ℤ◌, two63,
  +ℤ_parts,
}
use f.Breaker.{Breaker, new, allow, success, fail}

-- Closed, it has fewer failures than the threshold and no probe; open, it has at least as many.
pub record IsBreaker (b : Breaker) : Type 0 where
  pub threshold_pos : pos 0 <ℤ b.threshold
  pub cooldown_pos : pos 0 <ℤ b.cooldown
  pub fails_pos : pos 0 ≤ℤ b.fails
  pub closed : b.open_till ≡ none → (b.fails <ℤ b.threshold) × (b.probing ≡ false)
  pub opened : (till : ℤ) → b.open_till ≡ some till → b.threshold ≤ℤ b.fails

pub new-IsBreaker : (threshold cooldown : ℤ) → IsBreaker (new threshold cooldown)
unfolding new
new-IsBreaker threshold cooldown = record {
  threshold_pos = ground arith;
  cooldown_pos = ground arith;
  fails_pos = ground arith;
  closed = λ h. ground arith;
  opened = λ till h. ground (arith, h);
}

fails-next :
    (b : Breaker)
    → IsBreaker b
    → pos_part b.fails + 1 < two63
    → (pos_part (add64 b.fails (pos 1)) ≡ pos_part b.fails + 1)
      × (neg_part (add64 b.fails (pos 1)) ≡ 0)
fails-next b v h =
    let sum = b.fails +ℤ pos 1 in
    let parts : (pos_part sum ≡ pos_part b.fails + 1) × (neg_part sum ≡ 0) = (
      omega (
        arith,
        +ℤ_parts b.fails (pos 1),
        v.fails_pos,
        parts_disjoint sum,
        parts_disjoint b.fails,
      ),
      omega (
        arith,
        +ℤ_parts b.fails (pos 1),
        v.fails_pos,
        parts_disjoint sum,
        parts_disjoint b.fails,
      ),
    ) in
    rw (add64-exact b.fails (pos 1) (omega (arith, parts), omega (arith, parts))) parts

-- One operation, by any request.
pub data Event : Type 0 where
  allowing failing : ℤ → Event
  succeeding : Event

abbrev pub apply : Event → Breaker → Breaker
apply (allowing now) b = (allow now b).0
apply (failing now) b = fail now b
apply succeeding b = success b

abbrev pub apply_all : List Event → Breaker → Breaker
apply_all [] b = b
apply_all (e ∷ es) b = apply_all es (apply e b)

allow-IsBreaker :
    (now : ℤ) (b : Breaker)
    → IsBreaker b
    → IsBreaker (allow now b).0 × ((allow now b).0.fails ≡ b.fails)
unfolding allow
allow-IsBreaker now b v = elim (Option-cases b.open_till) [
  | inl closed ↦
      let same : (allow now b).0 ≡ b = ground (arith, closed) in
      (subst IsBreaker (sym same) v, ap (λ (x : Breaker). x.fails) same)
  | inr (till, open_now) ↦ elim (Bool-cases (allow now b).1) [
    | inr refused ↦
        let same : (allow now b).0 ≡ b = ground (arith, open_now, refused) in
        (subst IsBreaker (sym same) v, ap (λ (x : Breaker). x.fails) same)
    | inl probe ↦
        let after : (allow now b).0 ≡ record b { probing = true } =
          ground (arith, open_now, probe) in
        (
          subst IsBreaker (sym after) (record {
            threshold_pos = v.threshold_pos;
            cooldown_pos = v.cooldown_pos;
            fails_pos = v.fails_pos;
            closed = λ h. ground (arith, h, open_now);
            opened = v.opened;
          }),
          ap (λ (x : Breaker). x.fails) after,
        )
  ]
]

fail-IsBreaker :
    (now : ℤ) (b : Breaker)
    → IsBreaker b
    → pos_part b.fails + 1 < two63
    → IsBreaker (fail now b) × (pos_part (fail now b).fails ≤ pos_part b.fails + 1)
unfolding fail
fail-IsBreaker now b v h =
    let next = fails-next b v h in
    elim (Bool-cases (ltb_ℤ (add64 b.fails (pos 1)) b.threshold)) [
      | inl few ↦ (
        record {
          threshold_pos = ground (arith, few, v.threshold_pos);
          cooldown_pos = ground (arith, few, v.cooldown_pos);
          fails_pos = ground (arith, few, next);
          closed = λ c. (ground (arith, few), ground (arith, few));
          opened = λ till o. ground (arith, few, next, v.opened till (ground (arith, few, o)));
        },
        ground (arith, few, next),
      )
      | inr many ↦ (
        record {
          threshold_pos = ground (arith, many, v.threshold_pos);
          cooldown_pos = ground (arith, many, v.cooldown_pos);
          fails_pos = ground (arith, many, next);
          closed = λ c. ground (arith, many, c);
          opened = λ till o. ground (arith, many);
        },
        ground (arith, many, next),
      )
    ]

event-IsBreaker :
    (e : Event) (b : Breaker)
    → IsBreaker b
    → pos_part b.fails + 1 < two63
    → IsBreaker (apply e b) × (pos_part (apply e b).fails ≤ pos_part b.fails + 1)
unfolding success
event-IsBreaker (allowing now) b v h =
    let (after, same) = allow-IsBreaker now b v in (after, omega (arith, ap pos_part same))
event-IsBreaker (failing now) b v h = fail-IsBreaker now b v h
event-IsBreaker succeeding b v h = (
  record {
    threshold_pos = v.threshold_pos;
    cooldown_pos = v.cooldown_pos;
    fails_pos = omega arith;
    closed = λ c. (v.threshold_pos, refl);
    opened = λ till o. absurd (none_some o);
  },
  omega arith,
)
  where
    none_some : {A : Type 0} {a : A} → ◌≡◌ {A = Option A} none (some a) → ⊥
    none_some h = cc h

events-IsBreaker :
    (es : List Event) (b : Breaker)
    → IsBreaker b
    → pos_part b.fails + length es < two63
    → IsBreaker (apply_all es b)
events-IsBreaker [] b v h = v
events-IsBreaker (e ∷ es) b v h =
    let (after, few) = event-IsBreaker e b v (omega arith) in
    events-IsBreaker es (apply e b) after (omega (arith, few))

fresh : (t c : ℤ) → (new t c).fails ≡ pos 0
unfolding new
fresh t c = refl

-- Whatever operations a new breaker sees, fewer than 2^63 and in whatever order, it stays well
-- formed: it is closed exactly when its count of failures is below the threshold, and has a probe
-- only while open.
pub reached-IsBreaker :
    (threshold cooldown : ℤ) (es : List Event)
    → length es < two63
    → IsBreaker (apply_all es (new threshold cooldown))
reached-IsBreaker threshold cooldown es h =
    events-IsBreaker es (new threshold cooldown) (new-IsBreaker threshold cooldown)
      (rw (fresh threshold cooldown) (omega arith))

-- How many of the requests at these times are let through, when none of them reports back.
abbrev pub let_through : List ℤ → Breaker → ℕ
let_through [] b = 0
let_through (now ∷ nows) b =
    let rest = let_through nows (allow now b).0 in if (allow now b).1 then suc rest else rest

none_through :
    (nows : List ℤ) (till : ℤ) (b : Breaker)
    → b.open_till ≡ some till
    → b.probing ≡ true
    → let_through nows b ≡ 0
unfolding allow
none_through [] till b o p = refl
none_through (now ∷ nows) till b o p = ground (arith, o, p, none_through nows till b o p)

-- Of any number of requests to an open breaker, at any times, at most one is let through until
-- one reports back, and none before the cooldown is over.
pub let_through-probe :
    (nows : List ℤ) (till : ℤ) (b : Breaker)
    → b.open_till ≡ some till
    → (let_through nows b ≤ 1) × (All (λ now. now <ℤ till) nows → let_through nows b ≡ 0)
unfolding allow
let_through-probe [] till b o = (omega arith, λ a. refl)
let_through-probe (now ∷ nows) till b o = elim (Bool-cases (ltb_ℤ now till)) [
  | inl early ↦
      let same : allow now b ≡ (b, false) = ground (arith, o, early) in
      rw same ((let_through-probe nows till b o).0, λ a. (let_through-probe nows till b o).1 a.1)
  | inr late ↦ elim (Bool-cases b.probing) [
    | inl busy ↦
        let same : allow now b ≡ (b, false) = ground (arith, o, late, busy) in
        rw same ((let_through-probe nows till b o).0, λ a. (let_through-probe nows till b o).1 a.1)
    | inr free ↦
        let probe : allow now b ≡ (record b { probing = true }, true) =
          ground (arith, o, late, free) in
        rw probe (
          omega (arith, none_through nows till (record b { probing = true }) o refl),
          λ a. absurd (ground (arith, late, a.0)),
        )
  ]
]
