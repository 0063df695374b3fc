-- ===== src/Actor/Stuck.antt =====
-- pkg/shard/actor.go: an actor that stops itself.
use f.Prelude.{ℕ, ◌≡◌, refl, sym, subst, arith, ◌∙◌, inl, inr, List, true, false, [], ◌∷◌, ◌++◌}
use f.Actor.{
  Task, fencing, looping, emptied, ended, Actor, exec, exec_as, fence_from, stop_from, Step, posts,
  drops, unhosts, stops, takes, leaves, drains, finishes, closes, wakes, Steps, here, later,
}
use f.Actor.Order.{post-cases}

-- The goroutine waits and is not at its end, nothing more is executed, and the state is not closed.
abbrev pub Hangs : Actor → Actor → Type 0
Hangs a b =
    (b.waiting ≡ true) × (b.place ≡ a.place) × (b.executed ≡ a.executed) × (b.closed ≡ a.closed)

true≢false : true ≡ false → ⊥
true≢false h = cc h

Step-Hangs :
    (size : ℕ) (a b c : Actor)
    → (a.place ≡ emptied → ⊥)
    → (a.place ≡ ended → ⊥)
    → Hangs a b
    → Step size b c
    → Hangs a c
Step-Hangs size a b c n m h (posts t) = elim (post-cases size t b) [
  | inl (room, q) ↦ subst (Hangs a) (sym q) h
  | inr q ↦ subst (Hangs a) (sym q) h
]
Step-Hangs size a b c n m h drops = h
Step-Hangs size a b c n m h unhosts = h
Step-Hangs size a b c n m h (stops r) = h
Step-Hangs size a b c n m h (takes t ts w p q) = absurd (true≢false (sym h.0 ∙ w))
Step-Hangs size a b c n m h (leaves r w p q) = absurd (true≢false (sym h.0 ∙ w))
Step-Hangs size a b c n m h (drains t ts w p q) = absurd (true≢false (sym h.0 ∙ w))
Step-Hangs size a b c n m h (finishes w p q) = absurd (true≢false (sym h.0 ∙ w))
Step-Hangs size a b c n m h (closes p) = absurd (n (sym h.1 ∙ p))
Step-Hangs size a b c n m h (wakes w p) = absurd (m (sym h.1 ∙ p))

Steps-Hangs :
    (size : ℕ) (a b : Actor)
    → (a.place ≡ emptied → ⊥)
    → (a.place ≡ ended → ⊥)
    → a.waiting ≡ true
    → Steps size a b
    → Hangs a b
Steps-Hangs size a b n m w here = (w, refl, refl, refl)
Steps-Hangs size a b n m w (later s t) = Step-Hangs size a _ b n m (Steps-Hangs size a _ n m w s) t

exec-waits :
    (ts : List Task) (a : Actor)
    → a.owned ≡ true
    → a.hosted ≡ true
    → ((exec fencing ts a).waiting ≡ true)
      × ((exec fencing ts a).place ≡ a.place)
      × ((exec fencing ts a).executed ≡ a.executed ++ (fencing ∷ []))
unfolding exec exec_as fence_from stop_from
exec-waits ts a o h = (ground (arith, o, h), ground (arith, o, h), ground (arith, o, h))

-- An actor of a shard that the claimer still has in `owned` and the runtime in `actors`, which
-- executes a closure that gives up its own shard, waits for ever for the end that it would have
-- to reach itself: whatever others do afterwards, it stays in that task, executes no other and
-- does not close its state.
pub exec-Hangs :
    (size : ℕ) (ts : List Task) (a b : Actor)
    → a.place ≡ looping
    → a.owned ≡ true
    → a.hosted ≡ true
    → Steps size (exec fencing ts a) b
    → Hangs (exec fencing ts a) b
      × (b.executed ≡ a.executed ++ (fencing ∷ []))
      × (b.place ≡ looping)
exec-Hangs size ts a b p o h s =
    let e = exec-waits ts a o h in
    let hangs =
      Steps-Hangs size (exec fencing ts a) b (λ q. cc (q, e.1, p)) (λ q. cc (q, e.1, p)) e.0 s in
    (hangs, hangs.2 ∙ e.2, hangs.1 ∙ e.1 ∙ p)
