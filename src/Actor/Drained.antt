-- ===== src/Actor/Drained.antt =====
-- pkg/shard/actor.go: what a graceful end has executed, and what it leaves.
use mathlib.Core.List.{append-nil}
use f.Prelude.{ℕ, ◌≡◌, refl, sym, subst, ap, ◌∙◌, inl, inr, ◌⊎◌, [], ◌++◌}
use f.Actor.{
  looping, draining, emptied, ended, Place, Actor, start, close, finish, Step, posts, drops,
  unhosts, stops, takes, leaves, drains, finishes, closes, wakes, Steps, here, later,
}
use f.Actor.Order.{post-cases, Steps-IsOrdered, later-IsOrdered}

-- The goroutine is past its last task.
abbrev IsOver : Actor → Actor → Type 0
IsOver a b = ((b.place ≡ emptied) ⊎ (b.place ≡ ended)) × (b.executed ≡ a.executed)

not_over : (p : Place) → (p ≡ looping) ⊎ (p ≡ draining) → (p ≡ emptied) ⊎ (p ≡ ended) → ⊥
not_over p (inl q) (inl h) = cc (q, h)
not_over p (inl q) (inr h) = cc (q, h)
not_over p (inr q) (inl h) = cc (q, h)
not_over p (inr q) (inr h) = cc (q, h)

Step-IsOver : (size : ℕ) (a b c : Actor) → IsOver a b → Step size b c → IsOver a c
Step-IsOver size a b c h (posts t) = elim (post-cases size t b) [
  | inl (room, q) ↦ subst (IsOver a) (sym q) h
  | inr q ↦ subst (IsOver a) (sym q) h
]
Step-IsOver size a b c h drops = h
Step-IsOver size a b c h unhosts = h
Step-IsOver size a b c h (stops r) = h
Step-IsOver size a b c (p, e) (takes t ts w q m) = absurd (not_over b.place (inl q) p)
Step-IsOver size a b c (p, e) (leaves r w q m) = absurd (not_over b.place (inl q) p)
Step-IsOver size a b c (p, e) (drains t ts w q m) = absurd (not_over b.place (inr q) p)
Step-IsOver size a b c (p, e) (finishes w q m) = absurd (not_over b.place (inr q) p)
Step-IsOver size a b c (p, e) (closes q) = unfold close in (inr refl, e)
Step-IsOver size a b c h (wakes w q) = h

Steps-IsOver : (size : ℕ) (a b : Actor) → IsOver a a → Steps size a b → IsOver a b
Steps-IsOver size a b h here = h
Steps-IsOver size a b h (later s t) = Step-IsOver size a _ b (Steps-IsOver size a _ h s) t

-- When `drain` has found the mailbox of a reached actor empty, every task that was accepted until
-- then has been executed, and whatever is accepted afterwards, before `Close` or later, is never
-- executed but left in the mailbox.
pub Steps-finish :
    (size : ℕ) (a b : Actor)
    → Steps size start a
    → a.mbox ≡ []
    → Steps size (finish a) b
    → (b.executed ≡ a.posted) × (a.posted ++ b.mbox ≡ b.posted)
unfolding finish
Steps-finish size a b s m t =
    let before = Steps-IsOrdered size a s in
    let after = later-IsOrdered size (finish a) b before t in
    let over = Steps-IsOver size (finish a) b (inl refl, refl) t in
    let all : a.executed ≡ a.posted =
      sym (append-nil a.executed) ∙ ap (λ ts. a.executed ++ ts) (sym m) ∙ before.0 in
    let done = over.1 ∙ all in (done, ap (λ ts. ts ++ b.mbox) (sym done) ∙ after.0)
