-- ===== src/Actor/Order.antt =====
-- pkg/shard/actor.go: the order of the tasks.
use mathlib.Core.List.{append_assoc}
use f.Prelude.{
  ℕ, ◌≤◌, ◌≡◌, refl, sym, ap, subst, ◌∙◌, arith, ltb, true, Bool-cases, inl, inr, ◌⊎◌, List, [],
  ◌∷◌, ◌++◌, length, length-append,
}
use f.Actor.{
  Task, request, closure, fencing, Reason, graceful, fenced, lease_lost, start_failed, Actor, start,
  post, exec, exec_as, leave, close, finish, fence_from, stop_from, Step, posts, drops, unhosts,
  stops, takes, leaves, drains, finishes, closes, wakes, Steps, here, later,
}

abbrev pub IsOrdered : ℕ → Actor → Type 0
IsOrdered size a = (a.executed ++ a.mbox ≡ a.posted) × (length a.mbox ≤ size)

-- A task that is posted is in the mailbox, or the mailbox is full.
pub post-cases :
    (size : ℕ) (t : Task) (a : Actor)
    → ((ltb (length a.mbox) size ≡ true)
        × ((post size t a).0
            ≡ record a { mbox = a.mbox ++ (t ∷ []); posted = a.posted ++ (t ∷ []) }))
      ⊎ ((post size t a).0 ≡ a)
unfolding post
post-cases size t a = elim (Bool-cases (ltb (length a.mbox) size)) [
  | inl e ↦ inl (e, rw e refl)
  | inr e ↦ inr (rw e refl)
]

-- What a task does to the actor leaves the mailbox and what has been executed.
exec_as-same :
    (t : Task) (a : Actor)
    → ((exec_as t a).executed ≡ a.executed)
      × ((exec_as t a).mbox ≡ a.mbox)
      × ((exec_as t a).posted ≡ a.posted)
unfolding exec_as fence_from stop_from
exec_as-same (request m) a = (refl, refl, refl)
exec_as-same (closure c) a = (refl, refl, refl)
exec_as-same fencing a = (ground arith, ground arith, ground arith)

pub exec-IsOrdered :
    (size : ℕ) (t : Task) (ts : List Task) (a : Actor)
    → a.mbox ≡ t ∷ ts
    → IsOrdered size a
    → IsOrdered size (exec t ts a)
unfolding exec
exec-IsOrdered size t ts a m (e, l) =
    let a' : Actor = record a { mbox = ts; executed = a.executed ++ (t ∷ []) } in
    let (x, y, z) = exec_as-same t a' in
    rw x (
      rw y (
        rw z (
          append_assoc a.executed (t ∷ []) ts ∙ ap (λ ms. a.executed ++ ms) (sym m) ∙ e,
          omega (arith, ap length m),
        )))

leave-IsOrdered :
    (size : ℕ) (r : Reason) (a : Actor) → IsOrdered size a → IsOrdered size (leave r a)
unfolding leave
leave-IsOrdered size graceful a h = h
leave-IsOrdered size fenced a h = h
leave-IsOrdered size lease_lost a h = h
leave-IsOrdered size start_failed a h = h

post-IsOrdered :
    (size : ℕ) (t : Task) (a : Actor) → IsOrdered size a → IsOrdered size (post size t a).0
post-IsOrdered size t a (e, l) = elim (post-cases size t a) [
  | inl (room, q) ↦ subst (IsOrdered size) (sym q) (
    sym (append_assoc a.executed a.mbox (t ∷ [])) ∙ ap (λ ts. ts ++ (t ∷ [])) e,
    ground (arith, room, length-append a.mbox (t ∷ [])),
  )
  | inr q ↦ subst (IsOrdered size) (sym q) (e, l)
]

Step-IsOrdered : (size : ℕ) (a b : Actor) → IsOrdered size a → Step size a b → IsOrdered size b
Step-IsOrdered size a b h (posts t) = post-IsOrdered size t a h
Step-IsOrdered size a b h drops = h
Step-IsOrdered size a b h unhosts = h
Step-IsOrdered size a b h (stops r) = h
Step-IsOrdered size a b h (takes t ts w p m) = exec-IsOrdered size t ts a m h
Step-IsOrdered size a b h (leaves r w p q) = leave-IsOrdered size r a h
Step-IsOrdered size a b h (drains t ts w p m) = exec-IsOrdered size t ts a m h
Step-IsOrdered size a b h (finishes w p m) = unfold finish in h
Step-IsOrdered size a b h (closes p) = unfold close in h
Step-IsOrdered size a b h (wakes w p) = h

pub later-IsOrdered :
    (size : ℕ) (a b : Actor) → IsOrdered size a → Steps size a b → IsOrdered size b
later-IsOrdered size a b h here = h
later-IsOrdered size a b h (later s t) = Step-IsOrdered size _ b (later-IsOrdered size a _ h s) t

-- In any interleaving of posts, stops and the actor's own steps, the tasks that were executed and
-- those in the mailbox are together the accepted ones in their order, and the mailbox stays
-- within its size.
pub Steps-IsOrdered : (size : ℕ) (a : Actor) → Steps size start a → IsOrdered size a
Steps-IsOrdered size a s = later-IsOrdered size start a (refl, omega arith) s
