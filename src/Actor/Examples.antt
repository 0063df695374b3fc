-- ===== src/Actor/Examples.antt =====
-- pkg/shard/actor.go: runs of an actor with room for four tasks.
use f.Prelude.{◌≡◌, refl, some, [], ◌∷◌, ◌++◌}
use f.Actor.{
  request, fencing, graceful, first, looping, draining, ended, Actor, start, post, exec, exec_as,
  leave, finish, close, posts, stops, takes, leaves, drains, closes, Steps, here, later,
}
use f.Actor.Order.{Steps-IsOrdered, IsOrdered}
use f.Actor.Drained.{Steps-finish}
use f.Actor.Stuck.{exec-Hangs, Hangs}

-- Two requests arrive, the actor is stopped gracefully and works them off.
abbrev served : Actor
served = record start {
  quit = some graceful;
  place = draining;
  posted = request 1 ∷ request 2 ∷ [];
  executed = request 1 ∷ request 2 ∷ [];
}

served-reached : Steps 4 start served
unfolding post exec exec_as leave
served-reached =
    later
      (later
        (later
          (later (later (later here (posts (request 1))) (posts (request 2)))
            (takes (request 1) (request 2 ∷ []) refl refl refl))
          (stops graceful))
        (leaves graceful refl refl refl))
      (drains (request 2) [] refl refl refl)

Steps-IsOrdered_example : IsOrdered 4 served
Steps-IsOrdered_example = Steps-IsOrdered 4 served served-reached

-- A request comes between the last look at the mailbox and the end.
abbrev over : Actor
over = record served {
  mbox = request 3 ∷ [];
  place = ended;
  posted = request 1 ∷ request 2 ∷ request 3 ∷ [];
  closed = some (graceful, request 3 ∷ []);
}

over-reached : Steps 4 (finish served) over
unfolding post finish close
over-reached = later (later here (posts (request 3))) (closes refl)

Steps-finish_example : (over.executed ≡ served.posted) × (served.posted ++ over.mbox ≡ over.posted)
Steps-finish_example = Steps-finish 4 served over served-reached refl over-reached

-- An actor that is about to learn that its shard has a new owner.
abbrev outdated : Actor
outdated = record start { mbox = fencing ∷ request 3 ∷ []; posted = fencing ∷ request 3 ∷ [] }

exec-Hangs_example :
    (let a = exec fencing (request 3 ∷ []) outdated in
      let b = (post 4 (request 8) (record a { quit = first a.quit graceful })).0 in
      Hangs a b × (b.executed ≡ fencing ∷ []) × (b.place ≡ looping))
exec-Hangs_example =
    let a = exec fencing (request 3 ∷ []) outdated in
    exec-Hangs 4 (request 3 ∷ []) outdated
      (post 4 (request 8) (record a { quit = first a.quit graceful })).0 refl refl refl
      (later (later here (stops graceful)) (posts (request 8)))
