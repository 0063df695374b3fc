-- ===== src/Actor.antt =====
-- pkg/shard/actor.go: the mailbox of a shard, the goroutine that works it off, and its stop. A request
-- and a closure are tasks; a closure that has been refused as outdated calls `Fence` of
-- pkg/shard/claim.go, which stops the actor from its own goroutine. What the tasks do to the shard's
-- state is in f.Lobby.Shard; a panic ends one task. The timer is left out.
pub mod Order
pub mod Stuck
pub mod Drained
mod Examples
use f.Prelude.{
  ℕ, ◌≡◌, ◌<◌, ltb, if◌then◌else◌, Bool, true, false, Option, none, some, List, [], ◌∷◌, ◌++◌,
  length,
}

pub data Task : Type 0 where
  request closure : ℕ → Task
  fencing : Task

pub data Reason : Type 0 where
  graceful fenced lease_lost start_failed : Reason

-- Where the goroutine is: in its loop, working off the mailbox before a graceful end, between the empty
-- mailbox that ends this and `Close`, or at its end.
pub data Place : Type 0 where
  looping draining emptied ended : Place

pub record Actor : Type 0 where
  pub mbox : List Task
  -- The reason that `stop` has left, once `quit` is closed.
  pub quit : Option Reason
  pub place : Place
  -- Whether the goroutine waits in `stop` for `done`, which it closes itself at its end.
  pub waiting : Bool
  -- Whether the claimer has the shard in `owned`, and the runtime the actor in `actors`.
  pub owned : Bool
  pub hosted : Bool
  -- The tasks that were posted and taken so far, and at `Close` its reason and what was left.
  pub posted : List Task
  pub executed : List Task
  pub closed : Option (Reason × List Task)

abbrev pub start : Actor
start = record {
  mbox = [];
  quit = none;
  place = looping;
  waiting = false;
  owned = true;
  hosted = true;
  posted = [];
  executed = [];
  closed = none;
}

-- `post`: whether there was room for the task.
unfoldable pub post : ℕ → Task → Actor → Actor × Bool
post size t a =
    if ltb (length a.mbox) size
    then (record a { mbox = a.mbox ++ (t ∷ []); posted = a.posted ++ (t ∷ []) }, true)
    else (a, false)

-- `closeOnce`
abbrev pub first : Option Reason → Reason → Option Reason
first none r = some r
first (some q) r = some q

-- `Stop` of the runtime, from the actor's own goroutine
unfoldable pub stop_from : Reason → Actor → Actor
stop_from r a =
    if a.hosted then record a { hosted = false; quit = first a.quit r; waiting = true } else a

-- `Fence` and `dropLocal` of the claimer, whose hook calls `Stop`
unfoldable pub fence_from : Actor → Actor
unfolding stop_from
fence_from a = if a.owned then stop_from fenced (record a { owned = false }) else a

-- `exec`
unfoldable pub exec_as : Task → Actor → Actor
unfolding fence_from
exec_as (request m) a = a
exec_as (closure c) a = a
exec_as fencing a = fence_from a

unfoldable pub exec : Task → List Task → Actor → Actor
unfolding exec_as
exec t ts a = exec_as t (record a { mbox = ts; executed = a.executed ++ (t ∷ []) })

-- `Close` of the state and the end of `run`, which closes `done`
unfoldable pub close : Reason → Actor → Actor
close r a = record a { place = ended; closed = some (r, a.mbox) }

-- The branch of `run` on `quit`.
unfoldable pub leave : Reason → Actor → Actor
unfolding close
leave graceful a = record a { place = draining }
leave r a = close r a

-- The end of `drain`
unfoldable pub finish : Actor → Actor
finish a = record a { place = emptied }

-- One step of the goroutine or of another one: `select` may take either branch that is ready. Others
-- stop the actor after they have taken the shard from the claimer or the actor from the runtime.
pub data Step (size : ℕ) (a : Actor) : Actor → Type 0 where
  posts : (t : Task) → Step size a (post size t a).0
  drops : Step size a (record a { owned = false })
  unhosts : Step size a (record a { hosted = false })
  stops : (r : Reason) → Step size a (record a { quit = first a.quit r })
  takes :
      (t : Task) (ts : List Task)
      → a.waiting ≡ false
      → a.place ≡ looping
      → a.mbox ≡ t ∷ ts
      → Step size a (exec t ts a)
  leaves :
      (r : Reason)
      → a.waiting ≡ false
      → a.place ≡ looping
      → a.quit ≡ some r
      → Step size a (leave r a)
  drains :
      (t : Task) (ts : List Task)
      → a.waiting ≡ false
      → a.place ≡ draining
      → a.mbox ≡ t ∷ ts
      → Step size a (exec t ts a)
  finishes : a.waiting ≡ false → a.place ≡ draining → a.mbox ≡ [] → Step size a (finish a)
  closes : a.place ≡ emptied → Step size a (close graceful a)
  -- `done` is closed at the end.
  wakes : a.waiting ≡ true → a.place ≡ ended → Step size a (record a { waiting = false })

pub data Steps (size : ℕ) (a : Actor) : Actor → Type 0 where
  here : Steps size a a
  later : {b c : Actor} → Steps size a b → Step size b c → Steps size a c
