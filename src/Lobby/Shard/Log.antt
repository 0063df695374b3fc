-- ===== src/Lobby/Shard/Log.antt =====
-- internal/lobby/shard.go: what the log of a seat says of the requests.
use mathlib.Core.List.{append-nil, append_assoc}
use f.Prelude.{◌≡◌, refl, ap, List, [], ◌∷◌, ◌++◌}
use f.Lobby.Shard.{
  Handlers, queue_full, changed, load_failed, corrupt, closing, handover, Effect, handled, refused,
  marked_all, fence, crashed, Event, arrives,
}

-- `zs` is made of the items of `xs` and those of `ys`, each list in its order.
pub data Interleave {ℓ} {A : Type ℓ} : List A → List A → List A → Type ℓ where
  end : Interleave [] [] []
  left : {x : A} {xs ys zs : List A} → Interleave xs ys zs → Interleave (x ∷ xs) ys (x ∷ zs)
  right : {y : A} {xs ys zs : List A} → Interleave xs ys zs → Interleave xs (y ∷ ys) (y ∷ zs)

module _ {ℓ} {A : Type ℓ} where
  pub left-snoc :
      {xs ys zs : List A} (a : A)
      → Interleave xs ys zs
      → Interleave (xs ++ (a ∷ [])) ys (zs ++ (a ∷ []))
  left-snoc a end = left end
  left-snoc a (left i) = left (left-snoc a i)
  left-snoc a (right i) = right (left-snoc a i)

  pub right-snoc :
      {xs ys zs : List A} (a : A)
      → Interleave xs ys zs
      → Interleave xs (ys ++ (a ∷ [])) (zs ++ (a ∷ []))
  right-snoc a end = right end
  right-snoc a (left i) = left (right-snoc a i)
  right-snoc a (right i) = right (right-snoc a i)

module _ (H : Handlers) where
  -- The requests that were turned away on arrival: the queue was full, or the shard closed.
  abbrev pub turned_away : List (Effect H) → List H.Msg
  turned_away [] = []
  turned_away (refused m queue_full ∷ es) = m ∷ turned_away es
  turned_away (refused m closing ∷ es) = m ∷ turned_away es
  turned_away (_ ∷ es) = turned_away es

  -- The requests that were handled, or answered with an error after they had been accepted.
  abbrev pub exits : List (Effect H) → List H.Msg
  exits [] = []
  exits (handled m ∷ es) = m ∷ exits es
  exits (refused m changed ∷ es) = m ∷ exits es
  exits (refused m load_failed ∷ es) = m ∷ exits es
  exits (refused m corrupt ∷ es) = m ∷ exits es
  exits (refused m handover ∷ es) = m ∷ exits es
  exits (_ ∷ es) = exits es

  abbrev pub arrivals : List (Event H) → List H.Msg
  arrivals [] = []
  arrivals (arrives m ∷ es) = m ∷ arrivals es
  arrivals (_ ∷ es) = arrivals es

  pub turned_away-append :
      (es fs : List (Effect H)) → turned_away (es ++ fs) ≡ turned_away es ++ turned_away fs
  turned_away-append [] fs = refl
  turned_away-append (handled m ∷ es) fs = turned_away-append es fs
  turned_away-append (refused m queue_full ∷ es) fs = ap (λ r. m ∷ r) (turned_away-append es fs)
  turned_away-append (refused m closing ∷ es) fs = ap (λ r. m ∷ r) (turned_away-append es fs)
  turned_away-append (refused m changed ∷ es) fs = turned_away-append es fs
  turned_away-append (refused m load_failed ∷ es) fs = turned_away-append es fs
  turned_away-append (refused m corrupt ∷ es) fs = turned_away-append es fs
  turned_away-append (refused m handover ∷ es) fs = turned_away-append es fs
  turned_away-append (marked_all ∷ es) fs = turned_away-append es fs
  turned_away-append (fence ∷ es) fs = turned_away-append es fs
  turned_away-append (crashed ∷ es) fs = turned_away-append es fs

  pub exits-append : (es fs : List (Effect H)) → exits (es ++ fs) ≡ exits es ++ exits fs
  exits-append [] fs = refl
  exits-append (handled m ∷ es) fs = ap (λ r. m ∷ r) (exits-append es fs)
  exits-append (refused m queue_full ∷ es) fs = exits-append es fs
  exits-append (refused m closing ∷ es) fs = exits-append es fs
  exits-append (refused m changed ∷ es) fs = ap (λ r. m ∷ r) (exits-append es fs)
  exits-append (refused m load_failed ∷ es) fs = ap (λ r. m ∷ r) (exits-append es fs)
  exits-append (refused m corrupt ∷ es) fs = ap (λ r. m ∷ r) (exits-append es fs)
  exits-append (refused m handover ∷ es) fs = ap (λ r. m ∷ r) (exits-append es fs)
  exits-append (marked_all ∷ es) fs = exits-append es fs
  exits-append (fence ∷ es) fs = exits-append es fs
  exits-append (crashed ∷ es) fs = exits-append es fs

  pub ruleset logs = (append-nil, append_assoc, exits-append, turned_away-append)
