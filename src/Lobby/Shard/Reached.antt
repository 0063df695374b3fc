-- ===== src/Lobby/Shard/Reached.antt =====
-- internal/lobby/shard.go: what holds of a seat after any events.
use f.Prelude.{
  ◌≤◌, ◌≡◌, refl, arith, ℤ, true, ◌⊎◌, inl, inr, none, some, List, [], All, length, Has,
}
use f.Lobby.Shard.{Handlers, fence, Seat, max_waiters, new_seat, is_busy, Event, run}
use f.Lobby.Shard.Shape.{Shape, away, waiting, idle, working, given_up, shut}
use f.Lobby.Shard.Steps.{run-Shape}

module _ (H : Handlers) where
  -- A request that waits has something to wait for: the commit of a busy player, a load, or the closing
  -- of a shard that has been given up.
  abbrev pub Expects : Seat H → Type 0
  Expects t =
      (t.waiters ≡ []) ⊎ ((is_busy H t.player ≡ true) ⊎ ((t.loading ≡ true) ⊎ Has fence t.log))

  -- A commit in flight keeps its player busy until the shard is closed.
  abbrev pub Guarded : Seat H → Type 0
  Guarded t = (t.commits ≡ []) ⊎ ((is_busy H t.player ≡ true) ⊎ (t.closed ≡ true))

  abbrev pub IsSound : ℤ → Seat H → Type 0
  IsSound own t =
      (length t.loads ≤ 1)
      × (length t.commits ≤ 1)
      × Guarded t
      × All (λ e. e ≡ own) t.loads
      × (length t.waiters ≤ max_waiters)
      × Expects t

  Shape-IsSound : (own : ℤ) {t : Seat H} → Shape H own t → IsSound own t
  Shape-IsSound own (away log) = (omega arith, omega arith, inl refl, tt, omega arith, inl refl)
  Shape-IsSound own (waiting ws none log h) =
      (omega arith, omega arith, inl refl, tt, h, inr (inr (inl refl)))
  Shape-IsSound own (waiting ws (some u) log h) =
      (omega arith, omega arith, inl refl, (refl, tt), h, inr (inr (inl refl)))
  Shape-IsSound own (idle c log) = (omega arith, omega arith, inl refl, tt, omega arith, inl refl)
  Shape-IsSound own (working c ws none log h) =
      (omega arith, omega arith, inl refl, tt, h, inr (inl refl))
  Shape-IsSound own (working c ws (some q) log h) =
      (omega arith, omega arith, inr (inl refl), tt, h, inr (inl refl))
  Shape-IsSound own (given_up c ws log h g) =
      (omega arith, omega arith, inl refl, tt, h, inr (inr (inr g)))
  Shape-IsSound own (shut l none none log) =
      (omega arith, omega arith, inl refl, tt, omega arith, inl refl)
  Shape-IsSound own (shut l none (some q) log) =
      (omega arith, omega arith, inr (inr refl), tt, omega arith, inl refl)
  Shape-IsSound own (shut l (some u) none log) =
      (omega arith, omega arith, inl refl, (refl, tt), omega arith, inl refl)
  Shape-IsSound own (shut l (some u) (some q) log) =
      (omega arith, omega arith, inr (inr refl), (refl, tt), omega arith, inl refl)

-- After any events at most one load and one commit of a player are under way, a commit keeps its
-- player busy until the shard is closed, every load under way has the shard's own epoch (so that
-- `onLoaded` never sees another one), at most 256 requests wait, and a request waits only for a
-- commit, for a load, or after the shard was given up.
pub run-IsSound :
    (H : Handlers) (own : ℤ) (es : List (Event H)) → IsSound H own (run H own es (new_seat H))
run-IsSound H own es = Shape-IsSound H own (run-Shape H own es (away []))
