-- ===== src/Lobby/Spin/Orders.antt =====
-- internal/lobby/slots.go against internal/slots/engine.go, where every run iterates the paytable in an
-- order of its own: the requests before, the request, its `fastForward`, and `Replay` later.
mod Examples
use f.Prelude.{
  ℕ, ◌+◌, ◌<◌, ◌≡◌, refl, sym, ap, subst, ◌∙◌, arith, ℤ, List, [], ◌∷◌, ◌++◌, map, length, ok, All,
  two32, String, suc, ◌-◌, ltb, u32, ◌&&◌, if◌then◌else◌,
}
use f.Rng.{Stream, Source}
use f.Rng as rng
use f.Rng.Seed.{seed_size}
use f.Rg.{PlayerRg}
use f.Slots.{SlotMachine, SpinResult, replay_from}
use f.Slots.Lines.{IsMachine}
use f.Slots.Payout.{SameTable, with_table}
use f.Slots.Reports.{core}
use f.Slots.Orders.{spin-order}
use f.Lobby.Bag.{Wallet}
use f.Lobby.Spin.{Round, SpinCommit, free_spin, paid_spin, new_round}
use f.Lobby.Spin.Trace.{Trace, next_left, next_mult}
use f.Lobby.Spin.Aligned.{IsPlayed, replayed, free_spin_lem, paid_spin_lem}

length-core : (xs ys : List SpinResult) → map core xs ≡ map core ys → length xs ≡ length ys
length-core [] [] h = refl
length-core [] (y ∷ ys) h = absurd (cc h)
length-core (x ∷ xs) [] h = absurd (cc h)
length-core (x ∷ xs) (y ∷ ys) h = ap suc (length-core xs ys (ap tail h))
  where
    tail : List SpinResult → List SpinResult
    tail [] = []
    tail (z ∷ zs) = zs

core-snoc :
    (xs ys : List SpinResult) (r : SpinResult)
    → map core xs ≡ map core ys
    → map core (xs ++ (r ∷ [])) ≡ map core (ys ++ (r ∷ []))
core-snoc xs ys r h = map-snoc xs ∙ (ap (λ zs. zs ++ (core r ∷ [])) h ∙ sym (map-snoc ys))
  where
    map-snoc : (zs : List SpinResult) → map core (zs ++ (r ∷ [])) ≡ map core zs ++ (core r ∷ [])
    map-snoc [] = refl
    map-snoc (z ∷ zs) = ap (λ l. core z ∷ l) (map-snoc zs)

module _ (G : Stream) (m : SlotMachine) (v : IsMachine m) where
  Trace-order :
      (t u : List (ℕ × List ℤ)) (same : SameTable t u) (bet : ℤ) (left mult : ℕ) (s : Source G)
      (rs : List SpinResult) (e : ℕ × ℕ × Source G)
      → Trace G (with_table m t) bet left mult s rs e
      → (rs' : List SpinResult) × Trace G (with_table m u) bet left mult s rs' e
        × (map core rs' ≡ map core rs)
  Trace-order t u same bet left mult s [] e tr = ([], tr, refl)
  Trace-order t u same bet left mult s (r ∷ rs) e (s', spun, tr) =
      let (r', again, eq) =
        spin-order G m t u s bet (if ltb 0 left then mult else 1) (ltb 0 left) r s' same v spun in
      let (rs', tr', eqs) =
        Trace-order t u same bet (next_left left r) (next_mult m mult r) s' rs e tr in
      let won : r.free_spins_awarded ≡ r'.free_spins_awarded = ap (λ x. x.free_spins_awarded) eq in
      let moved =
        subst
          (λ k.
            Trace G (with_table m u) bet
              (let left' = if ltb 0 left then left - 1 else left in
                if ltb 0 k then u32 (left' + k) else left')
              (if ltb 0 k && ltb 0 m.free_spin_multiplier then m.free_spin_multiplier else mult) s'
              rs' e)
          won tr' in
      (r' ∷ rs', (s', again, moved), rw eq (rw eqs refl))

  IsPlayed-order :
      (t u : List (ℕ × List ℤ)) (same : SameTable t u) (seed : List ℕ) (round : Round)
      (rs : List SpinResult)
      → IsPlayed G (with_table m t) seed round rs
      → (rs' : List SpinResult) × IsPlayed G (with_table m u) seed round rs'
        × (map core rs' ≡ map core rs)
  IsPlayed-order t u same seed round rs p =
      let (rs', tr, eq) =
        Trace-order t u same round.bet 0 1 (rng.new G seed) rs
          (round.free_spins_left, round.multiplier, p.source) p.traced in
      (
        rs',
        record {
          source = p.source;
          seeded = p.seeded;
          counted = p.counted ∙ sym (length-core rs' rs eq);
          traced = tr;
          mult = p.mult;
        },
        eq,
      )

  -- The round after a spin, for whoever iterates the paytable in the order `u`: it is where its
  -- spins lead, and `Replay` of the seed gives these spins; they are the ones that were played, up to
  -- which of several equally paying symbols a line reports.
  abbrev pub Replays : List (ℕ × List ℤ) → List ℕ → List SpinResult → SpinCommit → Type 0
  Replays u seed rs c =
      (rs' : List SpinResult) × IsPlayed G (with_table m u) seed c.round rs'
      × (map core rs' ≡ map core (rs ++ (c.result ∷ [])))
      × ((s : Source G) × (replay_from G (length rs') (with_table m u) c.round.bet 0 1
              (rng.new G seed)
            ≡ ok (rs', s)))

  replays :
      (u : List (ℕ × List ℤ)) (seed : List ℕ) (rs rs' : List SpinResult) (c : SpinCommit)
      → IsPlayed G (with_table m u) seed c.round rs'
      → map core rs' ≡ map core (rs ++ (c.result ∷ []))
      → Replays u seed rs c
  replays u seed rs rs' c p eq = (rs', p, eq, replayed G (with_table m u) seed c.round rs' p)

  -- On one checked machine whose paytable each run iterates in an order of its own: when a round
  -- is where its first spins lead in one order, fewer than 2^32 - 1, and has free spins left, a
  -- free spin that is committed, its `fastForward` and itself in a second order, leaves the round
  -- where as many spins and one more lead in a third order; these are the spins that were played
  -- and this one, but for the symbol and the count that a line reports, and `Replay` of the seed
  -- gives them.
  pub free_spin-Replays :
      (before t u : List (ℕ × List ℤ)) (now : ℤ) (w : Wallet) (rg : PlayerRg) (seed : List ℕ)
      (round : Round) (rs : List SpinResult) (c : SpinCommit)
      → SameTable before t
      → SameTable t u
      → IsPlayed G (with_table m before) seed round rs
      → length rs + 1 < two32
      → 0 < round.free_spins_left
      → free_spin G (with_table m t) now w rg round ≡ ok c
      → Replays u seed rs c
  free_spin-Replays before t u now w rg seed round rs c same next p fits left h =
      let (mine, q, eq) = IsPlayed-order before t same seed round rs p in
      let long = length-core mine rs eq in
      let (after, done) =
        free_spin_lem G (with_table m t) now w rg seed round mine c q (omega (arith, long, fits))
          left h in
      let (other, o, eq') = IsPlayed-order t u next seed c.round (mine ++ (c.result ∷ [])) after in
      replays u seed rs other c o (eq' ∙ core-snoc mine rs c.result eq)

  -- A paid spin of a checked machine that is committed, with a seed of 32 bytes, opens a round
  -- that stands where one spin leads, and `Replay` of the stored seed, in another iteration order
  -- of the paytable, gives that spin: the one that was played but for the symbol and the count
  -- that a line reports.
  pub paid_spin-Replays :
      (t u : List (ℕ × List ℤ)) (game version : String) (now bet : ℤ) (id : ℕ) (seed : List ℕ)
      (w : Wallet) (rg : PlayerRg) (c : SpinCommit)
      → SameTable t u
      → All (λ b. b < 256) seed
      → length seed ≡ seed_size
      → paid_spin G
          (with_table m t)
          now
          w
          rg
          seed
          (new_round (with_table m t) game version now bet id seed)
        ≡ ok c
      → Replays u seed [] c
  paid_spin-Replays t u game version now bet id seed w rg c same bytes size h =
      let (after, done) =
        paid_spin_lem G (with_table m t) game version now bet id seed w rg c bytes size h in
      let (other, o, eq) = IsPlayed-order t u same seed c.round ([] ++ (c.result ∷ [])) after in
      replays u seed [] other c o eq
