-- ===== src/Lobby/Spin/Aligned.antt =====
-- internal/lobby/slots.go against internal/slots/engine.go, for one machine whose paytable is iterated in
-- one order: the spins of a round as they are played, each free spin after a `fastForward`, and `Replay`
-- of the seed. Lobby/Spin/Orders is on several orders.
use f.Prelude.{
  ℕ, ◌+◌, ◌<◌, ◌≡◌, refl, sym, ap, subst, ◌∙◌, arith, ℤ, pos, ltb, ltb_ℤ, ◌==◌, if◌then◌else◌, Bool,
  true, false, not, ◌&&◌, List, [], ◌∷◌, ◌++◌, length, length-append, ok, err, Result, u32, All,
  some, String, inl, inr, reject, ◌>>◌, two32,
}
use f.Rng.{Stream, Source}
use f.Rng as rng
use f.Rng.Seed.{parse_seed, seed_size, parse_seed-hex}
use f.Rg.{PlayerRg}
use f.Slots.{SlotMachine, SpinResult, SpinError, spin, replay_from}
use f.Lobby.Bag.{Wallet}
use f.Lobby.Spin.{
  Round, SpinCommit, SpinRefusal, advance, committed, close_round, paid_wallet, not_enough,
  spin_failed, commit_of, resume, free_spin, paid_spin, new_round,
}
use f.Lobby.Spin.Trace.{
  Result-cases, next_left, next_mult, IsMult, next_mult-IsMult, spin_at, Trace, Trace-snoc,
  Trace-forward, Trace-replay,
}

-- The round is where the spins `rs` of its seed lead.
pub record IsPlayed (G : Stream) (m : SlotMachine) (seed : List ℕ) (round : Round)
    (rs : List SpinResult) : Type 0 where
  pub source : Source G
  pub seeded : parse_seed round.seed_hex ≡ ok seed
  pub counted : round.spin_index ≡ length rs
  pub traced :
      Trace G m round.bet 0 1 (rng.new G seed) rs (round.free_spins_left, round.multiplier, source)
  pub mult : IsMult m round.multiplier

err_ok : {E A : Type 0} {e : E} {a : A} → ◌≡◌ {A = Result E A} (err e) (ok a) → ⊥
err_ok h = cc h

module _ (G : Stream) (m : SlotMachine) where
  commit_of-ok :
      (free : Bool) (now : ℤ) (w : Wallet) (rg : PlayerRg) (round : Round) (bet : ℤ)
      (r : SpinResult) (c : SpinCommit)
      → commit_of m free now w rg round bet r ≡ ok c
      → committed m free now w rg round bet r ≡ c
  unfolding commit_of
  commit_of-ok free now w rg round bet r c h =
      after (not free && ltb_ℤ (paid_wallet free w round.currency bet round.currency) (pos 0)) h
    where
      or : Result SpinRefusal SpinCommit → SpinCommit
      or (ok x) = x
      or (err e) = c

      after :
          (b : Bool)
          → (reject b not_enough >> ok (committed m free now w rg round bet r)) ≡ ok c
          → committed m free now w rg round bet r ≡ c
      after true e = absurd (err_ok e)
      after false e = ap or e

  -- Settling a round does not touch what its spins depend on.
  closed :
      (b : Bool) (now : ℤ) (seed : List ℕ) (n : Round) (rs : List SpinResult)
      → IsPlayed G m seed n rs
      → IsPlayed G m seed (close_round b now n) rs
  closed true now seed n rs p = record {
    source = p.source;
    seeded = p.seeded;
    counted = p.counted;
    traced = p.traced;
    mult = p.mult;
  }
  closed false now seed n rs p = p

  kept :
      (free : Bool) (r : SpinResult) (round : Round)
      → ((advance m free r round).bet ≡ round.bet)
        × ((advance m free r round).seed_hex ≡ round.seed_hex)
        × ((advance m free r round).spin_index ≡ u32 (round.spin_index + 1))
  unfolding advance
  kept free r round = (ground arith, ground arith, ground arith)

  advanced :
      (free : Bool) (r : SpinResult) (round : Round)
      → IsMult m round.multiplier
      → free ≡ ltb 0 round.free_spins_left
      → ((advance m free r round).free_spins_left ≡ next_left round.free_spins_left r)
        × ((advance m free r round).multiplier ≡ next_mult m round.multiplier r)
  unfolding advance
  advanced free r round h f = (ground (arith, f), ground (arith, h.1))

  -- A commit extends the round by the spin that it was made from.
  extended :
      (free : Bool) (now : ℤ) (w : Wallet) (rg : PlayerRg) (seed : List ℕ) (round : Round)
      (rs : List SpinResult) (s2 : Source G) (r : SpinResult)
      → (p : IsPlayed G m seed round rs) → length rs + 1 < two32
      → free ≡ ltb 0 round.free_spins_left
      → spin_at G m round.bet round.free_spins_left round.multiplier p.source ≡ ok (r, s2)
      → IsPlayed G m seed (committed m free now w rg round round.bet r).round (rs ++ (r ∷ []))
  extended free now w rg seed round rs s2 r p fits f e =
      let next = advance m free r round in
      let same = kept free r round in
      let moved = advanced free r round p.mult f in
      let snoc =
        Trace-snoc G m round.bet 0 1 (rng.new G seed) rs round.free_spins_left round.multiplier
          p.source s2 r p.traced e in
      closed (next.free_spins_left == 0) now seed next (rs ++ (r ∷ [])) (record {
        source = s2;
        seeded = ap parse_seed same.1 ∙ p.seeded;
        counted = omega (arith, same.2, p.counted, length-append rs (r ∷ []));
        traced = rw same.0 (rw moved.0 (rw moved.1 snoc));
        mult = rw moved.1 (next_mult-IsMult G m round.bet round.multiplier r p.mult);
      })

  resume-played :
      (seed : List ℕ) (round : Round) (rs : List SpinResult) (p : IsPlayed G m seed round rs)
      → resume G m round ≡ ok p.source
  unfolding resume
  resume-played seed round rs p =
      let forward =
        Trace-forward G m round.bet 0 1 (rng.new G seed) rs
          (round.free_spins_left, round.multiplier, p.source) p.traced in
      ground (arith, p.seeded, p.counted, forward)

  -- What a round after a spin shows: it is played by its spins, and `Replay` of its seed gives them.
  abbrev pub Extends : List ℕ → List SpinResult → SpinCommit → Type 0
  Extends seed rs c =
      IsPlayed G m seed c.round (rs ++ (c.result ∷ []))
      × ((s : Source G) × (replay_from G (length (rs ++ (c.result ∷ []))) m c.round.bet 0 1
              (rng.new G seed)
            ≡ ok (rs ++ (c.result ∷ []), s)))

  pub replayed :
      (seed : List ℕ) (round : Round) (rs : List SpinResult)
      → (p : IsPlayed G m seed round rs)
      → (s : Source G) × (replay_from G (length rs) m round.bet 0 1 (rng.new G seed) ≡ ok (rs, s))
  replayed seed round rs p = (
    p.source,
    Trace-replay G m round.bet 0 1 (rng.new G seed) rs
        (round.free_spins_left, round.multiplier, p.source) (omega arith, λ z. refl) p.traced,
  )

  extends :
      (seed : List ℕ) (rs : List SpinResult) (c : SpinCommit)
      → IsPlayed G m seed c.round (rs ++ (c.result ∷ []))
      → Extends seed rs c
  extends seed rs c p = (p, replayed seed c.round (rs ++ (c.result ∷ [])) p)

  -- A free spin of `handleSpin` is the spin of `Replay` at that point.
  as_free :
      (round : Round) (src : Source G)
      → 0 < round.free_spins_left
      → 0 < round.multiplier
      → spin G (some m) src round.bet (if round.multiplier == 0 then 1 else round.multiplier) true
        ≡ spin_at G m round.bet round.free_spins_left round.multiplier src
  as_free round src left mult = ground (arith, left, mult)

  free_spin-step :
      (now : ℤ) (w : Wallet) (rg : PlayerRg) (round : Round) (src s2 : Source G) (r : SpinResult)
      → resume G m round ≡ ok src
      → 0 < round.free_spins_left
      → 0 < round.multiplier
      → spin_at G m round.bet round.free_spins_left round.multiplier src ≡ ok (r, s2)
      → free_spin G m now w rg round ≡ commit_of m true now w rg round round.bet r
  unfolding free_spin
  free_spin-step now w rg round src s2 r resumed left mult e =
      rw resumed (rw (as_free round src left mult ∙ e) refl)

  free_spin-fails :
      (now : ℤ) (w : Wallet) (rg : PlayerRg) (round : Round) (src : Source G) (x : SpinError)
      → resume G m round ≡ ok src
      → 0 < round.free_spins_left
      → 0 < round.multiplier
      → spin_at G m round.bet round.free_spins_left round.multiplier src ≡ err x
      → free_spin G m now w rg round ≡ err spin_failed
  unfolding free_spin
  free_spin-fails now w rg round src x resumed left mult e =
      rw resumed (rw (as_free round src left mult ∙ e) refl)

  -- With one machine and one order of its paytable, a free spin that is committed extends a round by
  -- the next spin of its random stream, and `Replay` of its seed gives the results that were played.
  pub free_spin_lem :
      (now : ℤ) (w : Wallet) (rg : PlayerRg) (seed : List ℕ) (round : Round) (rs : List SpinResult)
      (c : SpinCommit)
      → IsPlayed G m seed round rs
      → length rs + 1 < two32
      → 0 < round.free_spins_left
      → free_spin G m now w rg round ≡ ok c
      → Extends seed rs c
  free_spin_lem now w rg seed round rs c p fits left h =
      let resumed = resume-played seed round rs p in
      elim (Result-cases (spin_at G m round.bet round.free_spins_left round.multiplier p.source)) [
        | inr (x, e) ↦
            absurd
              (err_ok (sym (free_spin-fails now w rg round p.source x resumed left p.mult.0 e) ∙ h))
        | inl ((r, s2), e) ↦
            let done =
              commit_of-ok true now w rg round round.bet r c
                (sym (free_spin-step now w rg round p.source s2 r resumed left p.mult.0 e) ∙ h) in
            extends seed rs c (
              subst (λ (x : SpinCommit). IsPlayed G m seed x.round (rs ++ (x.result ∷ []))) done
                (extended true now w rg seed round rs s2 r p fits (ground (arith, left)) e))
      ]

  -- Likewise for a paid spin, with a seed of 32 bytes, and the round that it opens.
  pub paid_spin_lem :
      (game version : String) (now bet : ℤ) (id : ℕ) (seed : List ℕ) (w : Wallet) (rg : PlayerRg)
      (c : SpinCommit)
      → All (λ b. b < 256) seed
      → length seed ≡ seed_size
      → paid_spin G m now w rg seed (new_round m game version now bet id seed) ≡ ok c
      → Extends seed [] c
  unfolding paid_spin
  paid_spin_lem game version now bet id seed w rg c bytes size h =
      let round = new_round m game version now bet id seed in
      let p : IsPlayed G m seed round [] = record {
        source = rng.new G seed;
        seeded = parse_seed-hex seed bytes size;
        counted = refl;
        traced = refl;
        mult = (omega arith, λ z. refl);
      } in
      elim (Result-cases (spin_at G m bet 0 1 (rng.new G seed))) [
        | inr (x, e) ↦
            let failed : paid_spin G m now w rg seed round ≡ err spin_failed = rw e refl in
            absurd (err_ok (sym failed ∙ h))
        | inl ((r, s2), e) ↦
            let spun : paid_spin G m now w rg seed round
                ≡ commit_of m false now w rg round round.bet r =
              rw e refl in
            let done = commit_of-ok false now w rg round round.bet r c (sym spun ∙ h) in
            extends seed [] c (
              subst (λ (x : SpinCommit). IsPlayed G m seed x.round ([] ++ (x.result ∷ []))) done
                (extended false now w rg seed round [] s2 r p (omega arith) refl e))
      ]
