-- ===== src/Lobby/Gacha/Pity.antt =====
-- The guarantees of internal/lobby/gacha.go for one draw.
use f.Prelude.{
  ℕ, zero, suc, ◌≤◌, ◌<◌, ◌≡◌, refl, arith, Bool, true, false, ltb, leb, some, List, [], ◌∷◌,
  length, get_elem?, get_elem?-some, ◌&&◌, ◌||◌, two63, inl, inr, ◌⊎◌, Bool-cases, if◌then◌else◌,
}
use f.Rng.{Stream, Source}
use f.Rng.Pick.{weight_sum, weighted_pick-share}
use f.Lobby.Gacha.{
  GachaEntry, GachaPool, GachaPityState, at_least, weights_of, count_draw, settle_pity, draw_among,
  pick_by_rarity, plain_draw, high_draw, top_draw, draw_one, Draw,
}

-- A pool whose guarantees can be met: there is weight at either rarity.
pub record CanGuarantee (pool : GachaPool) : Type 0 where
  pub top_some : 0 < weight_sum (weights_of (at_least pool.top_rarity pool.entries))
  pub top_fits : weight_sum (weights_of (at_least pool.top_rarity pool.entries)) < two63
  pub high_some : 0 < weight_sum (weights_of (at_least pool.high_rarity pool.entries))
  pub high_fits : weight_sum (weights_of (at_least pool.high_rarity pool.entries)) < two63
  pub all_some : 0 < weight_sum (weights_of pool.entries)
  pub all_fits : weight_sum (weights_of pool.entries) < two63
  pub top_over_high : pool.high_rarity ≤ pool.top_rarity
  pub top_set : 0 < pool.pity_top

length-weights_of : (es : List GachaEntry) → length (weights_of es) ≡ length es
length-weights_of [] = refl
length-weights_of (e ∷ es) = omega (arith, length-weights_of es)

at_least-rarity :
    (min i : ℕ) (es : List GachaEntry) (e : GachaEntry)
    → get_elem? (at_least min es) i ≡ some e
    → min ≤ e.rarity
unfolding at_least
at_least-rarity min i [] e h = ground arith
at_least-rarity min zero (x ∷ es) e h = ground (arith, at_least-rarity min zero es e)
at_least-rarity min (suc i) (x ∷ es) e h =
    ground (arith, at_least-rarity min i es e, at_least-rarity min (suc i) es e)

module _ (G : Stream) where
  -- A draw among entries with weight gives one of them.
  draw_among-some :
      (es : List GachaEntry) (src : Source G)
      → 0 < weight_sum (weights_of es)
      → weight_sum (weights_of es) < two63
      → (e : GachaEntry) × (i : ℕ) × ((draw_among G es src).0 ≡ some e)
        × (get_elem? es i ≡ some e)
        × (0 < length es)
  unfolding draw_among
  draw_among-some es src p f =
      let (k, within, picked) = weighted_pick-share G (weights_of es) src p f in
      let (e, found) = get_elem?-some es k (omega (arith, within.0, length-weights_of es)) in
      (e, k, rw picked found, found, omega (arith, within.0, length-weights_of es))

  pick_by_rarity-some :
      (pool : GachaPool) (min : ℕ) (src : Source G)
      → 0 < weight_sum (weights_of (at_least min pool.entries))
      → weight_sum (weights_of (at_least min pool.entries)) < two63
      → (e : GachaEntry) × (after : Source G) × (pick_by_rarity G pool min src ≡ (some e, after))
        × (min ≤ e.rarity)
  unfolding pick_by_rarity
  pick_by_rarity-some pool min src p f =
      let es = at_least min pool.entries in
      let (e, i, drawn, found, some_entry) = draw_among-some es src p f in
      (
        e,
        (draw_among G es src).1,
        ground (arith, some_entry, drawn),
        at_least-rarity min i pool.entries e found,
      )

  -- What an entry and the new counters `q` owe to the raised counters `p`.
  pub record IsOwed (pool : GachaPool) (p : GachaPityState) (force : Bool) (e : GachaEntry)
      (q : GachaPityState) : Type 0 where
    pub top_due : pool.pity_top ≤ p.since_top → pool.top_rarity ≤ e.rarity
    pub high_due : 0 < pool.pity_high → pool.pity_high ≤ p.since_high → pool.high_rarity ≤ e.rarity
    pub high_forced : force ≡ true → pool.high_rarity ≤ e.rarity
    pub top_reset : pool.top_rarity ≤ e.rarity → q.since_top ≡ 0
    pub top_kept : e.rarity < pool.top_rarity → q.since_top ≡ p.since_top

  abbrev pub Draws : GachaPool → GachaPityState → Bool → Draw G → Type 0
  Draws pool p force r =
      (e : GachaEntry) × (by_pity : Bool) × (q : GachaPityState) × (after : Source G) × (r
        ≡ (some e, by_pity, q, after))
      × IsOwed pool p force e q

  plain_draw-Draws :
      (pool : GachaPool) (p : GachaPityState) (src : Source G)
      → CanGuarantee pool
      → p.since_top < pool.pity_top
      → ((pool.pity_high ≡ 0) ⊎ (p.since_high < pool.pity_high))
      → Draws pool p false (plain_draw G pool p src)
  unfolding plain_draw settle_pity
  plain_draw-Draws pool p src v t h =
      let (e, i, drawn, found, some_entry) =
        draw_among-some pool.entries src v.all_some v.all_fits in
      (
        e,
        false,
        settle_pity pool e p,
        (draw_among G pool.entries src).1,
        ground (arith, drawn),
        record {
          top_due = λ d. absurd (omega arith);
          high_due = λ z d. absurd (omega arith);
          high_forced = λ f. cc;
          top_reset = λ r. ground arith;
          top_kept = λ r. ground arith;
        },
      )

  high_draw-Draws :
      (pool : GachaPool) (force : Bool) (p : GachaPityState) (src : Source G)
      → CanGuarantee pool
      → p.since_top < pool.pity_top
      → Draws pool p force (high_draw G pool force p src)
  unfolding high_draw
  high_draw-Draws pool force p src v t =
      elim (Bool-cases ((ltb 0 pool.pity_high && leb pool.pity_high p.since_high) || force)) [
        | inl due ↦
            let (e, after, picked, rare) =
              pick_by_rarity-some pool pool.high_rarity src v.high_some v.high_fits in
            let q =
              if leb pool.top_rarity e.rarity
              then record p { since_high = 0; since_top = 0 }
              else record p { since_high = 0 } in
            (
              e,
              true,
              q,
              after,
              rw due (rw picked refl),
              record {
                top_due = λ d. absurd (omega arith);
                high_due = λ z d. rare;
                high_forced = λ f. rare;
                top_reset = λ r. ground arith;
                top_kept = λ r. ground arith;
              },
            )
        | inr free ↦
            let (e, by_pity, q, after, drawn, owed) =
              plain_draw-Draws pool p src v t (ground (arith, free)) in
            (
              e,
              by_pity,
              q,
              after,
              rw free drawn,
              record {
                top_due = owed.top_due;
                high_due = owed.high_due;
                high_forced = λ f. ground (arith, free, f);
                top_reset = owed.top_reset;
                top_kept = owed.top_kept;
              },
            )
      ]

  -- A draw from a pool whose guarantees can be met gives an entry: one of the highest rarity when
  -- `pity_top` draws have passed without it, one of a high rarity when `pity_high` have, or when
  -- the draw is forced; the counter of the highest rarity starts again exactly with such an
  -- entry.
  pub draw_one_lem :
      (pool : GachaPool) (pity : GachaPityState) (src : Source G) (force : Bool)
      → CanGuarantee pool
      → Draws pool (count_draw pity) force (draw_one G pool pity src force)
  unfolding draw_one top_draw
  draw_one_lem pool pity src force v =
      let p = count_draw pity in
      elim (Bool-cases (ltb 0 pool.pity_top && leb pool.pity_top p.since_top)) [
        | inl due ↦
            let (e, after, picked, rare) =
              pick_by_rarity-some pool pool.top_rarity src v.top_some v.top_fits in
            (
              e,
              true,
              record p { since_top = 0; since_high = 0 },
              after,
              rw due (rw picked refl),
              record {
                top_due = λ d. rare;
                high_due = λ z d. omega (arith, rare, v.top_over_high);
                high_forced = λ f. omega (arith, rare, v.top_over_high);
                top_reset = λ r. refl;
                top_kept = λ r. absurd (omega (arith, rare));
              },
            )
        | inr free ↦
            let (e, by_pity, q, after, drawn, owed) =
              high_draw-Draws pool force p src v (ground (arith, free, v.top_set)) in
            (e, by_pity, q, after, rw free drawn, owed)
      ]
