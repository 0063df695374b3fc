-- ===== src/Lobby/Gacha.antt =====
-- internal/lobby/gacha.go and the pool of pkg/gameconf/gameconf.go: one draw with its pity counters,
-- and a request of several draws up to the commit. The identifiers that `NextID` returns are a list,
-- and it fails past its end. The ledger entries of the draws are not modelled.
pub mod Pity
mod Examples
use text.Mathlib.Text.{◌==◌ as str_eq}
use f.Prelude.{
  ℕ, zero, suc, ◌+◌, ◌-◌, ℤ, pos, ltb, leb, ltb_ℤ, leb_ℤ, ◌==◌, if◌then◌else◌, Bool, true, false,
  ◌&&◌, ◌||◌, not, Option, none, some, List, [], ◌∷◌, ◌++◌, length, get_elem?, map, String, Result,
  ok, err, ◌>>=◌, ◌>>◌, reject, mul64, sub64, u32,
}
use f.Rng.{Stream, Source, weighted_pick}
use f.Lobby.Bag.{Bag, Item, Wallet, set_balance, add_item}

pub record GachaEntry : Type 0 where
  pub tpl_id : ℕ
  pub rarity : ℕ
  pub weight : ℤ
  pub count : ℤ

pub record GachaPool : Type 0 where
  pub id : String
  pub cost : ℤ
  pub currency : ℕ
  pub entries : List GachaEntry
  pub pity_top : ℕ
  pub pity_high : ℕ
  pub top_rarity : ℕ
  pub high_rarity : ℕ
  pub ten_pull_guarantee : Bool

pub record GachaPityState : Type 0 where
  pub pool_id : String
  pub since_top : ℕ
  pub since_high : ℕ
  pub total_draws : ℕ

pub data GachaError : Type 0 where
  bad_request not_enough bad_weights id_failed bag_full : GachaError

abbrev pub max_draws_per_request : ℕ
max_draws_per_request = 10

-- The entries of at least the rarity, in the order of the pool.
unfoldable pub at_least : ℕ → List GachaEntry → List GachaEntry
at_least min [] = []
at_least min (e ∷ es) = let rest = at_least min es in if leb min e.rarity then e ∷ rest else rest

abbrev pub weights_of : List GachaEntry → List ℤ
weights_of [] = []
weights_of (e ∷ es) = e.weight ∷ weights_of es

abbrev pub entry_at : List GachaEntry → Option ℕ → Option GachaEntry
entry_at es none = none
entry_at es (some i) = get_elem? es i

-- The three counters that a draw raises.
unfoldable pub count_draw : GachaPityState → GachaPityState
count_draw p = record p {
  since_top = u32 (p.since_top + 1);
  since_high = u32 (p.since_high + 1);
  total_draws = u32 (p.total_draws + 1);
}

-- The counters after an entry: of the highest rarity, of a high one, or of neither.
unfoldable pub settle_pity : GachaPool → GachaEntry → GachaPityState → GachaPityState
settle_pity pool e p =
    if leb pool.top_rarity e.rarity
    then record p { since_top = 0; since_high = 0 }
    else if leb pool.high_rarity e.rarity
    then record p { since_high = 0 }
    else p

module _ (G : Stream) where
  -- A draw by weight among some entries.
  unfoldable pub draw_among : List GachaEntry → Source G → Option GachaEntry × Source G
  draw_among es src =
      let picked = weighted_pick G (weights_of es) src in (entry_at es picked.0, picked.1)

  -- `pickByRarity`
  unfoldable pub pick_by_rarity : GachaPool → ℕ → Source G → Option GachaEntry × Source G
  pick_by_rarity pool min src =
      if length (at_least min pool.entries) == 0
      then (none, src)
      else draw_among (at_least min pool.entries) src

  -- What `drawOne` leaves: the entry, whether it is a pity, the counters, the source.
  abbrev pub Draw : Type 0
  Draw = Option GachaEntry × Bool × GachaPityState × Source G

  -- The draw by weight, when no guarantee applies.
  abbrev pub plain_outcome : GachaPool → GachaPityState → Option GachaEntry × Source G → Draw
  plain_outcome pool p (none, src) = (none, false, p, src)
  plain_outcome pool p (some e, src) = (some e, false, settle_pity pool e p, src)

  unfoldable pub plain_draw : GachaPool → GachaPityState → Source G → Draw
  plain_draw pool p src = plain_outcome pool p (draw_among pool.entries src)

  -- The guarantee of a high rarity, by count or forced.
  abbrev pub high_outcome : GachaPool → GachaPityState → Option GachaEntry × Source G → Draw
  high_outcome pool p (none, src) = plain_draw pool p src
  high_outcome pool p (some e, src) = (
    some e,
    true,
    if leb pool.top_rarity e.rarity
        then record p { since_high = 0; since_top = 0 }
        else record p { since_high = 0 },
    src,
  )

  unfoldable pub high_draw : GachaPool → Bool → GachaPityState → Source G → Draw
  high_draw pool force p src =
      if (ltb 0 pool.pity_high && leb pool.pity_high p.since_high) || force
      then high_outcome pool p (pick_by_rarity pool pool.high_rarity src)
      else plain_draw pool p src

  -- The guarantee of the highest rarity.
  abbrev pub top_outcome : GachaPool → Bool → GachaPityState → Option GachaEntry × Source G → Draw
  top_outcome pool force p (none, src) = high_draw pool force p src
  top_outcome pool force p (some e, src) =
      (some e, true, record p { since_top = 0; since_high = 0 }, src)

  unfoldable pub top_draw : GachaPool → Bool → GachaPityState → Source G → Draw
  top_draw pool force p src =
      if ltb 0 pool.pity_top && leb pool.pity_top p.since_top
      then top_outcome pool force p (pick_by_rarity pool pool.top_rarity src)
      else high_draw pool force p src

  -- `drawOne`
  unfoldable pub draw_one : GachaPool → GachaPityState → Source G → Bool → Draw
  draw_one pool pity src force = top_draw pool force (count_draw pity) src

pub record GachaDrop : Type 0 where
  pub tpl_id : ℕ
  pub rarity : ℕ
  pub count : ℤ
  pub by_pity : Bool

-- A count that is not positive is 1.
abbrev pub drop_count : GachaEntry → ℤ
drop_count e = if leb_ℤ e.count (pos 0) then pos 1 else e.count

-- What the loop of `handleGacha` works on.
pub record Pulling (G : Stream) : Type 0 where
  pub pity : GachaPityState
  pub bag : Bag
  pub src : Source G
  pub ids : List ℕ
  pub got_high : Bool
  pub drops : List GachaDrop

module _ (G : Stream) where
  -- One drop goes into the bag.
  abbrev pub stored :
      GachaPool → GachaEntry → Bool → Pulling G → Bag × Option Item → Result GachaError (Pulling G)
  stored pool e by_pity s (bag, none) = err bag_full
  stored pool e by_pity s (bag, some it) = ok (record s {
    bag = bag;
    got_high = s.got_high || leb pool.high_rarity e.rarity;
    drops =
        s.drops
        ++ (record { tpl_id = e.tpl_id; rarity = e.rarity; count = drop_count e; by_pity = by_pity }
            ∷ []);
  })

  abbrev pub store_drop :
      (ℕ → Bool)
      → GachaPool
      → ℤ
      → GachaEntry
      → Bool
      → List ℕ
      → Pulling G
      → Result GachaError (Pulling G)
  store_drop stackable pool now e by_pity [] s = err id_failed
  store_drop stackable pool now e by_pity (id ∷ ids) s =
      stored pool e by_pity (record s { ids = ids })
        (add_item id e.tpl_id (drop_count e) now (stackable e.tpl_id) s.bag)

  abbrev pub after_draw :
      (ℕ → Bool) → GachaPool → ℤ → Pulling G → Draw G → Result GachaError (Pulling G)
  after_draw stackable pool now s (none, by_pity, pity, src) = err bad_weights
  after_draw stackable pool now s (some e, by_pity, pity, src) =
      store_drop stackable pool now e by_pity s.ids (record s { pity = pity; src = src })

  -- One round of the loop; `last` says that this is the last of a request of ten.
  unfoldable pub pull_one :
      (ℕ → Bool) → GachaPool → ℤ → Bool → Pulling G → Result GachaError (Pulling G)
  pull_one stackable pool now last s =
      after_draw stackable pool now s
        (draw_one G pool s.pity s.src (pool.ten_pull_guarantee && last && not s.got_high))

  -- The loop with `left` rounds to go, of a request of `times`.
  unfoldable pub pull :
      (ℕ → Bool) → GachaPool → ℤ → ℕ → ℕ → Pulling G → Result GachaError (Pulling G)
  pull stackable pool now times zero s = ok s
  pull stackable pool now times (suc left) s =
      pull_one stackable pool now (leb 10 times && left == 0) s
      >>= pull stackable pool now times left

-- `pityStateOf` in the list of the pools' states, and the write through the pointer it returns.
unfoldable pub pity_state_of : List GachaPityState → String → GachaPityState
pity_state_of [] pool = record { pool_id = pool; since_top = 0; since_high = 0; total_draws = 0 }
pity_state_of (s ∷ ss) pool = if str_eq s.pool_id pool then s else pity_state_of ss pool

unfoldable pub put_pity : List GachaPityState → String → GachaPityState → List GachaPityState
put_pity [] pool p = p ∷ []
put_pity (s ∷ ss) pool p = if str_eq s.pool_id pool then p ∷ ss else s ∷ put_pity ss pool p

-- What a request commits.
pub record GachaCommit : Type 0 where
  pub wallet : Wallet
  pub bag : Bag
  pub pools : List GachaPityState
  pub drops : List GachaDrop
  pub pity_counter : ℕ
  pub balance : ℤ

unfoldable pub min32 : ℕ → ℕ → ℕ
min32 a b = if ltb a b then a else b

module _ (G : Stream) where
  abbrev pub gacha_commit : GachaPool → Wallet → List GachaPityState → Pulling G → GachaCommit
  gacha_commit pool wallet pools s = record {
    wallet = wallet;
    bag = s.bag;
    pools = put_pity pools pool.id s.pity;
    drops = s.drops;
    pity_counter = pool.pity_top - min32 s.pity.since_top pool.pity_top;
    balance = wallet pool.currency;
  }

  -- `handleGacha` up to the commit, for a known pool and a fresh source.
  unfoldable pub prepare_gacha :
      (ℕ → Bool)
      → GachaPool
      → Wallet
      → Bag
      → List GachaPityState
      → Source G
      → List ℕ
      → ℤ
      → ℕ
      → Result GachaError GachaCommit
  unfolding set_balance
  prepare_gacha stackable pool wallet bag pools src ids now requested = do
    let times = if requested == 0 then 1 else requested
    reject (ltb max_draws_per_request times) bad_request
    let cost = mul64 pool.cost (pos times)
    reject (ltb_ℤ (wallet pool.currency) cost) not_enough
    let paid = set_balance wallet pool.currency (sub64 (wallet pool.currency) cost)
    reject (ltb_ℤ (paid pool.currency) (pos 0)) not_enough
    done ← pull G stackable pool now times times (record {
      pity = pity_state_of pools pool.id;
      bag = bag;
      src = src;
      ids = ids;
      got_high = false;
      drops = [];
    })
    ok (gacha_commit pool paid pools done)
