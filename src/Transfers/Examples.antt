-- ===== src/Transfers/Examples.antt =====
-- pkg/xtx/xtx.go: transfers on a small store with strings and one sorted set per key.
use f.Prelude.{
  inl, ℕ, ◌+◌, ◌*◌, ◌≡◌, ◌≢◌, refl, arith, ℤ, pos, pos_part, eqb_ℤ, ◌==◌, if◌then◌else◌, Bool, true,
  false, ◌&&◌, Option, none, some, List, [], ◌∷◌, ◌++◌, ok, err, All,
}
use f.Fencing.{Redis, IsRedis, number_at}
use f.Transfers.{Index, IsIndex, Transfer, unset, fenced}
use f.Transfers.Claims.{claims, claims-verdicts}

-- Keys are numbers, values integers.
record Store : Type 0 where
  strings : ℕ → Option ℤ
  streams : ℕ → List ℤ
  members : ℕ → ℤ → Bool

abbrev put : ℕ → Option ℤ → Store → Store
put k v s = record s { strings = λ j. if j == k then v else s.strings j }

abbrev mark : ℕ → ℤ → Bool → Store → Store
mark k v b s = record s { members = λ j w. if (j == k) && eqb_ℤ w v then b else s.members j w }

abbrev memory : Redis
memory = record {
  State = Store;
  Key = ℕ;
  Value = ℤ;
  get = λ k s. s.strings k;
  set = λ k v s. put k (some v) s;
  set_ex = λ k v ttl s. put k (some v) s;
  delete = λ k s. put k none s;
  xadd = λ k n v s. record s {
    streams = λ j. if j == k then s.streams j ++ (v ∷ []) else s.streams j;
  };
  hset = λ k vs s. s;
  expire = λ k ttl s. s;
  stream = λ k s. s.streams k;
  to_number = λ v. v;
  of_number = λ n. n;
}

abbrev sets : Index memory
sets = record {
  zadd = λ k n v s. mark k v true s;
  zrem = λ k v s. mark k v false s;
  set_keep = λ k v s. put k (some v) s;
  has = λ k v s. s.members k v;
}

get-put : (k : ℕ) (v : Option ℤ) (s : Store) → (put k v s).strings k ≡ v
get-put k v s = ground arith

get-put_other : (j k : ℕ) (v : Option ℤ) (s : Store) → j ≢ k → (put k v s).strings j ≡ s.strings j
get-put_other j k v s h = ground arith

memory-IsRedis : IsRedis memory
memory-IsRedis = record {
  get-set = λ k v s. get-put k (some v) s;
  get-set_other = λ j k v s h. get-put_other j k (some v) s h;
  get-set_ex = λ k v ttl s h. get-put k (some v) s;
  get-set_ex_other = λ j k v ttl s h. get-put_other j k (some v) s h;
  get-delete_other = λ j k s h. get-put_other j k none s h;
  get-xadd_other = λ j k n v s h. refl;
  get-hset_other = λ j k vs s h. refl;
  get-expire_other = λ j k ttl s h. refl;
  stream-set = λ j k v s h. refl;
  stream-set_ex = λ j k v ttl s h. refl;
  stream-xadd = λ k m v s. (0, ground arith, inl refl);
  number = λ n h. refl;
}

has-mark : (k : ℕ) (v : ℤ) (b : Bool) (s : Store) → (mark k v b s).members k v ≡ b
has-mark k v b s = ground arith

has-mark_other :
    (j k : ℕ) (v w : ℤ) (s : Store) → s.members j v ≡ false → (mark k w false s).members j v ≡ false
has-mark_other j k v w s h = ground (arith, h)

sets-IsIndex : IsIndex memory sets
sets-IsIndex = record {
  get-delete = λ k s. get-put k none s;
  get-zadd = λ j k n v s. refl;
  get-zrem = λ j k v s. refl;
  get-set_keep = λ k v s. get-put k (some v) s;
  has-zadd = λ k n v s. has-mark k v true s;
  has-zrem = λ k v s. has-mark k v false s;
  has-zrem_other = λ j k v w s h. has-mark_other j k v w s h;
  has-set = λ j k v w s. refl;
  has-set_keep = λ j k v w s. refl;
}

-- Key 0 holds the epoch 5, key 1 is the mark, keys 2 and 3 the player's data.
abbrev start : Store
start = record {
  strings = λ k. if k == 0 then some (pos 5) else none;
  streams = λ k. [];
  members = λ k v. false;
}

-- Between deliveries other keys are written, here key 9.
abbrev other : Store → Store
other s = put 9 (some (pos 1)) s

abbrev deliveries : List (ℤ × List (ℕ × ℤ) × (Store → Store))
deliveries =
    (pos 4, (2, pos 40) ∷ [], other)
    ∷ (pos 5, (2, pos 50) ∷ (3, pos 51) ∷ [], other)
    ∷ (pos 6, (2, pos 60) ∷ [], other)
    ∷ []

quiet : (j : ℕ) → j ≢ 9 → (s : Store) → (other s).strings j ≡ s.strings j
quiet j h s = ground arith

one_pair : ((◌≢◌ {A = ℕ} 0 2) × Unit {0}) × ((◌≢◌ {A = ℕ} 1 2) × Unit {0}) × (Unit {0} × Unit {0})
one_pair = ((λ e. omega (arith, e), tt), (λ e. omega (arith, e), tt), (tt, tt))

unread :
    ((s : Store) → (other s).strings 0 ≡ s.strings 0)
    × ((s : Store) → (other s).strings 1 ≡ s.strings 1)
    × All
        (λ (kv : ℕ × ℤ). (s : Store) → (other s).strings kv.0 ≡ s.strings kv.0)
        ((2, pos 50) ∷ (3, pos 51) ∷ [])
unread = (
  quiet 0 (λ e. omega (arith, e)),
  quiet 1 (λ e. omega (arith, e)),
  (quiet 2 (λ e. omega (arith, e)), (quiet 3 (λ e. omega (arith, e)), tt)),
)

claims-verdicts_example :
    (let (s', rs) = claims memory 0 1 (pos 100) deliveries start in
      (rs ≡ err fenced ∷ ok true ∷ ok false ∷ [])
      × All (λ (kv : ℕ × ℤ). s'.strings kv.0 ≡ some kv.1) ((2, pos 50) ∷ (3, pos 51) ∷ []))
unfolding number_at
claims-verdicts_example =
    claims-verdicts memory memory-IsRedis sets sets-IsIndex 0 1 (pos 100) (omega arith)
      (λ e. omega (arith, e)) deliveries start
      (
        (one_pair.0, one_pair.1, one_pair.2, unread.0, unread.1, unread.2),
        (
          (
            (λ e. omega (arith, e), (λ e. omega (arith, e), tt)),
            (λ e. omega (arith, e), (λ e. omega (arith, e), tt)),
            ((λ e. omega (arith, e), tt), (tt, tt)),
            unread.0,
            unread.1,
            unread.2,
          ),
          ((one_pair.0, one_pair.1, one_pair.2, unread.0, unread.1, unread.2), tt),
        ),
      )
      refl

abbrev gift : Transfer
gift = record {
  tx_id = 7;
  cargo = 3;
  state = unset;
  created_at = pos 0;
  done_at = pos 0;
  retries = pos 0;
}

-- The receiver's copy has no state.
abbrev received : Transfer
received = record gift { created_at = pos 90 }

abbrev encode : Transfer → ℤ
encode t = pos (t.tx_id + pos_part t.created_at * 1000)
