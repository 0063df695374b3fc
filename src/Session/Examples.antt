-- ===== src/Session/Examples.antt =====
-- pkg/session/session.go: a player who logs in again at another gateway.
use f.Prelude.{
  ℕ, ◌≡◌, ◌≢◌, refl, sym, ap, ◌∙◌, zero, suc, arith, pos, ◌==◌, ==_iff, if◌then◌else◌, ◌&&◌, Option,
  none, some, List, [], ◌∷◌, inl, inr,
}
use f.Session.{
  Field, uid_field, gate_field, conn_field, login_field, beat_field, Hashes, IsHashes, get, bind,
}
use f.Session.Late.{Call, ends, beats, waits, perform_all, perform_all-bind}

-- Texts are numbers; 0 is the empty one.
abbrev place : Field → ℕ
place uid_field = 0
place gate_field = 1
place conn_field = 2
place login_field = 3
place beat_field = 4

abbrev Store : Type 0
Store = (ℕ → Field → Option ℕ) × (ℕ → List ℕ)

abbrev put : ℕ → Field → ℕ → Store → Store
put k a v s = ((λ j b. if (j == k) && (place b == place a) then some v else s.0 j b), s.1)

abbrev drop_key : ℕ → Store → Store
drop_key k s = ((λ j b. if j == k then none else s.0 j b), s.1)

abbrev add : ℕ → ℕ → Store → Store
add g k s = (s.0, λ h. if h == g then k ∷ s.1 h else s.1 h)

abbrev memory : Hashes
memory = record {
  State = Store;
  Text = ℕ;
  hget = λ k a s. s.0 k a;
  hset = put;
  del = drop_key;
  expire = λ k ttl s. s;
  sadd = add;
  srem = λ g k s. (s.0, λ h. if h == g then [] else s.1 h);
  smembers = λ g s. s.1 g;
  del_set = λ g s. (s.0, λ h. if h == g then [] else s.1 h);
  empty = 0;
  same = λ v w. v == w;
  of_uint = λ n. n;
  to_uint = λ v. v;
}

place-injective : (a b : Field) → place a ≡ place b → a ≡ b
place-injective a b h = sym (field-place a) ∙ ap field h ∙ field-place b
  where
    field : ℕ → Field
    field zero = uid_field
    field (suc zero) = gate_field
    field (suc (suc zero)) = conn_field
    field (suc (suc (suc zero))) = login_field
    field _ = beat_field

    field-place : (a : Field) → field (place a) ≡ a
    field-place uid_field = refl
    field-place gate_field = refl
    field-place conn_field = refl
    field-place login_field = refl
    field-place beat_field = refl

put-field : (k : ℕ) (a b : Field) (v : ℕ) (s : Store) → a ≢ b → (put k b v s).0 k a ≡ s.0 k a
put-field k a b v s h = ground (arith, place-injective a b, h)

memory-IsHashes : IsHashes memory
memory-IsHashes = record {
  hget-hset = λ k a v s. ground arith;
  hget-hset_field = put-field;
  hget-hset_key = λ j k a b v s h. ground (arith, h);
  hget-del_key = λ j k a s h. ground (arith, h);
  hget-del = λ k a s. ground arith;
  hget-expire = λ k a ttl s h. refl;
  hget-expire_key = λ j k a ttl s h. refl;
  hget-sadd = λ j k a g s. refl;
  hget-srem = λ j k a g s. refl;
  same-iff = ==_iff;
  to_of_uint = λ n. refl;
}

-- The old connection ends and beats late, and another player's ends.
abbrev calls : List (Call memory)
calls = ends 7 1 10 ∷ beats 7 1 10 90 (pos 300) ∷ waits (λ s. s) ∷ ends 8 2 20 ∷ []

abbrev start : Store
start = ((λ k a. none), λ g. [])

perform_all-bind_example :
    (let s' = perform_all memory calls (bind memory 7 2 20 50 (pos 300) start).0 in
      (get memory 7 s' ≡ record { uid = 7; gate_id = 2; conn_id = 20; login_at = 50; beat_at = 50 })
      × ((gate' : ℕ) (conn' now' : ℕ)
          → (bind memory 7 gate' conn' now' (pos 300) s').1 ≡ some (2, 20)))
perform_all-bind_example =
    perform_all-bind memory memory-IsHashes 7 2 20 50 (pos 300) calls start (omega arith)
      (λ e. omega (arith, e))
      (
        inr (inl (λ e. omega (arith, e))),
        (inr (inl (λ e. omega (arith, e))), ((λ a s. refl), (inl (λ e. omega (arith, e)), tt))),
      )
