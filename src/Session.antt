-- ===== src/Session.antt =====
-- pkg/session/session.go: the route of a player to the connection at a gateway, with the Redis scripts.
-- Redis' hashes and sets, its strings and the decimal text of a number are an interface. Network
-- failures, the batch reads and the cache in front of the store are not modelled.
pub mod Late
mod Examples
use f.Prelude.{
  ℕ, ◌≡◌, ◌≢◌, ◌↔◌, ℤ, pos, ◌<ℤ◌, if◌then◌else◌, Bool, true, false, ◌&&◌, ◌||◌, not, Option, none,
  some, List, [], ◌∷◌, ◌+◌, ◌==◌,
}

-- The fields of a session's hash.
pub data Field : Type 0 where
  uid_field gate_field conn_field login_field beat_field : Field

-- The keys: one hash for a player's session, one set for the sessions of a gateway.
pub record Hashes : Type 1 where
  pub State : Type 0
  pub Text : Type 0
  pub hget : ℕ → Field → State → Option Text
  pub hset : ℕ → Field → Text → State → State
  pub del : ℕ → State → State
  pub expire : ℕ → ℤ → State → State
  pub sadd : Text → ℕ → State → State
  pub srem : Text → ℕ → State → State
  pub smembers : Text → State → List ℕ
  pub del_set : Text → State → State
  pub empty : Text
  pub same : Text → Text → Bool
  -- `strconv.FormatUint` and `ParseUint`, of a number and of a time
  pub of_uint : ℕ → Text
  pub to_uint : Text → ℕ

-- What the scripts rely on.
pub record IsHashes (H : Hashes) : Type 0 where
  pub hget-hset :
      (k : ℕ) (a : Field) (v : H.Text) (s : H.State) → H.hget k a (H.hset k a v s) ≡ some v
  pub hget-hset_field :
      (k : ℕ) (a b : Field) (v : H.Text) (s : H.State)
      → a ≢ b
      → H.hget k a (H.hset k b v s) ≡ H.hget k a s
  pub hget-hset_key :
      (j k : ℕ) (a b : Field) (v : H.Text) (s : H.State)
      → j ≢ k
      → H.hget j a (H.hset k b v s) ≡ H.hget j a s
  pub hget-del_key :
      (j k : ℕ) (a : Field) (s : H.State) → j ≢ k → H.hget j a (H.del k s) ≡ H.hget j a s
  pub hget-del : (k : ℕ) (a : Field) (s : H.State) → H.hget k a (H.del k s) ≡ none
  pub hget-expire :
      (k : ℕ) (a : Field) (ttl : ℤ) (s : H.State)
      → pos 0 <ℤ ttl
      → H.hget k a (H.expire k ttl s) ≡ H.hget k a s
  pub hget-expire_key :
      (j k : ℕ) (a : Field) (ttl : ℤ) (s : H.State)
      → j ≢ k
      → H.hget j a (H.expire k ttl s) ≡ H.hget j a s
  pub hget-sadd :
      (j k : ℕ) (a : Field) (g : H.Text) (s : H.State) → H.hget j a (H.sadd g k s) ≡ H.hget j a s
  pub hget-srem :
      (j k : ℕ) (a : Field) (g : H.Text) (s : H.State) → H.hget j a (H.srem g k s) ≡ H.hget j a s
  pub same-iff : (v w : H.Text) → (H.same v w ≡ true) ↔ (v ≡ w)
  pub to_of_uint : (n : ℕ) → H.to_uint (H.of_uint n) ≡ n

module _ (H : Hashes) where
  -- `Info`; without a gateway the player is offline.
  pub record Info : Type 0 where
    pub uid : ℕ
    pub gate_id : H.Text
    pub conn_id : ℕ
    pub login_at : ℕ
    pub beat_at : ℕ

  abbrev pub text_or : H.Text → Option H.Text → H.Text
  text_or d none = d
  text_or d (some v) = v

  abbrev pub number_or_0 : Option H.Text → ℕ
  number_or_0 none = 0
  number_or_0 (some v) = H.to_uint v

  -- `Get` with `parseInfo`
  unfoldable pub get : ℕ → H.State → Info
  get uid s = record {
    uid = uid;
    gate_id = text_or H.empty (H.hget uid gate_field s);
    conn_id = number_or_0 (H.hget uid conn_field s);
    login_at = number_or_0 (H.hget uid login_field s);
    beat_at = number_or_0 (H.hget uid beat_field s);
  }

  -- `scriptBind`
  unfoldable pub script_bind : ℕ → H.Text → ℕ → ℕ → ℤ → H.State → H.State
  script_bind uid gate conn now ttl s = H.expire uid ttl (
      H.hset uid beat_field (H.of_uint now) (
        H.hset uid login_field (H.of_uint now) (
          H.hset uid conn_field (H.of_uint conn)
            (H.hset uid gate_field gate (H.hset uid uid_field (H.of_uint uid) s)))))

  -- `Bind`: the session that is replaced, if there was one.
  unfoldable pub bind : ℕ → H.Text → ℕ → ℕ → ℤ → H.State → H.State × Option (H.Text × ℕ)
  bind uid gate conn now ttl s =
      let old = text_or H.empty (H.hget uid gate_field s) in
      (
        H.sadd gate uid (script_bind uid gate conn now ttl s),
        if H.same old H.empty then none else some (old, number_or_0 (H.hget uid conn_field s)),
      )

  abbrev pub names : Option H.Text → H.Text → Bool
  names none v = false
  names (some w) v = H.same w v

  -- The test of `scriptUnbind` and `scriptTouch`: the session is this connection's.
  unfoldable pub is_current : ℕ → H.Text → ℕ → H.State → Bool
  is_current uid gate conn s =
      names (H.hget uid gate_field s) gate && names (H.hget uid conn_field s) (H.of_uint conn)

  -- `Unbind`
  unfoldable pub unbind : ℕ → H.Text → ℕ → H.State → H.State × Bool
  unbind uid gate conn s =
      if is_current uid gate conn s
      then (H.srem gate uid (H.del uid s), true)
      else (H.srem gate uid s, false)

  -- `Touch`
  unfoldable pub touch : ℕ → H.Text → ℕ → ℕ → ℤ → H.State → H.State × Bool
  touch uid gate conn now ttl s =
      if is_current uid gate conn s
      then (H.expire uid ttl (H.hset uid beat_field (H.of_uint now) s), true)
      else (s, false)

  -- The loop of `CleanGate`.
  unfoldable pub clean_each : H.Text → List ℕ → H.State → H.State × ℕ
  clean_each gate [] s = (s, 0)
  clean_each gate (uid ∷ uids) s =
      let info = get uid s in
      let (kept, n) = clean_each gate uids s in
      let (cleaned, k) = clean_each gate uids (unbind uid gate info.conn_id s).0 in
      if H.same info.gate_id gate then (cleaned, k + 1) else (kept, n)

  -- `CleanGate`
  unfoldable pub clean_gate : H.Text → H.State → H.State × ℕ
  clean_gate gate s = let (s', n) = clean_each gate (H.smembers gate s) s in (H.del_set gate s', n)
