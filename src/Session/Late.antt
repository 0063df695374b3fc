-- ===== src/Session/Late.antt =====
-- pkg/session/session.go: the calls of connections that have been replaced.
use f.Prelude.{
  ℕ, ◌≡◌, ◌≢◌, refl, sym, ap, ◌∙◌, ℤ, pos, ◌<ℤ◌, Bool, true, false, ◌&&◌, Bool-cases, inl, inr, ◌⊎◌,
  some, List, [], ◌∷◌, All, ℕ_discrete,
}
use f.Session.{
  Field, uid_field, gate_field, conn_field, login_field, beat_field, Hashes, IsHashes, get, bind,
  script_bind, is_current, unbind, touch,
}

-- A call of a connection, at its end or on its heartbeat, or what else happens in Redis meanwhile.
pub data Call (H : Hashes) : Type 0 where
  ends : ℕ → H.Text → ℕ → Call H
  beats : ℕ → H.Text → ℕ → ℕ → ℤ → Call H
  waits : (H.State → H.State) → Call H

module _ (H : Hashes) where
  -- Another connection's call, or one during which the session does not expire.
  abbrev pub IsOther : ℕ → H.Text → ℕ → Call H → Type 0
  IsOther uid gate conn (ends u g c) = (u ≢ uid) ⊎ ((g ≢ gate) ⊎ (c ≢ conn))
  IsOther uid gate conn (beats u g c now ttl) = (u ≢ uid) ⊎ ((g ≢ gate) ⊎ (c ≢ conn))
  IsOther uid gate conn (waits w) = (a : Field) (s : H.State) → H.hget uid a (w s) ≡ H.hget uid a s

  unfoldable pub perform : Call H → H.State → H.State
  perform (ends u g c) s = (unbind H u g c s).0
  perform (beats u g c now ttl) s = (touch H u g c now ttl s).0
  perform (waits w) s = w s

  unfoldable pub perform_all : List (Call H) → H.State → H.State
  perform_all [] s = s
  perform_all (c ∷ cs) s = perform_all cs (perform c s)

  -- The route of a player.
  abbrev pub RoutedTo : ℕ → H.Text → ℕ → H.State → Type 0
  RoutedTo uid gate conn s =
      (H.hget uid gate_field s ≡ some gate) × (H.hget uid conn_field s ≡ some (H.of_uint conn))

module _ (H : Hashes) (L : IsHashes H) where
  gate≢conn : gate_field ≢ conn_field
  gate≢conn h = cc h

  not_true : (b : Bool) → (b ≡ true → ⊥) → b ≡ false
  not_true true h = absurd (h refl)
  not_true false h = refl

  of_uint-injective : (a b : ℕ) → H.of_uint a ≡ H.of_uint b → a ≡ b
  of_uint-injective a b h = sym (L.to_of_uint a) ∙ ap H.to_uint h ∙ L.to_of_uint b

  -- The test fails for another connection of the player.
  is_current-other :
      (uid : ℕ) (gate : H.Text) (conn : ℕ) (g : H.Text) (c : ℕ) (s : H.State)
      → RoutedTo H uid gate conn s
      → (g ≢ gate) ⊎ (c ≢ conn)
      → is_current H uid g c s ≡ false
  unfolding is_current
  is_current-other uid gate conn g c s (a, b) n = rw a (rw b (by_case n))
    where
      and_false : (b : Bool) → (b && false) ≡ false
      and_false true = refl
      and_false false = refl

      by_case :
          (g ≢ gate) ⊎ (c ≢ conn) → (H.same gate g && H.same (H.of_uint conn) (H.of_uint c)) ≡ false
      by_case (inl k) = rw (not_true (H.same gate g) (λ e. k (sym ((L.same-iff gate g).0 e)))) refl
      by_case (inr k) =
          rw
            (not_true (H.same (H.of_uint conn) (H.of_uint c)) (λ e.
              k (sym (of_uint-injective conn c ((L.same-iff (H.of_uint conn) (H.of_uint c)).0 e)))))
            (and_false (H.same gate g))

  -- Of another player.
  unbind-apart :
      (uid u : ℕ) (g : H.Text) (c : ℕ) (a : Field) (s : H.State)
      → uid ≢ u
      → H.hget uid a (unbind H u g c s).0 ≡ H.hget uid a s
  unfolding unbind
  unbind-apart uid u g c a s n = elim (Bool-cases (is_current H u g c s)) [
    | inl e ↦ rw e (L.hget-srem uid u a g (H.del u s) ∙ L.hget-del_key uid u a s n)
    | inr e ↦ rw e (L.hget-srem uid u a g s)
  ]

  touch-apart :
      (uid u : ℕ) (g : H.Text) (c now : ℕ) (ttl : ℤ) (a : Field) (s : H.State)
      → uid ≢ u
      → H.hget uid a (touch H u g c now ttl s).0 ≡ H.hget uid a s
  unfolding touch
  touch-apart uid u g c now ttl a s n = elim (Bool-cases (is_current H u g c s)) [
    | inl e ↦ rw e (
        L.hget-expire_key uid u a ttl (H.hset u beat_field (H.of_uint now) s) n
        ∙ L.hget-hset_key uid u a beat_field (H.of_uint now) s n)
    | inr e ↦ rw e refl
  ]

  -- Of the same player, from a connection that is not the session's.
  unbind-other :
      (uid : ℕ) (g : H.Text) (c : ℕ) (a : Field) (s : H.State)
      → is_current H uid g c s ≡ false
      → H.hget uid a (unbind H uid g c s).0 ≡ H.hget uid a s
  unfolding unbind
  unbind-other uid g c a s e = rw e (L.hget-srem uid uid a g s)

  touch-other :
      (uid : ℕ) (g : H.Text) (c now : ℕ) (ttl : ℤ) (s : H.State)
      → is_current H uid g c s ≡ false
      → touch H uid g c now ttl s ≡ (s, false)
  unfolding touch
  touch-other uid g c now ttl s e = rw e refl

  not_here : (uid u : ℕ) {P : Type 0} → u ≡ uid → (u ≢ uid) ⊎ P → P
  not_here uid u e (inl n) = absurd (n e)
  not_here uid u e (inr p) = p

  -- A call of another connection leaves the session's fields.
  perform-keeps :
      (uid : ℕ) (gate : H.Text) (conn : ℕ) (c : Call H) (a : Field) (s : H.State)
      → IsOther H uid gate conn c
      → RoutedTo H uid gate conn s
      → H.hget uid a (perform H c s) ≡ H.hget uid a s
  unfolding perform
  perform-keeps uid gate conn (ends u g c) a s n r = elim (ℕ_discrete u uid) [
    | yes e ↦
        let e' = is_current-other uid gate conn g c s r (not_here uid u e n) in
        ap (λ v. H.hget uid a (unbind H v g c s).0) e ∙ unbind-other uid g c a s e'
    | no d ↦ unbind-apart uid u g c a s (λ e. d (sym e))
  ]
  perform-keeps uid gate conn (beats u g c now ttl) a s n r = elim (ℕ_discrete u uid) [
    | yes e ↦
        let e' = is_current-other uid gate conn g c s r (not_here uid u e n) in
        ap (λ v. H.hget uid a (touch H v g c now ttl s).0) e
        ∙ ap (λ (x : H.State × Bool). H.hget uid a x.0) (touch-other uid g c now ttl s e')
    | no d ↦ touch-apart uid u g c now ttl a s (λ e. d (sym e))
  ]
  perform-keeps uid gate conn (waits w) a s n r = n a s

  perform_all-keeps :
      (uid : ℕ) (gate : H.Text) (conn : ℕ) (cs : List (Call H)) (a : Field) (s : H.State)
      → All (IsOther H uid gate conn) cs
      → RoutedTo H uid gate conn s
      → H.hget uid a (perform_all H cs s) ≡ H.hget uid a s
  unfolding perform_all
  perform_all-keeps uid gate conn [] a s n r = refl
  perform_all-keeps uid gate conn (c ∷ cs) a s n r =
      let s' = perform H c s in
      let keep : (b : Field) → H.hget uid b s' ≡ H.hget uid b s =
        λ b. perform-keeps uid gate conn c b s n.0 r in
      perform_all-keeps uid gate conn cs a s' n.1 (keep gate_field ∙ r.0, keep conn_field ∙ r.1)
      ∙ keep a

  -- A new session is read back whole.
  bind-fields :
      (uid : ℕ) (gate : H.Text) (conn now : ℕ) (ttl : ℤ) (s : H.State)
      → pos 0 <ℤ ttl
      → (let s' = (bind H uid gate conn now ttl s).0 in
          RoutedTo H uid gate conn s'
          × (H.hget uid login_field s' ≡ some (H.of_uint now))
          × (H.hget uid beat_field s' ≡ some (H.of_uint now)))
  unfolding bind script_bind
  bind-fields uid gate conn now ttl s lives =
      let s1 = H.hset uid uid_field (H.of_uint uid) s in
      let s2 = H.hset uid gate_field gate s1 in
      let s3 = H.hset uid conn_field (H.of_uint conn) s2 in
      let s4 = H.hset uid login_field (H.of_uint now) s3 in
      let s5 = H.hset uid beat_field (H.of_uint now) s4 in
      let last : (a : Field)
          → H.hget uid a (H.sadd gate uid (H.expire uid ttl s5)) ≡ H.hget uid a s5 =
        λ a. L.hget-sadd uid uid a gate (H.expire uid ttl s5) ∙ L.hget-expire uid a ttl s5 lives in
      let login = L.hget-hset_field uid login_field beat_field (H.of_uint now) s4 (λ e. cc e) in
      (
        (
          last gate_field
              ∙ L.hget-hset_field uid gate_field beat_field (H.of_uint now) s4 (λ e. cc e)
              ∙ L.hget-hset_field uid gate_field login_field (H.of_uint now) s3 (λ e. cc e)
              ∙ L.hget-hset_field uid gate_field conn_field (H.of_uint conn) s2 (λ e. cc e)
              ∙ L.hget-hset uid gate_field gate s1,
          last conn_field
              ∙ L.hget-hset_field uid conn_field beat_field (H.of_uint now) s4 (λ e. cc e)
              ∙ L.hget-hset_field uid conn_field login_field (H.of_uint now) s3 (λ e. cc e)
              ∙ L.hget-hset uid conn_field (H.of_uint conn) s2,
        ),
        last login_field ∙ login ∙ L.hget-hset uid login_field (H.of_uint now) s3,
        last beat_field ∙ L.hget-hset uid beat_field (H.of_uint now) s4,
      )

  replaced :
      (uid : ℕ) (gate gate' : H.Text) (conn conn' now' : ℕ) (ttl : ℤ) (s : H.State)
      → RoutedTo H uid gate conn s
      → H.same gate H.empty ≡ false
      → (bind H uid gate' conn' now' ttl s).1 ≡ some (gate, conn)
  unfolding bind
  replaced uid gate gate' conn conn' now' ttl s r e =
      rw r.0 (rw r.1 (rw e (rw (L.to_of_uint conn) refl)))

  -- After a login at a gateway with a time to live, whatever ends and heartbeats of other
  -- connections come in, late or of other players, and whatever else happens while the session
  -- does not expire, the player's session is read back as it was bound, and the next login is
  -- told to kick exactly that connection.
  pub perform_all-bind :
      (uid : ℕ) (gate : H.Text) (conn now : ℕ) (ttl : ℤ) (cs : List (Call H)) (s : H.State)
      → pos 0 <ℤ ttl
      → gate ≢ H.empty
      → All (IsOther H uid gate conn) cs
      → (let s' = perform_all H cs (bind H uid gate conn now ttl s).0 in
          (get H uid s'
            ≡ record { uid = uid; gate_id = gate; conn_id = conn; login_at = now; beat_at = now })
          × ((gate' : H.Text) (conn' now' : ℕ)
              → (bind H uid gate' conn' now' ttl s').1 ≡ some (gate, conn)))
  unfolding get
  perform_all-bind uid gate conn now ttl cs s lives e n =
      let s0 = (bind H uid gate conn now ttl s).0 in
      let s' = perform_all H cs s0 in
      let (r, login, beat) = bind-fields uid gate conn now ttl s lives in
      let keep : (a : Field) → H.hget uid a s' ≡ H.hget uid a s0 =
        λ a. perform_all-keeps uid gate conn cs a s0 n r in
      let there : RoutedTo H uid gate conn s' = (keep gate_field ∙ r.0, keep conn_field ∙ r.1) in
      let seen : H.same gate H.empty ≡ false =
        not_true (H.same gate H.empty) (λ q. e ((L.same-iff gate H.empty).0 q)) in
      (
        rw there.0 (
            rw there.1 (
              rw (keep login_field ∙ login) (
                rw (keep beat_field ∙ beat)
                  (rw (L.to_of_uint conn) (rw (L.to_of_uint now) refl))))),
        λ gate' conn' now'. replaced uid gate gate' conn conn' now' ttl s' there seen,
      )
