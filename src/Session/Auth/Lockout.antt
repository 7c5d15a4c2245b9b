-- ===== src/Session/Auth/Lockout.antt =====
-- A failed login is not repeated while it is cached.
use infisical_ksp.Base.{
  ℕ, suc, zero, ◌+◌, ◌<◌, ◌||◌, Option, none, some, [], ◌∷◌, ◌≡◌, ◌≢◌, refl, ap, subst, ◌∙◌, inl,
  inr, Bool-cases, Option-cases, arith, ◌==◌, bytes_eq, bytes_beq_iff, beq_refl, beq-false_of_ne,
  Bytes,
}
use native.Mathlib.Nat.{add-zero}
use infisical_ksp.Base.Dict.{lookup, lookup-insert}
use infisical_ksp.Base.Int.{ℤ, pos, ltb_ℤ, ◌+ℤ◌, ◌<ℤ◌}
use infisical_ksp.Base.Result.{Result, ok, err}
use infisical_ksp.Config.{Config, auth_method_token}
use infisical_ksp.Errors.{GoError}
use infisical_ksp.Session.Auth.{
  cached_auth_failure, record_auth_failure, token_is_valid, auth_key, no_credentials, log_in,
  logged_in, renewed, renew_token, ensure_token,
}
use infisical_ksp.Session.Auth.Token.{our_login, log_in-calls}
use infisical_ksp.Session.Defs.{
  AuthFailure, World, Session, State, Env, new_session, now, auth_failure_cache_ttl,
}

module _ (env : Env) (cfg : Config) where
  abbrev key : Bytes
  key = auth_key env cfg

  -- The cache holds the error for the configured identity.
  pub record IsCached (w : World) (e : GoError) : Type 0 where
    pub failure : AuthFailure
    pub found : lookup key w.auth_fail_cache ≡ some failure
    pub same : failure.error ≡ e

  record_auth_failure-IsCached :
      (e : GoError) (w : World) → IsCached (record_auth_failure env key e w) e
  unfolding record_auth_failure
  record_auth_failure-IsCached e w = record {
    failure = record { error = e; until = (now env w).0 +ℤ pos auth_failure_cache_ttl };
    found = lookup-insert key key _ w.auth_fail_cache ∙ rw beq_refl refl;
    same = refl;
  }

  -- What a failed attempt leaves.
  abbrev Caches : Result GoError Bytes → World → Type 0
  Caches (ok token) w = Unit
  Caches (err e) w = IsCached w e

  logged_in-Caches :
      (s : Session) (w : World) (r : Result GoError (Bytes × ℤ))
      → Caches (logged_in env cfg s w r).0 (logged_in env cfg s w r).1.world
  unfolding logged_in
  logged_in-Caches s w (err e) = record_auth_failure-IsCached e w
  logged_in-Caches s w (ok (token, ttl)) = tt

  abbrev Finds : Option GoError → World → Type 0
  Finds none w = Unit
  Finds (some e) w = IsCached w e

  cached_auth_failure-Finds :
      (w : World) → Finds (cached_auth_failure env key w).0 (cached_auth_failure env key w).1
  unfolding cached_auth_failure
  cached_auth_failure-Finds w = elim (Option-cases (lookup key w.auth_fail_cache)) [
    | inl absent ↦ rw (absent, cached_auth_failure) tt
    | inr (f, found) ↦
        rw (found, cached_auth_failure)
          (elim (Bool-cases (ltb_ℤ (now env w).0 f.until)) [
            | inl fresh ↦ rw fresh (record { failure = f; found = found; same = refl })
            | inr stale ↦ rw stale tt
          ])
  ]

  renewed-Caches :
      (s : Session) (w : World) (failure : Option GoError)
      → Finds failure w
      → Caches (renewed env cfg s w failure).0 (renewed env cfg s w failure).1.world
  unfolding renewed log_in
  renewed-Caches s w (some e) h = h
  renewed-Caches s w none h =
      elim (Bool-cases (cfg.auth.client_id == [] || cfg.auth.client_secret == [])) [
        | inl missing ↦ rw missing (record_auth_failure-IsCached (no_credentials env cfg) w)
        | inr given ↦ rw given (logged_in-Caches s _ _)
      ]

  renew_token-Caches :
      (s : Session) (w : World)
      → Caches (renew_token env cfg s w).0 (renew_token env cfg s w).1.world
  unfolding renew_token
  renew_token-Caches s w = renewed-Caches s _ _ (cached_auth_failure-Finds w)

  cached_auth_failure_fresh :
      (w : World) (f : AuthFailure)
      → lookup key w.auth_fail_cache ≡ some f
      → (now env w).0 <ℤ f.until
      → cached_auth_failure env key w ≡ (some f.error, (now env w).1)
  unfolding cached_auth_failure
  cached_auth_failure_fresh w f found fresh = ground (arith, found)

  -- A failure that is fresh is given to whatever session asks, with no call.
  ensure_token_cached :
      (s : Session) (w : World) (f : AuthFailure)
      → cfg.auth.method ≢ auth_method_token
      → s.token ≡ []
      → lookup key w.auth_fail_cache ≡ some f
      → (now env w).0 <ℤ f.until
      → ensure_token env cfg (record { session = s; world = w })
        ≡ (err f.error, record { session = s; world = (now env w).1 })
  unfolding ensure_token token_is_valid renew_token renewed
  ensure_token_cached s w f universal empty found fresh = ground (
    arith,
    bytes_beq_iff cfg.auth.method auth_method_token,
    bytes_beq_iff s.token [],
    cached_auth_failure_fresh w f found fresh,
  )

  ensure_token-Caches :
      (st : State)
      → cfg.auth.method ≢ auth_method_token
      → Caches (ensure_token env cfg st).0 (ensure_token env cfg st).1.world
  unfolding ensure_token
  ensure_token-Caches st universal =
      rw (beq-false_of_ne cfg.auth.method auth_method_token universal)
        (elim (Bool-cases (token_is_valid env st.session st.world).0) [
          | inl valid ↦ rw valid tt
          | inr other ↦ rw other (renew_token-Caches st.session _)
        ])

  -- Whenever a session fails to get a token with Universal Auth, for want of credentials, by a
  -- failed login or by a failure remembered, the cache of the process holds that error.
  pub ensure_token_fails :
      (st : State) {e : GoError}
      → cfg.auth.method ≢ auth_method_token
      → (ensure_token env cfg st).0 ≡ err e
      → IsCached (ensure_token env cfg st).1.world e
  ensure_token_fails st universal h = rw h at (ensure_token-Caches st universal)

  -- The world after `n` more sessions have been opened and have asked for a token.
  pub retries : ℕ → World → World
  retries zero w = w
  retries (suc n) w =
      retries n (ensure_token env cfg (record { session = new_session; world = w })).1.world

  -- The first `n` readings of the clock from now on lie before a time.
  abbrev pub ReadsBefore : ℕ → ℤ → World → Type 0
  ReadsBefore n until w = (i : ℕ) → i < n → pos (env.time (w.clock_reads + i)) <ℤ until

  retries-calls :
      (n : ℕ) (w : World) (f : AuthFailure)
      → cfg.auth.method ≢ auth_method_token
      → lookup key w.auth_fail_cache ≡ some f
      → ReadsBefore n f.until w
      → (retries n w).calls ≡ w.calls
  unfolding retries
  retries-calls zero w f universal found window = refl
  retries-calls (suc n) w f universal found window =
      let first =
        subst (λ k. pos (env.time k) <ℤ f.until) (add-zero w.clock_reads)
          (window 0 (omega arith)) in
      ap (λ (a : Result GoError Bytes × State). (retries n a.1.world).calls)
        (ensure_token_cached new_session w f universal refl found first)
      ∙ retries-calls n (now env w).1 f universal found (later n w window)
    where
      later :
          (n : ℕ) (w : World) → ReadsBefore (suc n) f.until w → ReadsBefore n f.until (now env w).1
      later n w window i h =
          subst (λ k. pos (env.time k) <ℤ f.until) (omega arith) (window (suc i) (omega arith))

  logged_in_failure :
      (s : Session) (w : World) (r : Result GoError (Bytes × ℤ)) {e : GoError}
      → (logged_in env cfg s w r).0 ≡ err e
      → ((logged_in env cfg s w r).1.world.clock_reads ≡ w.clock_reads + 1)
        × (lookup key (logged_in env cfg s w r).1.world.auth_fail_cache
            ≡ some (record { error = e; until = (now env w).0 +ℤ pos auth_failure_cache_ttl }))
  unfolding logged_in record_auth_failure
  logged_in_failure s w (err e') h =
      (refl, lookup-insert key key _ w.auth_fail_cache ∙ rw beq_refl (ground (arith, h)))
  logged_in_failure s w (ok (token, ttl)) h = absurd (cc)

  pub log_in_failure :
      (s : Session) (w : World) {e : GoError}
      → (log_in env cfg s w).0 ≡ err e
      → ((log_in env cfg s w).1.world.clock_reads ≡ w.clock_reads + 1)
        × (lookup key (log_in env cfg s w).1.world.auth_fail_cache
            ≡ some (record { error = e; until = (now env w).0 +ℤ pos auth_failure_cache_ttl }))
  unfolding log_in
  log_in_failure s w h = logged_in_failure s _ _ h

  -- After a failed login with Universal Auth no further login is made, by whatever number of sessions that are opened
  -- one after another, as long as the clock shows less than ten seconds since the failure.
  pub log_in-retries :
      (s : Session) (w : World) {e : GoError} (n : ℕ)
      → cfg.auth.method ≢ auth_method_token
      → (log_in env cfg s w).0 ≡ err e
      → ReadsBefore n ((now env w).0 +ℤ pos auth_failure_cache_ttl) (now env w).1
      → (retries n (log_in env cfg s w).1.world).calls ≡ our_login env cfg ∷ w.calls
  log_in-retries s w n universal h window =
      retries-calls n _ _ universal (log_in_failure s w h).1 (rw ((log_in_failure s w h).0) window)
      ∙ log_in-calls env cfg s w
