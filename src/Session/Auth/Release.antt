-- ===== src/Session/Auth/Release.antt =====
-- A failed login is repeated once its time in the cache is over.
use infisical_ksp.Base.{
  ℕ, ◌+◌, none, some, [], ◌∷◌, ◌≡◌, ◌≢◌, refl, ap, ◌∙◌, bytes_eq, bytes_beq_iff, beq_refl, arith,
  Bytes,
}
use infisical_ksp.Base.Dict.{lookup, lookup-erase, erase}
use infisical_ksp.Base.Int.{ℤ, pos, ◌+ℤ◌, ◌≤ℤ◌}
use infisical_ksp.Base.Result.{Result, ok, err}
use infisical_ksp.Client
use infisical_ksp.Config.{Config, auth_method_token}
use infisical_ksp.Errors.{GoError}
use infisical_ksp.Session.Auth.{
  cached_auth_failure, clear_auth_failure, cache_expiry, token_is_valid, auth_key, log_in,
  logged_in, renewed, renew_token, ensure_token,
}
use infisical_ksp.Session.Auth.Lockout.{log_in_failure}
use infisical_ksp.Session.Auth.Token.{our_login, log_in-calls}
use infisical_ksp.Session.Defs.{
  AuthFailure, World, Session, State, Env, new_session, now, auth_failure_cache_ttl,
}

module _ (env : Env) (cfg : Config) where
  abbrev key : Bytes
  key = auth_key env cfg

  -- The clock is read `n` times by others.
  abbrev pub elapsed : ℕ → World → World
  elapsed n w = record w { clock_reads = w.clock_reads + n }

  -- The world in which a failure has been found too old.
  abbrev forgotten : World → World
  forgotten w = record (now env w).1 { auth_fail_cache = erase key w.auth_fail_cache }

  cached_auth_failure_stale :
      (w : World) (f : AuthFailure)
      → lookup key w.auth_fail_cache ≡ some f
      → f.until ≤ℤ (now env w).0
      → cached_auth_failure env key w ≡ (none, forgotten w)
  unfolding cached_auth_failure
  cached_auth_failure_stale w f found stale = ground (arith, found)

  ensure_token_stale :
      (w : World) (f : AuthFailure)
      → cfg.auth.method ≢ auth_method_token
      → cfg.auth.client_id ≢ []
      → cfg.auth.client_secret ≢ []
      → lookup key w.auth_fail_cache ≡ some f
      → f.until ≤ℤ (now env w).0
      → ensure_token env cfg (record { session = new_session; world = w })
        ≡ log_in env cfg new_session (forgotten w)
  unfolding ensure_token token_is_valid renew_token renewed
  ensure_token_stale w f universal id secret found stale = ground (
    arith,
    bytes_beq_iff cfg.auth.method auth_method_token,
    bytes_beq_iff cfg.auth.client_id [],
    bytes_beq_iff cfg.auth.client_secret [],
    bytes_beq_iff new_session.token [],
    cached_auth_failure_stale w f found stale,
  )

  -- What a login that the server grants leaves.
  log_in_granted :
      (s : Session) (w : World) {token : Bytes} {ttl : ℤ}
      → (Client.login env.server w.calls cfg.auth.client_id cfg.auth.client_secret).0
        ≡ ok (token, ttl)
      → ((log_in env cfg s w).0 ≡ ok token)
        × ((log_in env cfg s w).1.session.token ≡ token)
        × (lookup key (log_in env cfg s w).1.world.auth_fail_cache ≡ none)
  unfolding log_in logged_in clear_auth_failure cache_expiry
  log_in_granted s w granted =
      rw (log_in, granted) (refl, refl, lookup-erase key key w.auth_fail_cache ∙ rw beq_refl refl)

  -- After a failed login with Universal Auth, and once the clock shows ten seconds more than at the
  -- failure, the next session logs in again; if the server then grants the login, it gets the token,
  -- and the failure is forgotten.
  pub log_in_again :
      (s : Session) (w : World) (wait : ℕ) {e : GoError} {token : Bytes} {ttl : ℤ}
      → cfg.auth.method ≢ auth_method_token
      → cfg.auth.client_id ≢ []
      → cfg.auth.client_secret ≢ []
      → (log_in env cfg s w).0 ≡ err e
      → ((now env w).0 +ℤ pos auth_failure_cache_ttl)
        ≤ℤ (now env (elapsed wait (log_in env cfg s w).1.world)).0
      → (Client.login env.server
          (our_login env cfg ∷ w.calls)
          cfg.auth.client_id
          cfg.auth.client_secret).0
        ≡ ok (token, ttl)
      → let again : Result GoError Bytes × State =
          ensure_token env cfg
            (record { session = new_session; world = elapsed wait (log_in env cfg s w).1.world }) in
        (again.0 ≡ ok token)
        × (again.1.session.token ≡ token)
        × (again.1.world.calls ≡ our_login env cfg ∷ our_login env cfg ∷ w.calls)
        × (lookup key again.1.world.auth_fail_cache ≡ none)
  log_in_again s w wait {e} {token} {ttl} universal id secret failed waited granted =
      let w1 = elapsed wait (log_in env cfg s w).1.world in
      let found = (log_in_failure env cfg s w failed).1 in
      let w2 = forgotten w1 in
      let calls = log_in-calls env cfg s w in
      let out = log_in_granted new_session w2 {token = token} {ttl = ttl} (rw calls granted) in
      rw (ensure_token_stale w1 _ universal id secret found waited) (
        out.0,
        out.1,
        log_in-calls env cfg new_session w2 ∙ ap (◌∷◌ (our_login env cfg)) calls,
        out.2,
      )
