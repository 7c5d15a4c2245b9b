-- ===== src/Session/Auth/Token.antt =====
-- Which tokens a session uses, and how often it logs in.
use infisical_ksp.Base.{
  true, ◌||◌, Option, none, some, List, [], ◌∷◌, ◌≡◌, ◌≢◌, refl, ◌∙◌, ◌⊎◌, inl, inr, Bool-cases,
  arith, ◌==◌, bytes_eq, bytes_beq_iff, beq-false_of_ne, ap, Bytes,
}
use infisical_ksp.Base.Int.{ℤ, ◌<ℤ◌}
use infisical_ksp.Base.Result.{Result, ok, err, Result-cases}
use infisical_ksp.Client
use infisical_ksp.Client.{Call, login_call, check_reply}
use infisical_ksp.Config.{Config, auth_method_token}
use infisical_ksp.Errors.{GoError}
use infisical_ksp.Session.Auth.{
  cached_auth_failure, record_auth_failure, clear_auth_failure, cache_expiry, token_is_valid,
  auth_key, log_in, logged_in, renewed, renew_token, ensure_token,
}
use infisical_ksp.Session.Defs.{World, Session, State, Env, now}

module _ (env : Env) (cfg : Config) where
  -- The one call that getting a token may make.
  abbrev pub our_login : Call
  our_login = login_call cfg.auth.client_id cfg.auth.client_secret

  abbrev pub LogsInAtMostOnce : World → World → Type 0
  LogsInAtMostOnce w w' = (w'.calls ≡ w.calls) ⊎ (w'.calls ≡ our_login ∷ w.calls)

  login-calls :
      (calls : List Call)
      → (Client.login env.server calls cfg.auth.client_id cfg.auth.client_secret).1
        ≡ our_login ∷ calls
  unfolding Client.login
  login-calls calls = refl

  logged_in-calls :
      (s : Session) (w : World) (r : Result GoError (Bytes × ℤ))
      → (logged_in env cfg s w r).1.world.calls ≡ w.calls
  unfolding logged_in record_auth_failure clear_auth_failure cache_expiry
  logged_in-calls s w (err e) = refl
  logged_in-calls s w (ok (token, ttl)) = refl

  pub log_in-calls :
      (s : Session) (w : World) → (log_in env cfg s w).1.world.calls ≡ our_login ∷ w.calls
  unfolding log_in
  log_in-calls s w = logged_in-calls s _ _ ∙ login-calls w.calls

  cached_auth_failure-calls :
      (key : Bytes) (w : World) → (cached_auth_failure env key w).1.calls ≡ w.calls
  unfolding cached_auth_failure
  cached_auth_failure-calls key w = ground arith

  renewed-calls :
      (s : Session) (w : World) (failure : Option GoError)
      → LogsInAtMostOnce w (renewed env cfg s w failure).1.world
  unfolding renewed record_auth_failure
  renewed-calls s w (some e) = inl refl
  renewed-calls s w none = ground (arith, log_in-calls s w)

  renew_token-calls :
      (s : Session) (w : World) → LogsInAtMostOnce w (renew_token env cfg s w).1.world
  unfolding renew_token
  renew_token-calls s w =
      let found = cached_auth_failure env (auth_key env cfg) w in
      ground
        (arith, cached_auth_failure-calls (auth_key env cfg) w, renewed-calls s found.1 found.0)

  token_is_valid-calls : (s : Session) (w : World) → (token_is_valid env s w).1.calls ≡ w.calls
  unfolding token_is_valid
  token_is_valid-calls s w = ground arith

  -- Getting a token makes no call, or one login with the configured credentials.
  pub ensure_token-calls :
      (st : State) → LogsInAtMostOnce st.world (ensure_token env cfg st).1.world
  unfolding ensure_token
  ensure_token-calls st = ground (
    arith,
    token_is_valid-calls st.session st.world,
    renew_token-calls st.session (token_is_valid env st.session st.world).1,
  )

  login_ne_nil :
      (calls : List Call) (token : Bytes) (ttl : ℤ)
      → (Client.login env.server calls cfg.auth.client_id cfg.auth.client_secret).0
        ≡ ok (token, ttl)
      → token ≢ []
  unfolding Client.login
  login_ne_nil calls token ttl h e =
      ground (arith, bytes_beq_iff token [], check_reply {A = Client.LoginResponse})

  -- A token that is given out is not empty, and the session holds it.
  abbrev Holds : Result GoError Bytes → State → Type 0
  Holds (ok token) st = (st.session.token ≡ token) × (token ≢ [])
  Holds (err e) st = Unit

  abbrev IsNonEmpty : Result GoError (Bytes × ℤ) → Type 0
  IsNonEmpty (ok (token, ttl)) = token ≢ []
  IsNonEmpty (err e) = Unit

  login-IsNonEmpty :
      (calls : List Call)
      → IsNonEmpty (Client.login env.server calls cfg.auth.client_id cfg.auth.client_secret).0
  login-IsNonEmpty calls =
      elim (Result-cases
        (Client.login env.server calls cfg.auth.client_id cfg.auth.client_secret).0) [
          | inl (e, h) ↦ rw h tt
          | inr ((token, ttl), h) ↦ rw h (login_ne_nil calls token ttl h)
        ]

  logged_in-Holds :
      (s : Session) (w : World) (r : Result GoError (Bytes × ℤ))
      → IsNonEmpty r
      → Holds (logged_in env cfg s w r).0 (logged_in env cfg s w r).1
  unfolding logged_in
  logged_in-Holds s w (err e) h = tt
  logged_in-Holds s w (ok (token, ttl)) h = (refl, h)

  renewed-Holds :
      (s : Session) (w : World) (failure : Option GoError)
      → Holds (renewed env cfg s w failure).0 (renewed env cfg s w failure).1
  unfolding renewed log_in
  renewed-Holds s w (some e) = tt
  renewed-Holds s w none =
      elim (Bool-cases (cfg.auth.client_id == [] || cfg.auth.client_secret == [])) [
        | inl missing ↦ rw missing tt
        | inr given ↦ rw given (logged_in-Holds s _ _ (login-IsNonEmpty w.calls))
      ]

  token_is_valid_ne_nil :
      (s : Session) (w : World) → (token_is_valid env s w).0 ≡ true → s.token ≢ []
  unfolding token_is_valid
  token_is_valid_ne_nil s w h = ground (arith, h, bytes_beq_iff s.token [])

  ensure_token-Holds :
      (st : State)
      → cfg.auth.method ≢ auth_method_token
      → Holds (ensure_token env cfg st).0 (ensure_token env cfg st).1
  unfolding ensure_token renew_token
  ensure_token-Holds st universal =
      rw (beq-false_of_ne cfg.auth.method auth_method_token universal)
        (elim (Bool-cases (token_is_valid env st.session st.world).0) [
          | inl valid ↦ rw valid (refl, token_is_valid_ne_nil st.session st.world valid)
          | inr other ↦ rw other (renewed-Holds st.session _ _)
        ])

  ensure_token_valid :
      (st : State)
      → cfg.auth.method ≢ auth_method_token
      → st.session.token ≢ []
      → (now env st.world).0 <ℤ st.session.token_expiry
      → ensure_token env cfg st
        ≡ (ok st.session.token, record { session = st.session; world = (now env st.world).1 })
  unfolding ensure_token token_is_valid
  ensure_token_valid st universal filled fresh =
      ground
        (arith, bytes_beq_iff cfg.auth.method auth_method_token, bytes_beq_iff st.session.token [])

  -- A token that Universal Auth gave out is given out again, with no call and no change but a
  -- reading of the clock, as long as the clock shows a time before its expiry.
  pub ensure_token_again :
      (st : State) {token : Bytes}
      → cfg.auth.method ≢ auth_method_token
      → (ensure_token env cfg st).0 ≡ ok token
      → (now env (ensure_token env cfg st).1.world).0
        <ℤ (ensure_token env cfg st).1.session.token_expiry
      → ensure_token env cfg (ensure_token env cfg st).1 ≡ (
        ok token,
        record (ensure_token env cfg st).1 {
          world = (now env (ensure_token env cfg st).1.world).1;
        },
      )
  ensure_token_again st universal h fresh =
      let (held, filled) = rw h at (ensure_token-Holds st universal) in
      ensure_token_valid (ensure_token env cfg st).1 universal (rw held filled) fresh
      ∙ ap
          (λ t. (
            ok t,
            record (ensure_token env cfg st).1 {
              world = (now env (ensure_token env cfg st).1.world).1;
            },
          ))
          held

  -- A result that is no empty token.
  abbrev pub IsUsable : Result GoError Bytes → Type 0
  IsUsable (ok token) = token ≢ []
  IsUsable (err e) = Unit

  IsUsable-of_Holds : (r : Result GoError Bytes) (st : State) → Holds r st → IsUsable r
  IsUsable-of_Holds (ok token) st h = h.1
  IsUsable-of_Holds (err e) st h = tt

  configured-IsUsable :
      (st : State) → cfg.auth.method ≡ auth_method_token → IsUsable (ensure_token env cfg st).0
  unfolding ensure_token
  configured-IsUsable st token_auth =
      rw ((bytes_beq_iff cfg.auth.method auth_method_token).1 token_auth)
        (elim (Bool-cases (cfg.auth.token == [])) [
          | inl empty ↦ rw empty tt
          | inr filled ↦ rw filled (λ e. ground (arith, bytes_beq_iff cfg.auth.token []))
        ])

  -- Whatever the method of authentication, a session never goes on with an empty token.
  pub ensure_token-IsUsable : (st : State) → IsUsable (ensure_token env cfg st).0
  ensure_token-IsUsable st = elim (Bool-cases (cfg.auth.method == auth_method_token)) [
    | inl token_auth ↦
        configured-IsUsable st ((bytes_beq_iff cfg.auth.method auth_method_token).0 token_auth)
    | inr universal ↦ IsUsable-of_Holds _ _ (
        ensure_token-Holds st
          (λ e. ground (arith, bytes_beq_iff cfg.auth.method auth_method_token)))
  ]
