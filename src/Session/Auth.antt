-- ===== src/Session/Auth.antt =====
-- Access tokens and the cache of login failures (internal/infisical/session.go, `cachedAuthFailure`
-- to `cacheExpiry`).
pub mod Expiry
pub mod Token
pub mod Lockout
pub mod Release
use infisical_ksp.Base.{
  ℕ, ◌+◌, Bool, true, false, not, ◌&&◌, ◌||◌, Option, none, some, List, [], ◌∷◌, ◌++◌,
  if◌then◌else◌, ◌==◌, bytes_eq, Bytes, text,
}
use infisical_ksp.Base.Dict.{lookup, insert, erase}
use infisical_ksp.Base.Int.{ℤ, pos, ltb_ℤ, ◌+ℤ◌, ◌-ℤ◌, wrap64}
use infisical_ksp.Base.Result.{Result, ok, err}
use infisical_ksp.Client
use infisical_ksp.Client.{seconds_duration}
use infisical_ksp.Config.{Config, auth_method_token}
use infisical_ksp.Errors.{GoError, plain}
use infisical_ksp.Session.Defs.{
  AuthFailure, World, Session, State, Env, now, token_safety_margin, auth_failure_cache_ttl,
}

module _ (env : Env) where
  unfoldable pub cached_auth_failure : Bytes → World → Option GoError × World
  cached_auth_failure key w = elim (lookup key w.auth_fail_cache) [
    | none ↦ (none, w)
    | some f ↦
        let (t, w') = now env w in
        if ltb_ℤ t f.until
        then (some f.error, w')
        else (none, record w' { auth_fail_cache = erase key w.auth_fail_cache })
  ]

  unfoldable pub record_auth_failure : Bytes → GoError → World → World
  record_auth_failure key e w =
      let (t, w') = now env w in
      record w' {
        auth_fail_cache =
            insert key (record { error = e; until = t +ℤ pos auth_failure_cache_ttl })
              w.auth_fail_cache;
      }

  unfoldable pub clear_auth_failure : Bytes → World → World
  clear_auth_failure key w = record w { auth_fail_cache = erase key w.auth_fail_cache }

  -- The lifetime that `cacheExpiry` adds to the time. All durations are int64.
  unfoldable pub cache_ttl : ℤ → ℤ → ℤ
  cache_ttl reported ceiling_seconds =
      let ceiling = seconds_duration ceiling_seconds in
      let capped = if ltb_ℤ (pos 0) ceiling && ltb_ℤ ceiling reported then ceiling else reported in
      let ttl = wrap64 (capped -ℤ pos token_safety_margin) in
      if ltb_ℤ ttl (pos token_safety_margin) then pos token_safety_margin else ttl

  unfoldable pub cache_expiry : ℤ → ℤ → World → ℤ × World
  cache_expiry reported ceiling_seconds w =
      let (t, w') = now env w in (t +ℤ cache_ttl reported ceiling_seconds, w')

  -- `s.token != "" && time.Now().Before(s.tokenExpiry)`: the clock is read only behind the first.
  unfoldable pub token_is_valid : Session → World → Bool × World
  token_is_valid s w =
      if s.token == []
      then (false, w)
      else (let (t, w') = now env w in (ltb_ℤ t s.token_expiry, w'))

  module _ (cfg : Config) where
    unfoldable pub auth_key : Bytes
    auth_key = cfg.auth.client_id ++ (b'@' ∷ cfg.server_url)

    abbrev pub no_credentials : GoError
    no_credentials = plain (
        text "no Universal Auth credentials: set INFISICAL_UNIVERSAL_AUTH_CLIENT_ID and "
        ++ text "INFISICAL_UNIVERSAL_AUTH_CLIENT_SECRET")

    abbrev pub no_token : GoError
    no_token = plain (text "token auth selected but no token: set INFISICAL_TOKEN")

    -- `ensureToken` behind the call of `Login`, on its result.
    unfoldable pub logged_in :
        Session → World → Result GoError (Bytes × ℤ) → Result GoError Bytes × State
    logged_in s w (err e) =
        (err e, record { session = s; world = record_auth_failure auth_key e w })
    logged_in s w (ok (token, ttl)) =
        let (expiry, w') = cache_expiry ttl cfg.cache.token_ttl_seconds w in
        (
          ok token,
          record {
            session = record s { token = token; token_expiry = expiry };
            world = clear_auth_failure auth_key w';
          },
        )

    unfoldable pub log_in : Session → World → Result GoError Bytes × State
    log_in s w =
        let (result, calls) =
          Client.login env.server w.calls cfg.auth.client_id cfg.auth.client_secret in
        logged_in s (record w { calls = calls }) result

    -- `ensureToken` behind the call of `cachedAuthFailure`, on its result.
    unfoldable pub renewed : Session → World → Option GoError → Result GoError Bytes × State
    renewed s w (some e) = (err e, record { session = s; world = w })
    renewed s w none =
        if cfg.auth.client_id == [] || cfg.auth.client_secret == []
        then (
          err no_credentials,
          record { session = s; world = record_auth_failure auth_key no_credentials w },
        )
        else log_in s w

    unfoldable pub renew_token : Session → World → Result GoError Bytes × State
    renew_token s w = let (failure, w') = cached_auth_failure auth_key w in renewed s w' failure

    unfoldable pub ensure_token : State → Result GoError Bytes × State
    ensure_token st =
        if cfg.auth.method == auth_method_token
        then (if cfg.auth.token == [] then (err no_token, st) else (ok cfg.auth.token, st))
        else (let (valid, w) = token_is_valid st.session st.world in
            if valid
            then (ok st.session.token, record { session = st.session; world = w })
            else renew_token st.session w)
