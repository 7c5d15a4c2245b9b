-- ===== src/Session/Tests.antt =====
-- Runs of a session in the surrounding of Session/Fixture.antt, and the theorems at concrete data.
use infisical_ksp.Base.{
  none, bytes_eq, ◌≢◌, ◌≡◌, refl, if◌then◌else◌, true, false, [], ◌∷◌, Bytes, text, bytes_beq,
  is_ascii, trim_space, trim_left, trim_right, is_space, arith,
}
use infisical_ksp.Base.Dict.{lookup, insert, erase}
use infisical_ksp.Base.Int.{pos, wrap64, ◌+ℤ◌, ◌-ℤ◌, ◌*ℤ◌}
use infisical_ksp.Base.Result.{Result, ok, err}
use infisical_ksp.Client
use infisical_ksp.Client.{Call, Signer, check_reply, new_api_error, seconds_duration}
use infisical_ksp.Config.{auth_method_token}
use infisical_ksp.Crypto.{PublicKey}
use infisical_ksp.Context.{SigningContext}
use infisical_ksp.Errors.{GoError, api, is_approval_outcome, errors_as, first_match, chain}
use infisical_ksp.Errors.Chain.{root}
use infisical_ksp.Session
use infisical_ksp.Session.{
  find_in, matches_signer, find_among, public_key, cached_public_key, fetch_public_key,
  fetch_certificate, store_certificate, store_public_key, public_key_from_cert_pem, list_signers,
  cached_signers, fetch_signers, request_signers, store_signers, signing_context, approval_params,
  approval_justification, open_request, request_approval, auto_request_on_denial, send_digest, sign,
  is_zero_ℤ,
}
use infisical_ksp.Session.Approval.{denied, auto_request_on_denial_outcome}
use infisical_ksp.Session.Auth.{
  cached_auth_failure, record_auth_failure, clear_auth_failure, cache_ttl, cache_expiry,
  token_is_valid, auth_key, logged_in, log_in, renewed, renew_token, ensure_token,
}
use infisical_ksp.Session.Auth.Lockout.{retries, ReadsBefore, log_in-retries}
use infisical_ksp.Session.Auth.Release.{elapsed, log_in_again}
use infisical_ksp.Session.Auth.Token.{
  our_login, LogsInAtMostOnce, IsUsable, ensure_token-calls, ensure_token_again,
  ensure_token-IsUsable,
}
use infisical_ksp.Session.Caches.{public_key_again}
use infisical_ksp.Session.Defs.{
  World, State, Env, PubKeyCacheEntry, now, new_session, auth_failure_cache_ttl,
}
use infisical_ksp.Session.Fixture.{
  granting, denying, locking, relenting, some_config, new_world, new_state, rsa_key, denial,
}
use infisical_ksp.Session.Signing.{SendsDigest, situation, sign-calls, sign-root}

-- `ensure_token`, open to evaluation.
run_token : Env → State → Result GoError Bytes × State
unfolding ensure_token token_is_valid renew_token renewed log_in logged_in cached_auth_failure
    record_auth_failure clear_auth_failure cache_expiry cache_ttl auth_key Client.login check_reply
    new_api_error seconds_duration wrap64 ◌+ℤ◌ ◌-ℤ◌ ◌*ℤ◌ text bytes_beq lookup insert erase
run_token env = ensure_token env some_config

universal : some_config.auth.method ≢ auth_method_token
unfolding text
universal h = cc

after_login : State
unfolding run_token
after_login = (run_token granting new_state).1

token_example : (run_token granting new_state).0 ≡ ok (text "tok")
unfolding run_token
token_example = refl

ensure_token-calls_example :
    LogsInAtMostOnce granting some_config new_world
      (ensure_token granting some_config new_state).1.world
ensure_token-calls_example = ensure_token-calls granting some_config new_state

ensure_token_again_example :
    ensure_token granting some_config (ensure_token granting some_config new_state).1 ≡ (
      ok (text "tok"),
      record (ensure_token granting some_config new_state).1 {
        world = (now granting (ensure_token granting some_config new_state).1.world).1;
      },
    )
unfolding run_token
ensure_token_again_example =
    ensure_token_again granting some_config new_state universal refl (omega arith)

ensure_token-IsUsable_example :
    IsUsable granting some_config (ensure_token granting some_config new_state).0
ensure_token-IsUsable_example = ensure_token-IsUsable granting some_config new_state

login_error : GoError
unfolding new_api_error
login_error = api (
    new_api_error (text "login") 401 true
      (record { message = []; error = []; has_pending_request = false }))

first_three :
    ReadsBefore locking some_config 3
      ((now locking new_world).0 +ℤ pos auth_failure_cache_ttl)
      (now locking new_world).1
unfolding ◌+ℤ◌
first_three i h = omega (arith, h)

log_in-retries_example :
    (retries locking some_config 3 (log_in locking some_config new_session new_world).1.world).calls
    ≡ our_login locking some_config ∷ []
unfolding run_token login_error
log_in-retries_example =
    log_in-retries locking some_config new_session new_world {e = login_error} 3 universal refl
      first_three

abbrev refused_once : World
refused_once =
    elapsed relenting some_config 9 (log_in relenting some_config new_session new_world).1.world

log_in_again_example :
    let again : Result GoError Bytes × State =
      ensure_token relenting some_config (record { session = new_session; world = refused_once }) in
    (again.0 ≡ ok (text "tok"))
    × (again.1.session.token ≡ text "tok")
    × (again.1.world.calls ≡ our_login relenting some_config ∷ our_login relenting some_config ∷ [])
    × (lookup (auth_key relenting some_config) again.1.world.auth_fail_cache ≡ none)
unfolding run_token login_error
log_in_again_example =
    log_in_again relenting some_config new_session new_world 9 {e = login_error}
      {token = text "tok"} {ttl = pos 3_600_000_000_000} universal (λ e. cc) (λ e. cc) refl
      (omega arith) refl

abbrev a_situation : SigningContext
a_situation = record {
  command = text "sign.exe";
  application = [];
  application_hash = [];
  hostname = text "build";
  os_username = [];
}

denied_error : GoError
unfolding new_api_error
denied_error = api (new_api_error (text "sign") 403 true (denial false))

auto_request_on_denial_outcome_example :
    (is_approval_outcome
        (auto_request_on_denial denying some_config
          (text "tok")
          (text "id-1")
          a_situation
          (text "d")
          denied_error
          new_state).0
      ≡ denied denied_error)
    × ((auto_request_on_denial denying some_config
          (text "tok")
          (text "id-1")
          a_situation
          (text "d")
          denied_error
          new_state).0
        ≡ (if denied denied_error
            then (auto_request_on_denial denying some_config
                (text "tok")
                (text "id-1")
                a_situation
                (text "d")
                denied_error
                new_state).0
            else denied_error))
unfolding denied_error is_approval_outcome errors_as first_match chain
auto_request_on_denial_outcome_example =
    auto_request_on_denial_outcome denying some_config (text "tok") (text "id-1") a_situation
      (text "d") denied_error new_state refl

run_key : State → Result GoError PublicKey × State
unfolding run_token public_key cached_public_key fetch_public_key fetch_certificate
    store_certificate store_public_key public_key_from_cert_pem Client.get_certificate trim_space
    trim_left trim_right is_space is_ascii
run_key = public_key granting some_config (text "id-1")

kept_key : PubKeyCacheEntry
kept_key = record { key = rsa_key; expires_at = pos 302_000_000_000 }

public_key_again_example :
    public_key granting some_config
      (text "id-1")
      (public_key granting some_config (text "id-1") new_state).1
    ≡ (
      ok rsa_key,
      record (public_key granting some_config (text "id-1") new_state).1 {
        world = (now granting (public_key granting some_config (text "id-1") new_state).1.world).1;
      },
    )
unfolding run_key kept_key
public_key_again_example =
    public_key_again granting some_config (text "id-1") new_state {entry = kept_key} refl refl
      (omega arith)

run_sign : Env → State → Result GoError Bytes × State
unfolding run_token Session.sign send_digest signing_context Client.sign
run_sign env = Session.sign env some_config (text "id-1") (text "ECDSA_SHA_256") (text "d")

sign-calls_example :
    SendsDigest denying some_config
      (text "id-1")
      (text "ECDSA_SHA_256")
      (text "d")
      (situation denying some_config
        (text "id-1")
        (text "ECDSA_SHA_256")
        (text "d")
        (ensure_token denying some_config new_state).1)
      (text "tok")
      (ensure_token denying some_config new_state).1.world.calls
      (Session.sign denying some_config
        (text "id-1")
        (text "ECDSA_SHA_256")
        (text "d")
        new_state).1.world.calls
unfolding run_token
sign-calls_example =
    sign-calls denying some_config (text "id-1") (text "ECDSA_SHA_256") (text "d") new_state refl

sign-root_example :
    (e' : GoError) × ((Session.sign denying some_config
        (text "id-1")
        (text "ECDSA_SHA_256")
        (text "d")
        new_state).0
      ≡ err e')
    × (root e' ≡ root denied_error)
unfolding run_sign denied_error
sign-root_example =
    sign-root denying some_config (text "id-1") (text "ECDSA_SHA_256") (text "d") new_state
      {e = denied_error} refl refl
