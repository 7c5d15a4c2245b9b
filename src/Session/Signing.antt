-- ===== src/Session/Signing.antt =====
-- The whole of a sign call.
pub mod Origin
use infisical_ksp.Base.{
  Bool, true, false, ◌&&◌, List, ◌∷◌, ◌≡◌, refl, inl, inr, if◌then◌else◌, bytes_eq, Bytes,
}
use infisical_ksp.Base.Result.{Result, ok, err, Result-cases}
use infisical_ksp.Client
use infisical_ksp.Client.{Call, SignParams, sign_call}
use infisical_ksp.Config.{Config}
use infisical_ksp.Context.{SigningContext, client_metadata}
use infisical_ksp.Context.Capture.{current_signing_context}
use infisical_ksp.Errors.{GoError}
use infisical_ksp.Session.{signing_context, auto_request_on_denial, send_digest, sign}
use infisical_ksp.Session.Approval.{
  asks_for_request, approval_configured, request_call, auto_request_on_denial-state,
  auto_request_on_denial-root,
}
use infisical_ksp.Errors.Chain.{root}
use infisical_ksp.Session.Auth.{ensure_token}
use infisical_ksp.Session.Defs.{State, Env}

module _ (env : Env) (cfg : Config) (signer_id algorithm digest : Bytes) where
  abbrev params : SigningContext → SignParams
  params ctx = record {
    data_b64 = env.codecs.base64_encode digest;
    signing_algorithm = algorithm;
    is_digest = true;
    client_metadata = client_metadata ctx;
  }

  -- What the server is asked to sign: the digest itself, marked as one.
  abbrev pub digest_call : SigningContext → Bytes → Call
  digest_call ctx token = sign_call token signer_id (params ctx)

  -- The client's result for it.
  abbrev pub digest_result : SigningContext → Bytes → List Call → Result GoError Bytes
  digest_result ctx token calls = (Client.sign env.server calls token signer_id (params ctx)).0

  abbrev pub refused : Result GoError Bytes → Bool
  refused (ok sig_b64) = false
  refused (err e) = asks_for_request e

  -- The calls that follow the token: the sign call, and then a request for an approval exactly if
  -- the first was denied for want of one, none is open, and approvals are configured.
  abbrev pub SendsDigest : SigningContext → Bytes → List Call → List Call → Type 0
  SendsDigest ctx token calls calls' = calls' ≡ (
      if refused (digest_result ctx token calls) && approval_configured env cfg
      then request_call env cfg token signer_id ctx digest ∷ digest_call ctx token ∷ calls
      else digest_call ctx token ∷ calls)

  sent : SigningContext → Bytes → State → State
  sent ctx token st = record st {
    world = record st.world { calls = digest_call ctx token ∷ st.world.calls };
  }

  send_digest_ok :
      (ctx : SigningContext) (token : Bytes) (st : State) {sig_b64 : Bytes}
      → digest_result ctx token st.world.calls ≡ ok sig_b64
      → send_digest env cfg signer_id algorithm ctx digest token st
        ≡ (env.codecs.base64_decode sig_b64, sent ctx token st)
  unfolding send_digest Client.sign sent
  send_digest_ok ctx token st h = rw (h, send_digest) refl

  send_digest_err :
      (ctx : SigningContext) (token : Bytes) (st : State) {e : GoError}
      → digest_result ctx token st.world.calls ≡ err e
      → send_digest env cfg signer_id algorithm ctx digest token st ≡ (
          let (e', st') =
            auto_request_on_denial env cfg token signer_id ctx digest e (sent ctx token st) in
          (err e', st'))
  unfolding send_digest Client.sign sent
  send_digest_err ctx token st h = rw (h, send_digest) refl

  send_digest-SendsDigest :
      (ctx : SigningContext) (token : Bytes) (st : State)
      → SendsDigest ctx token st.world.calls
          (send_digest env cfg signer_id algorithm ctx digest token st).1.world.calls
  unfolding sent
  send_digest-SendsDigest ctx token st =
      elim (Result-cases (digest_result ctx token st.world.calls)) [
        | inl (e, h) ↦ rw (send_digest_err ctx token st h, auto_request_on_denial-state, h) refl
        | inr (sig_b64, h) ↦ rw (send_digest_ok ctx token st h, h) refl
      ]

  -- The situation that the call reports: captured by the first call of the process.
  abbrev pub situation : State → SigningContext
  situation st = (current_signing_context env.os st.world.signing_ctx).0

  abbrev signing : State → Result GoError Bytes × State
  signing = sign env cfg signer_id algorithm digest

  after_token : Bytes → State → Result GoError Bytes × State
  after_token token st =
      send_digest env cfg signer_id algorithm (situation st) digest token (signing_context env st).1

  sign_with_token :
      (st : State) {token : Bytes}
      → (ensure_token env cfg st).0 ≡ ok token
      → signing st ≡ after_token token (ensure_token env cfg st).1
  unfolding sign signing_context after_token
  sign_with_token st h = rw (h, sign) refl

  -- With a token, a sign call asks the server once to sign the digest with the key, algorithm and
  -- situation at hand, and then opens a request for an approval exactly if the server denies it
  -- for want of one, knows of none that is open, and approvals are configured.
  pub sign-calls :
      (st : State) {token : Bytes}
      → (ensure_token env cfg st).0 ≡ ok token
      → SendsDigest
          (situation (ensure_token env cfg st).1)
          token
          (ensure_token env cfg st).1.world.calls
          (signing st).1.world.calls
  unfolding after_token signing_context
  sign-calls st {token} h = rw (sign_with_token st h) (
      send_digest-SendsDigest (situation (ensure_token env cfg st).1) token
        (signing_context env (ensure_token env cfg st).1).1)

  -- Without a token, a sign call makes no call behind those for the token, and fails as they do.
  pub sign_without_token :
      (st : State) {e : GoError}
      → (ensure_token env cfg st).0 ≡ err e
      → signing st ≡ (err e, (ensure_token env cfg st).1)
  unfolding sign
  sign_without_token st h = rw (h, sign) refl

  -- With a token, a signature is what the server gave for the digest, decoded, and nothing else.
  pub sign-ok :
      (st : State) {token sig : Bytes}
      → (ensure_token env cfg st).0 ≡ ok token
      → (signing st).0 ≡ ok sig
      → (sig_b64 : Bytes) × (digest_result
            (situation (ensure_token env cfg st).1)
            token
            (ensure_token env cfg st).1.world.calls
          ≡ ok sig_b64)
        × (env.codecs.base64_decode sig_b64 ≡ ok sig)
  unfolding after_token signing_context
  sign-ok st {token} h k =
      let st1 = (ensure_token env cfg st).1 in
      let sent_ok = rw (sign_with_token st h) at k in
      elim (Result-cases (digest_result (situation st1) token st1.world.calls)) [
        | inl (e, r) ↦ absurd (
            cc
              (rw (send_digest_err (situation st1) token (signing_context env st1).1 r) at sent_ok))
        | inr (sig_b64, r) ↦ (
          sig_b64,
          r,
          rw (send_digest_ok (situation st1) token (signing_context env st1).1 r) at sent_ok,
        )
      ]

  -- With a token, where the server or the way to it fails a sign call, the call fails, and the innermost error,
  -- which decides the host's status, is the one of that failure.
  pub sign-root :
      (st : State) {token : Bytes} {e : GoError}
      → (ensure_token env cfg st).0 ≡ ok token
      → digest_result
          (situation (ensure_token env cfg st).1)
          token
          (ensure_token env cfg st).1.world.calls
        ≡ err e
      → (e' : GoError) × ((signing st).0 ≡ err e') × (root e' ≡ root e)
  unfolding after_token signing_context
  sign-root st {token} {e} h r =
      let st1 = (ensure_token env cfg st).1 in
      let ctx = situation st1 in
      let st2 = sent ctx token (signing_context env st1).1 in
      (
        (auto_request_on_denial env cfg token signer_id ctx digest e st2).0,
        rw (sign_with_token st h, send_digest_err ctx token (signing_context env st1).1 r) refl,
        auto_request_on_denial-root env cfg token signer_id ctx digest e st2,
      )
