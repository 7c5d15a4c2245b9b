-- ===== src/Session.antt =====
-- The session that an open provider holds (internal/infisical/session.go). Each operation
-- is a function of the whole state; Threads takes them apart into the steps of threads.
pub mod Defs
pub mod Monad
pub mod Auth
pub mod Approval
pub mod Caches
pub mod Signing
pub mod Threads
pub mod Fixture
mod Tests
use infisical_ksp.Base.{
  nat_beq, Bool, true, false, not, ◌&&◌, ◌||◌, Option, none, some, List, [], ◌∷◌, ◌++◌,
  if◌then◌else◌, ◌==◌, bytes_eq, Bytes, text, trim_space, Unicode,
}
use infisical_ksp.Base.Dict.{lookup, insert}
use infisical_ksp.Base.Int.{ℤ, pos, negsuc, ltb_ℤ, ◌+ℤ◌}
use infisical_ksp.Base.Result.{Result, ok, err}
use infisical_ksp.Client
use infisical_ksp.Client.{Signer, ApprovalRequestParams, seconds_duration}
use infisical_ksp.Config.{Config}
use infisical_ksp.Context.{SigningContext, client_metadata, request_scope}
use infisical_ksp.Context.Capture.{current_signing_context}
use infisical_ksp.Crypto.{PublicKey}
use infisical_ksp.Errors.{
  ApiError, GoError, plain, wrapped, opened, pending, not_configured, failed, errors_as, as_api,
  is_approval_required,
}
use infisical_ksp.Session.Auth.{ensure_token}
use infisical_ksp.Session.Monad.{M, ◌>>=◌, result, send}
use infisical_ksp.Session.Defs.{State, Env, PubKeyCacheEntry, now}

-- `n == 0` on an int.
unfoldable pub is_zero_ℤ : ℤ → Bool
is_zero_ℤ (pos n) = nat_beq n 0
is_zero_ℤ (negsuc n) = false

unfoldable pub approval_justification : Bytes → Bytes
approval_justification hostname =
    if hostname == []
    then text "Auto-requested by the Infisical KSP"
    else text "Auto-requested by the Infisical KSP on " ++ hostname

-- The loop of `FindSigner`.
unfoldable pub matches_signer : Bytes → Signer → Bool
matches_signer name_or_id sg = sg.name == name_or_id || sg.id == name_or_id

unfoldable pub find_in : Bytes → List Signer → Option Signer
find_in name_or_id [] = none
find_in name_or_id (sg ∷ signers) =
    if matches_signer name_or_id sg then some sg else find_in name_or_id signers

unfoldable pub no_signer_named : Unicode → Bytes → GoError
no_signer_named u name_or_id =
    plain
      (text "no signer named " ++ (u.quoted name_or_id ++ text " is available to this identity"))

-- A nil slice has no element.
unfoldable pub find_among : Unicode → Bytes → Option (List Signer) → Result GoError Signer
find_among u name_or_id none = err (no_signer_named u name_or_id)
find_among u name_or_id (some signers) = elim (find_in name_or_id signers) [
  | none ↦ err (no_signer_named u name_or_id)
  | some sg ↦ ok sg
]

module _ (env : Env) where
  unfoldable pub public_key_from_cert_pem : Bytes → Result GoError PublicKey
  public_key_from_cert_pem cert_pem =
      elim (env.codecs.pem_decode (trim_space env.os.unicode cert_pem)) [
        | none ↦ err (plain (text "certificate is not valid PEM"))
        | some block ↦ elim (env.codecs.parse_certificate block) [
          | err e ↦ err (wrapped (text "failed to parse certificate") e)
          | ok key ↦ ok key
        ]
      ]

  -- `time.Now().Add(time.Duration(seconds) * time.Second)`
  abbrev expiry_after : ℤ → ℤ → ℤ
  expiry_after t seconds = t +ℤ seconds_duration seconds

  -- `CurrentSigningContext()`
  unfoldable pub signing_context : M SigningContext
  signing_context st =
      let (c, memo) = current_signing_context env.os st.world.signing_ctx in
      (ok c, record st { world = record st.world { signing_ctx = memo } })

  module _ (cfg : Config) where
    -- The test of `Signers`: the clock is read only where the slice is not nil.
    unfoldable pub cached_signers : State → Bool × State
    cached_signers st = elim st.session.signers [
      | none ↦ (false, st)
      | some signers ↦
          let (t, w) = now env st.world in
          (ltb_ℤ t st.session.signers_expiry, record st { world = w })
    ]

    unfoldable pub store_signers : Option (List Signer) → M (Option (List Signer))
    store_signers signers st =
        let (t, w) = now env st.world in
        (
          ok signers,
          record {
            session = record st.session {
              signers = signers;
              signers_expiry = expiry_after t cfg.cache.signer_ttl_seconds;
            };
            world = w;
          },
        )

    -- `Signers` behind the call of `ensureToken`.
    unfoldable pub request_signers : Bytes → M (Option (List Signer))
    request_signers token = do
      signers ← send (λ calls. Client.list_signers env.server calls token)
      store_signers signers

    unfoldable pub fetch_signers : M (Option (List Signer))
    fetch_signers = do token ← ensure_token env cfg; request_signers token

    -- `Signers`
    unfoldable pub list_signers : M (Option (List Signer))
    list_signers st =
        let (fresh, st') = cached_signers st in
        if fresh then (ok st.session.signers, st') else fetch_signers st'

    unfoldable pub find_signer : Bytes → M Signer
    find_signer name_or_id = do
      signers ← list_signers
      result (find_among env.os.unicode name_or_id signers)

    -- The test of `PublicKey`: the key, if it is cached and fresh.
    unfoldable pub cached_public_key : Bytes → State → Option PublicKey × State
    cached_public_key signer_id st = elim (lookup signer_id st.session.pub_keys) [
      | none ↦ (none, st)
      | some entry ↦
          let (t, w) = now env st.world in
          (if ltb_ℤ t entry.expires_at then some entry.key else none, record st { world = w })
    ]

    unfoldable pub store_public_key : Bytes → PublicKey → M PublicKey
    store_public_key signer_id key st =
        let (t, w) = now env st.world in
        let entry : PubKeyCacheEntry = record {
          key = key;
          expires_at = expiry_after t cfg.cache.cert_ttl_seconds;
        } in
        (
          ok key,
          record {
            session = record st.session { pub_keys = insert signer_id entry st.session.pub_keys };
            world = w;
          },
        )

    -- `PublicKey` behind the call of `GetCertificate`.
    unfoldable pub store_certificate : Bytes → Bytes → M PublicKey
    store_certificate signer_id cert_pem = do
      key ← result (public_key_from_cert_pem cert_pem)
      store_public_key signer_id key

    -- `PublicKey` behind the call of `ensureToken`.
    unfoldable pub fetch_certificate : Bytes → Bytes → M PublicKey
    fetch_certificate signer_id token = do
      cert_pem ← send (λ calls. Client.get_certificate env.server calls token signer_id)
      store_certificate signer_id cert_pem

    unfoldable pub fetch_public_key : Bytes → M PublicKey
    fetch_public_key signer_id = do token ← ensure_token env cfg; fetch_certificate signer_id token

    -- `PublicKey`
    unfoldable pub public_key : Bytes → M PublicKey
    public_key signer_id st =
        let (cached, st') = cached_public_key signer_id st in
        elim cached [ some key ↦ (ok key, st') | none ↦ fetch_public_key signer_id st' ]

    -- The parameters of `requestApproval`.
    unfoldable pub approval_params : SigningContext → Bytes → ApprovalRequestParams
    approval_params ctx data_hash = record {
      justification = approval_justification ctx.hostname;
      requested_signings =
          if ltb_ℤ (pos 0) cfg.approval.signing_count then cfg.approval.signing_count else pos 0;
      requested_window_duration = cfg.approval.signing_duration;
      scope = request_scope ctx data_hash cfg.approval.exclude_scope_fields cfg.approval.ip_address;
    }

    unfoldable pub request_approval : Bytes → Bytes → SigningContext → Bytes → M (Bytes × Bytes)
    request_approval token signer_id ctx data_hash = send (λ calls.
        Client.request_approval env.server calls token signer_id (approval_params ctx data_hash))

    -- `autoRequestOnDenial` behind its last test: the request, and the error for its result.
    unfoldable pub open_request :
        Bytes → Bytes → SigningContext → Bytes → GoError → State → GoError × State
    open_request token signer_id ctx digest sign_err st =
        let (r, st') = request_approval token signer_id ctx (env.codecs.sha256_hex digest) st in
        elim r [
          | ok (id, status) ↦ (opened sign_err id status, st')
          | err e ↦ (failed sign_err e, st')
        ]

    unfoldable pub auto_request_on_denial :
        Bytes → Bytes → SigningContext → Bytes → GoError → State → GoError × State
    auto_request_on_denial token signer_id ctx digest sign_err st =
        elim (errors_as as_api sign_err) [
          | none ↦ (sign_err, st)
          | some a ↦
              if not (is_approval_required a)
              then (sign_err, st)
              else if a.has_pending_request
              then (pending sign_err, st)
              else if is_zero_ℤ cfg.approval.signing_count && cfg.approval.signing_duration == []
              then (not_configured sign_err, st)
              else open_request token signer_id ctx digest sign_err st
        ]

    -- `Sign` from the call of the client on.
    unfoldable pub send_digest : Bytes → Bytes → SigningContext → Bytes → Bytes → M Bytes
    send_digest signer_id algorithm ctx digest token st =
        let (r, st') =
          send
            (λ calls. Client.sign env.server calls token signer_id (record {
              data_b64 = env.codecs.base64_encode digest;
              signing_algorithm = algorithm;
              is_digest = true;
              client_metadata = client_metadata ctx;
            }))
            st in
        elim r [
          | ok sig_b64 ↦ (env.codecs.base64_decode sig_b64, st')
          | err e ↦
              let (e', st'') = auto_request_on_denial token signer_id ctx digest e st' in
              (err e', st'')
        ]

    -- `Sign`
    unfoldable pub sign : Bytes → Bytes → Bytes → M Bytes
    sign signer_id algorithm digest = do
      token ← ensure_token env cfg
      ctx ← signing_context
      send_digest signer_id algorithm ctx digest token
