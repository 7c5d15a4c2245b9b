-- ===== src/Session/Approval.antt =====
-- What a denied sign call leads to.
use infisical_ksp.Base.{
  Bool, true, false, not, ◌&&◌, none, some, [], ◌∷◌, ◌≡◌, arith, if◌then◌else◌, ◌==◌, bytes_eq,
  Bytes,
}
use infisical_ksp.Client
use infisical_ksp.Client.{Call, approval_call}
use infisical_ksp.Config.{Config}
use infisical_ksp.Context.{SigningContext}
use infisical_ksp.Errors.{
  GoError, pending, not_configured, errors_as, as_api, is_approval_required, is_approval_outcome,
  first_match, chain,
}
use infisical_ksp.Errors.Chain.{root}
use infisical_ksp.Session.{
  is_zero_ℤ, approval_params, request_approval, open_request, auto_request_on_denial,
}
use infisical_ksp.Session.Defs.{State, Env}

-- The server denied the call for want of an approval, and knows of no open request for it.
unfoldable pub asks_for_request : GoError → Bool
asks_for_request e = elim (errors_as as_api e) [
  | none ↦ false
  | some a ↦ is_approval_required a && not a.has_pending_request
]

-- The server denied the call for want of an approval.
unfoldable pub denied : GoError → Bool
denied e = elim (errors_as as_api e) [ none ↦ false | some a ↦ is_approval_required a ]

module _ (env : Env) (cfg : Config) where
  unfoldable pub approval_configured : Bool
  approval_configured =
      not (is_zero_ℤ cfg.approval.signing_count && cfg.approval.signing_duration == [])

  module _ (token signer_id : Bytes) (ctx : SigningContext) (digest : Bytes) where
    -- The request for an approval of this payload, in the observed situation.
    abbrev pub request_call : Call
    request_call =
        approval_call token signer_id (approval_params env cfg ctx (env.codecs.sha256_hex digest))

    open_request-state :
        (e : GoError) (st : State)
        → (open_request env cfg token signer_id ctx digest e st).1
          ≡ record st { world = record st.world { calls = request_call ∷ st.world.calls } }
    unfolding open_request request_approval Client.request_approval
    open_request-state e st = ground arith

    -- A failed sign call leads to one further call, the request for an approval, exactly if the
    -- call was denied for want of an approval, no request is open for it, and approvals are
    -- configured; nothing else of the state changes.
    pub auto_request_on_denial-state :
        (e : GoError) (st : State)
        → (auto_request_on_denial env cfg token signer_id ctx digest e st).1 ≡ record st {
          world = record st.world {
            calls =
                if asks_for_request e && approval_configured
                then request_call ∷ st.world.calls
                else st.world.calls;
          };
        }
    unfolding auto_request_on_denial asks_for_request approval_configured
    auto_request_on_denial-state e st = ground (arith, open_request-state e st)

    open_request-root :
        (e : GoError) (st : State)
        → root (open_request env cfg token signer_id ctx digest e st).0 ≡ root e
    unfolding open_request root
    open_request-root e st = ground arith

    -- The error of a failed sign call keeps the server's answer innermost, whatever becomes of the
    -- request for an approval.
    pub auto_request_on_denial-root :
        (e : GoError) (st : State)
        → root (auto_request_on_denial env cfg token signer_id ctx digest e st).0 ≡ root e
    unfolding auto_request_on_denial root
    auto_request_on_denial-root e st = ground (arith, open_request-root e st)

    open_request_outcome :
        (e : GoError) (st : State)
        → is_approval_outcome (open_request env cfg token signer_id ctx digest e st).0 ≡ true
    unfolding open_request is_approval_outcome errors_as first_match chain
    open_request_outcome e st = ground arith

    pending_outcome :
        (e : GoError)
        → (is_approval_outcome (pending e) ≡ true) × (is_approval_outcome (not_configured e) ≡ true)
    unfolding is_approval_outcome errors_as first_match chain
    pending_outcome e = (ground arith, ground arith)

    -- An error that is no approval outcome yet becomes one exactly if the server denied the call
    -- for want of an approval; otherwise it is passed on as it is.
    pub auto_request_on_denial_outcome :
        (e : GoError) (st : State)
        → is_approval_outcome e ≡ false
        → (is_approval_outcome (auto_request_on_denial env cfg token signer_id ctx digest e st).0
            ≡ denied e)
          × ((auto_request_on_denial env cfg token signer_id ctx digest e st).0 ≡ (
              if denied e
              then (auto_request_on_denial env cfg token signer_id ctx digest e st).0
              else e))
    unfolding auto_request_on_denial denied
    auto_request_on_denial_outcome e st h = (
      ground (arith, open_request_outcome e st, (pending_outcome e).0, (pending_outcome e).1),
      ground (arith, open_request_outcome e st),
    )
