-- ===== src/Session/Threads/Certified/Signature.antt =====
-- The steps of `Sign`.
use infisical_ksp.Base.{List, [], ◌∷◌, ◌≡◌, refl, inl, inr, bytes_eq, Bytes}
use infisical_ksp.Base.Result.{Result, ok, err, Result-cases}
use infisical_ksp.Client
use infisical_ksp.Client.{Call, Signer, certificate_call}
use infisical_ksp.Config.{Config}
use infisical_ksp.Context.{SigningContext}
use infisical_ksp.Errors.{GoError}
use infisical_ksp.Session.Defs.{State, Env}
use infisical_ksp.Session.Threads.{
  sign_request, sign_context, sign_authorized, signature_read, advance,
}
use infisical_ksp.Session.Threads.Quiet.{Quiet}
use infisical_ksp.Session.Threads.Certified.{SignedBy, AnswerFits, PcFits, AllCertified}
use infisical_ksp.Session.Threads.Certified.Steps.{Stepped, quiet_step}

module _ (env : Env) (cfg : Config) where
  pub sign_authorized-fits :
      (calls : List Call) (signer_id algorithm digest : Bytes) (q : Result GoError Bytes × State)
      → PcFits env cfg calls
          (sign_request signer_id algorithm digest)
          (sign_authorized signer_id algorithm digest q).0
  unfolding PcFits AnswerFits sign_authorized
  sign_authorized-fits calls signer_id algorithm digest (ok token, st) = refl
  sign_authorized-fits calls signer_id algorithm digest (err e, st) = tt

  pub sign_authorized-state :
      (signer_id algorithm digest : Bytes) (q : Result GoError Bytes × State)
      → (sign_authorized signer_id algorithm digest q).1 ≡ q.1
  unfolding sign_authorized
  sign_authorized-state signer_id algorithm digest (ok token, st) = refl
  sign_authorized-state signer_id algorithm digest (err e, st) = refl

  signature_read-Stepped :
      (token signer_id algorithm : Bytes) (ctx : SigningContext) (digest : Bytes) (st st' : State)
      (r : Result GoError Bytes)
      → AllCertified env cfg st
      → Quiet st st'
      → ((sig_b64 sig : Bytes)
          → r ≡ ok sig_b64
          → env.codecs.base64_decode sig_b64 ≡ ok sig
          → SignedBy env cfg st'.world.calls signer_id algorithm digest sig)
      → Stepped env cfg
          (sign_request signer_id algorithm digest)
          st
          (signature_read env cfg token signer_id ctx digest r, st')
  unfolding PcFits AnswerFits signature_read
  signature_read-Stepped token signer_id algorithm ctx digest st st' (ok sig_b64) all quiet c =
      quiet_step env cfg _ all quiet (elim (Result-cases (env.codecs.base64_decode sig_b64)) [
        | inl (e, h) ↦ rw h tt
        | inr (sig, h) ↦ rw h (c sig_b64 sig refl h)
      ])
  signature_read-Stepped token signer_id algorithm ctx digest st st' (err e) all quiet c =
      quiet_step env cfg _ all quiet (algorithm, refl)

  pub sign_context-Stepped :
      (signer_id algorithm digest token : Bytes) (ctx : SigningContext) (st : State)
      → AllCertified env cfg st
      → Stepped env cfg
          (sign_request signer_id algorithm digest)
          st
          (advance env cfg (sign_context signer_id algorithm digest token ctx) st)
  unfolding advance Client.sign
  sign_context-Stepped signer_id algorithm digest token ctx st all =
      signature_read-Stepped token signer_id algorithm ctx digest st _ _ all
        (record { grown = (_ ∷ [], refl); kept = refl })
        (λ sig_b64 sig replied decodes. record {
          later = [];
          before = st.world.calls;
          token = token;
          ctx = ctx;
          sig_b64 = sig_b64;
          splits = refl;
          replied = replied;
          decodes = decodes;
        })
