-- ===== src/Session/Signing/Origin.antt =====
-- Where a signature that a sign call returns comes from.
use infisical_ksp.Base.{[], ◌≡◌, Bytes, inl, inr}
use infisical_ksp.Base.Result.{ok, Result-cases}
use infisical_ksp.Config.{Config}
use infisical_ksp.Session.{sign}
use infisical_ksp.Session.Auth.{ensure_token}
use infisical_ksp.Session.Defs.{State, Env}
use infisical_ksp.Session.Signing.{sign-ok, sign-calls, sign_without_token, situation}
use infisical_ksp.Session.Threads.Certified.{SignedBy}

module _ (env : Env) (cfg : Config) (signer_id algorithm digest : Bytes) where
  -- A sign call that returns a signature has made a call of the server for the signer's key, the
  -- algorithm and the digest, and the signature is what the server gave for it.
  pub sign-SignedBy :
      (st : State) {sig : Bytes}
      → (sign env cfg signer_id algorithm digest st).0 ≡ ok sig
      → SignedBy env cfg
          (sign env cfg signer_id algorithm digest st).1.world.calls
          signer_id
          algorithm
          digest
          sig
  sign-SignedBy st {sig} h = elim (Result-cases (ensure_token env cfg st).0) [
    | inl (e, failed) ↦
        absurd
          (let q = rw (sign_without_token env cfg signer_id algorithm digest st failed) at h in cc)
    | inr (token, given) ↦
        let (sig_b64, replied, decodes) = sign-ok env cfg signer_id algorithm digest st given h in
        record {
          later = [];
          before = (ensure_token env cfg st).1.world.calls;
          token = token;
          ctx = situation env cfg signer_id algorithm digest (ensure_token env cfg st).1;
          sig_b64 = sig_b64;
          splits = rw replied at (sign-calls env cfg signer_id algorithm digest st given);
          replied = replied;
          decodes = decodes;
        }
  ]
