-- ===== src/Session/Threads/Certified.antt =====
-- Where the keys and signatures of a session's threads come from.
pub mod Steps
pub mod Key
pub mod Signature
pub mod Finding
pub mod Answers
use infisical_ksp.Base.{
  ℕ, nat_beq, true, false, Option, none, some, List, [], ◌∷◌, ◌++◌, ◌≡◌, refl, sym, ap, ◌∙◌, subst,
  inl, inr, ◌==◌, bytes_eq, bytes_beq_iff, if◌then◌else◌, append_assoc, Bytes, Bool-cases,
  Option-cases, arith,
}
use infisical_ksp.Base.Dict.{lookup, lookup-insert}
use infisical_ksp.Base.Result.{Result, ok, err, Result-cases}
use infisical_ksp.Client
use infisical_ksp.Client.{Call, Signer, certificate_call}
use infisical_ksp.Config.{Config}
use infisical_ksp.Context.{SigningContext}
use infisical_ksp.Crypto.{PublicKey}
use infisical_ksp.Errors.{GoError}
use infisical_ksp.Session.{
  matches_signer, find_in, find_among, list_signers, find_signer, cached_public_key,
  store_public_key, public_key_from_cert_pem, auto_request_on_denial,
}
use infisical_ksp.Session.Auth.{ensure_token}
use infisical_ksp.Session.Defs.{Session, State, Env, PubKeyCacheEntry, now}
use infisical_ksp.Session.Monad.{send, result, Ensures, then_run-Ensures}
use infisical_ksp.Session.Signing.{digest_call, digest_result}
use infisical_ksp.Session.Threads.{
  Request, find_request, key_request, sign_request, Answer, signer_answer, key_answer,
  signature_answer, Pc, called, key_token, key_parsed, sign_token, sign_context, sign_failed,
  returned, System, update, key_authorized, sign_authorized, parsed, cached_or_token,
  certificate_read, signature_read, advance, turn, run,
}
use infisical_ksp.Session.Threads.Quiet.{
  Grown, Grown-refl, Grown-trans, Quiet, Quiet-trans, send-Quiet, ensure_token-Quiet,
  find_signer-Quiet, cached_public_key-Quiet, auto_request_on_denial-Quiet,
}

module _ (env : Env) (cfg : Config) where
  -- A key is that of a certificate which the server gave for the signer, in a call of the history.
  pub record Certified (calls : List Call) (signer_id : Bytes) (key : PublicKey) : Type 0 where
    pub later : List Call
    pub before : List Call
    pub token : Bytes
    pub cert_pem : Bytes
    pub splits : calls ≡ later ++ certificate_call token signer_id ∷ before
    pub replied : (Client.get_certificate env.server before token signer_id).0 ≡ ok cert_pem
    pub holds : public_key_from_cert_pem env cert_pem ≡ ok key

  -- A signature is what the server gave, in a call of the history, for the signer's key, the
  -- algorithm and the digest.
  pub record SignedBy (calls : List Call) (signer_id algorithm digest sig : Bytes) : Type 0 where
    pub later : List Call
    pub before : List Call
    pub token : Bytes
    pub ctx : SigningContext
    pub sig_b64 : Bytes
    pub splits : calls ≡ later ++ digest_call env cfg signer_id algorithm digest ctx token ∷ before
    pub replied : digest_result env cfg signer_id algorithm digest ctx token before ≡ ok sig_b64
    pub decodes : env.codecs.base64_decode sig_b64 ≡ ok sig

  -- An answer to a request is of its kind, and a value in it is the server's for the request.
  pub AnswerFits : List Call → Request → Answer → Type 0
  AnswerFits calls (find_request name) (signer_answer (ok sg)) = matches_signer name sg ≡ true
  AnswerFits calls (find_request name) (signer_answer (err e)) = Unit
  AnswerFits calls (find_request name) (key_answer r) = ⊥
  AnswerFits calls (find_request name) (signature_answer r) = ⊥
  AnswerFits calls (key_request signer_id) (signer_answer r) = ⊥
  AnswerFits calls (key_request signer_id) (key_answer (ok key)) = Certified calls signer_id key
  AnswerFits calls (key_request signer_id) (key_answer (err e)) = Unit
  AnswerFits calls (key_request signer_id) (signature_answer r) = ⊥
  AnswerFits calls (sign_request signer_id algorithm digest) (signer_answer r) = ⊥
  AnswerFits calls (sign_request signer_id algorithm digest) (key_answer r) = ⊥
  AnswerFits calls (sign_request signer_id algorithm digest) (signature_answer (ok sig)) =
      SignedBy calls signer_id algorithm digest sig
  AnswerFits calls (sign_request signer_id algorithm digest) (signature_answer (err e)) = Unit

  -- Where a thread can be on its way through a request.
  pub PcFits : List Call → Request → Pc → Type 0
  PcFits calls r (called r') = r' ≡ r
  PcFits calls r (key_token signer_id token) = key_request signer_id ≡ r
  PcFits calls r (key_parsed signer_id key) =
      (key_request signer_id ≡ r) × Certified calls signer_id key
  PcFits calls r (sign_token signer_id algorithm digest token) =
      sign_request signer_id algorithm digest ≡ r
  PcFits calls r (sign_context signer_id algorithm digest token ctx) =
      sign_request signer_id algorithm digest ≡ r
  PcFits calls r (sign_failed token signer_id digest ctx e) =
      (algorithm : Bytes) × (sign_request signer_id algorithm digest ≡ r)
  PcFits calls r (returned a) = AnswerFits calls r a

  -- Every key in the session's cache is certified for its signer.
  pub AllCertified : State → Type 0
  AllCertified st =
      (signer_id : Bytes) (entry : PubKeyCacheEntry)
      → lookup signer_id st.session.pub_keys ≡ some entry
      → Certified st.world.calls signer_id entry.key

  pub Certified-Grown :
      {a b : List Call} {signer_id : Bytes} {key : PublicKey}
      → Grown a b
      → Certified a signer_id key
      → Certified b signer_id key
  Certified-Grown (later, e) c = record {
    later = later ++ c.later;
    before = c.before;
    token = c.token;
    cert_pem = c.cert_pem;
    splits = e ∙ ap (λ s. later ++ s) c.splits ∙ sym (append_assoc later c.later _);
    replied = c.replied;
    holds = c.holds;
  }

  SignedBy-Grown :
      {a b : List Call} {signer_id algorithm digest sig : Bytes}
      → Grown a b
      → SignedBy a signer_id algorithm digest sig
      → SignedBy b signer_id algorithm digest sig
  SignedBy-Grown (later, e) c = record {
    later = later ++ c.later;
    before = c.before;
    token = c.token;
    ctx = c.ctx;
    sig_b64 = c.sig_b64;
    splits = e ∙ ap (λ s. later ++ s) c.splits ∙ sym (append_assoc later c.later _);
    replied = c.replied;
    decodes = c.decodes;
  }

  pub AnswerFits-Grown :
      {a b : List Call} (r : Request) (x : Answer) → Grown a b → AnswerFits a r x → AnswerFits b r x
  unfolding AnswerFits
  AnswerFits-Grown (find_request name) (signer_answer (ok sg)) g h = h
  AnswerFits-Grown (find_request name) (signer_answer (err e)) g h = tt
  AnswerFits-Grown (key_request signer_id) (key_answer (ok key)) g h = Certified-Grown g h
  AnswerFits-Grown (key_request signer_id) (key_answer (err e)) g h = tt
  AnswerFits-Grown (sign_request signer_id algorithm digest) (signature_answer (ok sig)) g h =
      SignedBy-Grown g h
  AnswerFits-Grown (sign_request signer_id algorithm digest) (signature_answer (err e)) g h = tt
  AnswerFits-Grown (find_request name) (key_answer x) g h = absurd h
  AnswerFits-Grown (find_request name) (signature_answer x) g h = absurd h
  AnswerFits-Grown (key_request signer_id) (signer_answer x) g h = absurd h
  AnswerFits-Grown (key_request signer_id) (signature_answer x) g h = absurd h
  AnswerFits-Grown (sign_request signer_id algorithm digest) (signer_answer x) g h = absurd h
  AnswerFits-Grown (sign_request signer_id algorithm digest) (key_answer x) g h = absurd h

  pub PcFits-Grown :
      {a b : List Call} (r : Request) (p : Pc) → Grown a b → PcFits a r p → PcFits b r p
  unfolding PcFits
  PcFits-Grown r (called r') g h = h
  PcFits-Grown r (key_token signer_id token) g h = h
  PcFits-Grown r (key_parsed signer_id key) g (h, c) = (h, Certified-Grown g c)
  PcFits-Grown r (sign_token signer_id algorithm digest token) g h = h
  PcFits-Grown r (sign_context signer_id algorithm digest token ctx) g h = h
  PcFits-Grown r (sign_failed token signer_id digest ctx e) g h = h
  PcFits-Grown r (returned a) g h = AnswerFits-Grown r a g h

  pub AllCertified-Quiet : {st st' : State} → Quiet st st' → AllCertified st → AllCertified st'
  unfolding AllCertified
  AllCertified-Quiet {st} {st'} q all signer_id entry found =
      Certified-Grown q.grown (all signer_id entry (rw q.kept at found))
