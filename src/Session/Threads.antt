-- ===== src/Session/Threads.antt =====
-- Calls of one session by several threads (internal/infisical/session.go). A step is a section under
-- the session's mutex, the capture of the situation, or a call of the server outside the mutex: the
-- login is inside it, and the certificate, the signature and the approval are not.
pub mod Quiet
pub mod Certified
pub mod Mutex
mod Tests
use infisical_ksp.Base.{
  ℕ, suc, nat_beq, true, Option, none, some, List, [], ◌∷◌, ◌++◌, if◌then◌else◌, Bytes,
}
use infisical_ksp.Base.Result.{Result, ok, err}
use infisical_ksp.Client
use infisical_ksp.Client.{Call, Signer}
use infisical_ksp.Config.{Config}
use infisical_ksp.Context.{SigningContext, client_metadata}
use infisical_ksp.Context.Capture.{current_signing_context}
use infisical_ksp.Crypto.{PublicKey}
use infisical_ksp.Errors.{GoError}
use infisical_ksp.Session.{
  find_signer, cached_public_key, store_public_key, public_key_from_cert_pem,
  auto_request_on_denial,
}
use infisical_ksp.Session.Auth.{ensure_token}
use infisical_ksp.Session.Defs.{World, State, Env}
use infisical_ksp.Session.Monad.{send}

-- A call of `FindSigner`, `PublicKey` or `Sign`.
pub data Request : Type 0 where
  find_request : Bytes → Request
  key_request : Bytes → Request
  sign_request : Bytes → Bytes → Bytes → Request

-- What it returns.
pub data Answer : Type 0 where
  signer_answer : Result GoError Signer → Answer
  key_answer : Result GoError PublicKey → Answer
  signature_answer : Result GoError Bytes → Answer

-- Where a thread is: in front of the first step of its call, in front of a later one with the
-- values of the call's variables, or behind the call.
pub data Pc : Type 0 where
  called : Request → Pc
  key_token : Bytes → Bytes → Pc
  key_parsed : Bytes → PublicKey → Pc
  sign_token : Bytes → Bytes → Bytes → Bytes → Pc
  sign_context : Bytes → Bytes → Bytes → Bytes → SigningContext → Pc
  sign_failed : Bytes → Bytes → Bytes → SigningContext → GoError → Pc
  returned : Answer → Pc

-- The threads of a session, by number.
pub record System : Type 0 where
  pub pc : ℕ → Pc
  pub state : State

-- What happens next: a step of a thread, or calls of the server by other sessions of the process,
-- which may change everything in the world but the calls made before.
pub data Event : Type 0 where
  turn_of : ℕ → Event
  others : List Call → World → Event

abbrev pub update : (ℕ → Pc) → ℕ → Pc → ℕ → Pc
update pc i p j = if nat_beq j i then p else pc j

-- `PublicKey` and `Sign` behind the section with `ensureToken`.
unfoldable pub key_authorized : Bytes → Result GoError Bytes × State → Pc × State
key_authorized signer_id (err e, st) = (returned (key_answer (err e)), st)
key_authorized signer_id (ok token, st) = (key_token signer_id token, st)

unfoldable pub sign_authorized : Bytes → Bytes → Bytes → Result GoError Bytes × State → Pc × State
sign_authorized signer_id algorithm digest (err e, st) = (returned (signature_answer (err e)), st)
sign_authorized signer_id algorithm digest (ok token, st) =
    (sign_token signer_id algorithm digest token, st)

unfoldable pub parsed : Bytes → Result GoError PublicKey → Pc
parsed signer_id (err e) = returned (key_answer (err e))
parsed signer_id (ok key) = key_parsed signer_id key

module _ (env : Env) (cfg : Config) where
  unfoldable pub cached_or_token : Bytes → Option PublicKey × State → Pc × State
  cached_or_token signer_id (some key, st) = (returned (key_answer (ok key)), st)
  cached_or_token signer_id (none, st) = key_authorized signer_id (ensure_token env cfg st)

  unfoldable pub certificate_read : Bytes → Result GoError Bytes → Pc
  certificate_read signer_id (err e) = returned (key_answer (err e))
  certificate_read signer_id (ok cert_pem) =
      parsed signer_id (public_key_from_cert_pem env cert_pem)

  unfoldable pub signature_read : Bytes → Bytes → SigningContext → Bytes → Result GoError Bytes → Pc
  signature_read token signer_id ctx digest (ok sig_b64) =
      returned (signature_answer (env.codecs.base64_decode sig_b64))
  signature_read token signer_id ctx digest (err e) = sign_failed token signer_id digest ctx e

  -- The next step of a thread.
  unfoldable pub advance : Pc → State → Pc × State
  advance (called (find_request name_or_id)) st =
      let (r, st') = find_signer env cfg name_or_id st in (returned (signer_answer r), st')
  advance (called (key_request signer_id)) st =
      cached_or_token signer_id (cached_public_key env cfg signer_id st)
  advance (called (sign_request signer_id algorithm digest)) st =
      sign_authorized signer_id algorithm digest (ensure_token env cfg st)
  advance (key_token signer_id token) st =
      let (r, st') =
        send {A = Bytes} (λ calls. Client.get_certificate env.server calls token signer_id) st in
      (certificate_read signer_id r, st')
  advance (key_parsed signer_id key) st =
      let (r, st') = store_public_key env cfg signer_id key st in (returned (key_answer r), st')
  advance (sign_token signer_id algorithm digest token) st =
      let (ctx, memo) = current_signing_context env.os st.world.signing_ctx in
      (
        sign_context signer_id algorithm digest token ctx,
        record st { world = record st.world { signing_ctx = memo } },
      )
  advance (sign_context signer_id algorithm digest token ctx) st =
      let (r, st') =
        send {A = Bytes}
          (λ calls. Client.sign env.server calls token signer_id (record {
            data_b64 = env.codecs.base64_encode digest;
            signing_algorithm = algorithm;
            is_digest = true;
            client_metadata = client_metadata ctx;
          }))
          st in
      (signature_read token signer_id ctx digest r, st')
  advance (sign_failed token signer_id digest ctx e) st =
      let (e', st') = auto_request_on_denial env cfg token signer_id ctx digest e st in
      (returned (signature_answer (err e')), st')
  advance (returned a) st = (returned a, st)

  -- One step of a thread of the system.
  unfoldable pub turn : ℕ → System → System
  turn i s = let (p, st) = advance (s.pc i) s.state in record { pc = update s.pc i p; state = st }

  -- One event, and the events of a schedule.
  unfoldable pub happen : Event → System → System
  happen (turn_of i) s = turn i s
  happen (others later w) s = record s {
    state = record s.state { world = record w { calls = later ++ s.state.world.calls } };
  }

  unfoldable pub run : List Event → System → System
  run [] s = s
  run (e ∷ schedule) s = run schedule (happen e s)
