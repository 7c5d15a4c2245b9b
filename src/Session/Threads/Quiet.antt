-- ===== src/Session/Threads/Quiet.antt =====
-- The operations of a session that leave its cache of public keys alone.
use infisical_ksp.Base.{
  ◌||◌, ◌&&◌, Option, none, some, List, [], ◌∷◌, ◌++◌, ◌≡◌, refl, sym, ap, ◌∙◌, inl, inr, ◌==◌,
  bytes_eq, append_assoc, Bytes, Bool-cases, Option-cases, arith,
}
use infisical_ksp.Base.Result.{Result, ok, err}
use infisical_ksp.Base.Dict.{lookup}
use infisical_ksp.Base.Int.{ℤ}
use infisical_ksp.Client
use infisical_ksp.Client.{Call, Signer}
use infisical_ksp.Config.{Config, auth_method_token}
use infisical_ksp.Context.{SigningContext}
use infisical_ksp.Errors.{GoError}
use infisical_ksp.Session.{
  find_signer, list_signers, cached_signers, fetch_signers, request_signers, store_signers,
  find_among, cached_public_key, auto_request_on_denial,
}
use infisical_ksp.Session.Approval.{
  auto_request_on_denial-state, asks_for_request, approval_configured,
}
use infisical_ksp.Session.Auth.{
  ensure_token, renew_token, renewed, log_in, logged_in, token_is_valid, cache_expiry,
}
use infisical_ksp.Session.Auth.Token.{ensure_token-calls, our_login}
use infisical_ksp.Session.Defs.{World, Session, State, Env}
use infisical_ksp.Session.Monad.{M, send, result, then_run}

-- Calls are only added to the history.
abbrev pub Grown : List Call → List Call → Type 0
Grown calls calls' = (later : List Call) × (calls' ≡ later ++ calls)

pub Grown-refl : (calls : List Call) → Grown calls calls
Grown-refl calls = ([], refl)

pub Grown-trans : {a b c : List Call} → Grown a b → Grown b c → Grown a c
Grown-trans {a} (later, p) (later', q) =
    (later' ++ later, q ∙ ap (λ s. later' ++ s) p ∙ sym (append_assoc later' later a))

-- A state behind another, with the same cache of public keys.
pub record Quiet (st st' : State) : Type 0 where
  pub grown : Grown st.world.calls st'.world.calls
  pub kept : st'.session.pub_keys ≡ st.session.pub_keys

pub Quiet-trans : {a b c : State} → Quiet a b → Quiet b c → Quiet a c
Quiet-trans p q = record { grown = Grown-trans p.grown q.grown; kept = q.kept ∙ p.kept }

-- The clock is read, or nothing is done.
abbrev pub no_call :
    {st st' : State}
    → st'.world.calls ≡ st.world.calls
    → st'.session.pub_keys ≡ st.session.pub_keys
    → Quiet st st'
no_call c k = record { grown = ([], c); kept = k }

then_run-Quiet :
    {A B : Type 0} {st : State} (q : Result GoError A × State) (f : A → M B)
    → Quiet st q.1
    → ((a : A) (st' : State) → Quiet st' (f a st').1)
    → Quiet st (then_run q f).1
then_run-Quiet (ok a, st') f h k = Quiet-trans h (k a st')
then_run-Quiet (err e, st') f h k = h

pub send-Quiet :
    {A : Type 0} (f : List Call → Result GoError A × List Call) (st : State)
    → Grown st.world.calls (f st.world.calls).1
    → Quiet st (send f st).1
send-Quiet f st h = record { grown = h; kept = refl }

module _ (env : Env) (cfg : Config) where
  logged_in-pub_keys :
      (s : Session) (w : World) (r : Result GoError (Bytes × ℤ))
      → (logged_in env cfg s w r).1.session.pub_keys ≡ s.pub_keys
  unfolding logged_in cache_expiry
  logged_in-pub_keys s w (ok (token, ttl)) = refl
  logged_in-pub_keys s w (err e) = refl

  renewed-pub_keys :
      (s : Session) (w : World) (failure : Option GoError)
      → (renewed env cfg s w failure).1.session.pub_keys ≡ s.pub_keys
  unfolding renewed log_in
  renewed-pub_keys s w (some e) = refl
  renewed-pub_keys s w none =
      elim (Bool-cases (cfg.auth.client_id == [] || cfg.auth.client_secret == [])) [
        | inl missing ↦ rw missing refl
        | inr given ↦ rw given (logged_in-pub_keys s _ _)
      ]

  ensure_token-pub_keys :
      (st : State) → (ensure_token env cfg st).1.session.pub_keys ≡ st.session.pub_keys
  unfolding ensure_token renew_token
  ensure_token-pub_keys st = elim (Bool-cases (cfg.auth.method == auth_method_token)) [
    | inl token_auth ↦ rw token_auth (ground arith)
    | inr universal ↦ elim (Bool-cases (token_is_valid env st.session st.world).0) [
      | inl valid ↦ rw (universal, valid) refl
      | inr other ↦ rw (universal, other) (renewed-pub_keys st.session _ _)
    ]
  ]

  pub ensure_token-Quiet : (st : State) → Quiet st (ensure_token env cfg st).1
  ensure_token-Quiet st = record {
    grown = elim (ensure_token-calls env cfg st) [
      | inl e ↦ ([], e)
      | inr e ↦ (our_login env cfg ∷ [], e)
    ];
    kept = ensure_token-pub_keys st;
  }

  cached_signers-Quiet : (st : State) → Quiet st (cached_signers env cfg st).1
  unfolding cached_signers
  cached_signers-Quiet st = elim (Option-cases st.session.signers) [
    | inl absent ↦ rw (absent, cached_signers) (no_call refl refl)
    | inr (signers, present) ↦ rw (present, cached_signers) (no_call refl refl)
  ]

  fetch_signers-Quiet : (st : State) → Quiet st (fetch_signers env cfg st).1
  unfolding fetch_signers request_signers store_signers Client.list_signers
  fetch_signers-Quiet st =
      then_run-Quiet (ensure_token env cfg st) (request_signers env cfg) (ensure_token-Quiet st)
        λ token st1.
          then_run-Quiet (send (λ calls. Client.list_signers env.server calls token) st1)
            (store_signers env cfg)
            (send-Quiet (λ calls. Client.list_signers env.server calls token) st1 (_ ∷ [], refl))
            λ signers st2. no_call refl refl

  list_signers-Quiet : (st : State) → Quiet st (list_signers env cfg st).1
  unfolding list_signers
  list_signers-Quiet st = elim (Bool-cases (cached_signers env cfg st).0) [
    | inl fresh ↦ rw (list_signers, fresh) (cached_signers-Quiet st)
    | inr stale ↦
        rw (list_signers, stale) (Quiet-trans (cached_signers-Quiet st) (fetch_signers-Quiet _))
  ]

  pub find_signer-Quiet : (name : Bytes) (st : State) → Quiet st (find_signer env cfg name st).1
  unfolding find_signer
  find_signer-Quiet name st =
      then_run-Quiet (list_signers env cfg st)
        (λ signers. result (find_among env.os.unicode name signers)) (list_signers-Quiet st)
        λ signers st1. no_call refl refl

  pub cached_public_key-Quiet :
      (signer_id : Bytes) (st : State) → Quiet st (cached_public_key env cfg signer_id st).1
  unfolding cached_public_key
  cached_public_key-Quiet signer_id st =
      elim (Option-cases (lookup signer_id st.session.pub_keys)) [
        | inl absent ↦ rw (absent, cached_public_key) (no_call refl refl)
        | inr (entry, present) ↦ rw (present, cached_public_key) (no_call refl refl)
      ]

  pub auto_request_on_denial-Quiet :
      (token signer_id : Bytes) (ctx : SigningContext) (digest : Bytes) (e : GoError) (st : State)
      → Quiet st (auto_request_on_denial env cfg token signer_id ctx digest e st).1
  auto_request_on_denial-Quiet token signer_id ctx digest e st =
      rw (auto_request_on_denial-state env cfg token signer_id ctx digest e st)
        (elim (Bool-cases (asks_for_request e && approval_configured env cfg)) [
          | inl asks ↦ rw asks (record { grown = (_ ∷ [], refl); kept = refl })
          | inr ends ↦ rw ends (no_call refl refl)
        ])
