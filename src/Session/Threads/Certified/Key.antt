-- ===== src/Session/Threads/Certified/Key.antt =====
-- The steps of `PublicKey`.
use infisical_ksp.Base.{
  Option, none, some, List, [], ◌∷◌, ◌≡◌, refl, sym, ◌∙◌, subst, inl, inr, ◌==◌, bytes_eq,
  bytes_beq_iff, if◌then◌else◌, Bytes, Bool-cases, Option-cases, arith,
}
use infisical_ksp.Base.Dict.{lookup, lookup-insert}
use infisical_ksp.Base.Result.{Result, ok, err}
use infisical_ksp.Client
use infisical_ksp.Client.{Call, Signer, certificate_call}
use infisical_ksp.Config.{Config}
use infisical_ksp.Crypto.{PublicKey}
use infisical_ksp.Errors.{GoError}
use infisical_ksp.Session.{cached_public_key, store_public_key, public_key_from_cert_pem}
use infisical_ksp.Session.Auth.{ensure_token}
use infisical_ksp.Session.Defs.{State, Env, PubKeyCacheEntry}
use infisical_ksp.Session.Threads.{
  key_request, key_token, key_parsed, key_authorized, parsed, cached_or_token, certificate_read,
  advance,
}
use infisical_ksp.Session.Threads.Quiet.{
  Grown-refl, Quiet, Quiet-trans, send-Quiet, ensure_token-Quiet,
}
use infisical_ksp.Session.Threads.Certified.{Certified, AnswerFits, PcFits, AllCertified}
use infisical_ksp.Session.Threads.Certified.Steps.{Stepped, quiet_step}

module _ (env : Env) (cfg : Config) where
  key_authorized-fits :
      (calls : List Call) (signer_id : Bytes) (q : Result GoError Bytes × State)
      → PcFits env cfg calls (key_request signer_id) (key_authorized signer_id q).0
  unfolding PcFits AnswerFits key_authorized
  key_authorized-fits calls signer_id (ok token, st) = refl
  key_authorized-fits calls signer_id (err e, st) = tt

  key_authorized-state :
      (signer_id : Bytes) (q : Result GoError Bytes × State) → (key_authorized signer_id q).1 ≡ q.1
  unfolding key_authorized
  key_authorized-state signer_id (ok token, st) = refl
  key_authorized-state signer_id (err e, st) = refl

  -- A cached key is certified; behind the test of the cache the token is fetched.
  pub cached_or_token-Stepped :
      (signer_id : Bytes) (st : State) (q : Option PublicKey × State)
      → AllCertified env cfg st
      → Quiet st q.1
      → ((key : PublicKey) → q.0 ≡ some key → Certified env cfg q.1.world.calls signer_id key)
      → Stepped env cfg (key_request signer_id) st (cached_or_token env cfg signer_id q)
  unfolding PcFits AnswerFits cached_or_token
  cached_or_token-Stepped signer_id st (some key, st') all quiet c =
      quiet_step env cfg _ all quiet (c key refl)
  cached_or_token-Stepped signer_id st (none, st') all quiet c =
      quiet_step env cfg _ all
        (rw (key_authorized-state signer_id (ensure_token env cfg st'))
          (Quiet-trans quiet (ensure_token-Quiet env cfg st')))
        (key_authorized-fits _ signer_id (ensure_token env cfg st'))

  pub cached_public_key-Certified :
      (signer_id : Bytes) (st : State) (key : PublicKey)
      → AllCertified env cfg st
      → (cached_public_key env cfg signer_id st).0 ≡ some key
      → Certified env cfg (cached_public_key env cfg signer_id st).1.world.calls signer_id key
  unfolding AllCertified cached_public_key
  cached_public_key-Certified signer_id st key all h =
      elim (Option-cases (lookup signer_id st.session.pub_keys)) [
        | inl absent ↦ absurd (ground (arith, h, absent))
        | inr (entry, found) ↦
            let same : entry.key ≡ key = ground (arith, h, found) in
            subst
              (λ (k : PublicKey).
                Certified env cfg (cached_public_key env cfg signer_id st).1.world.calls signer_id
                  k)
              same (rw (cached_public_key, found) (all signer_id entry found))
      ]

  parsed-Stepped :
      (signer_id : Bytes) (st st' : State) (r : Result GoError PublicKey)
      → AllCertified env cfg st
      → Quiet st st'
      → ((key : PublicKey) → r ≡ ok key → Certified env cfg st'.world.calls signer_id key)
      → Stepped env cfg (key_request signer_id) st (parsed signer_id r, st')
  unfolding PcFits AnswerFits parsed
  parsed-Stepped signer_id st st' (ok key) all quiet c =
      quiet_step env cfg _ all quiet (refl, c key refl)
  parsed-Stepped signer_id st st' (err e) all quiet c = quiet_step env cfg _ all quiet tt

  certificate_read-Stepped :
      (signer_id : Bytes) (st st' : State) (r : Result GoError Bytes)
      → AllCertified env cfg st
      → Quiet st st'
      → ((cert_pem : Bytes) (key : PublicKey)
          → r ≡ ok cert_pem
          → public_key_from_cert_pem env cert_pem ≡ ok key
          → Certified env cfg st'.world.calls signer_id key)
      → Stepped env cfg (key_request signer_id) st (certificate_read env cfg signer_id r, st')
  unfolding PcFits AnswerFits certificate_read
  certificate_read-Stepped signer_id st st' (ok cert_pem) all quiet c =
      parsed-Stepped signer_id st st' _ all quiet (λ key h. c cert_pem key refl h)
  certificate_read-Stepped signer_id st st' (err e) all quiet c = quiet_step env cfg _ all quiet tt

  -- `GetCertificate` gives the key that is certified from then on.
  pub key_token-Stepped :
      (signer_id token : Bytes) (st : State)
      → AllCertified env cfg st
      → Stepped env cfg (key_request signer_id) st (advance env cfg (key_token signer_id token) st)
  unfolding advance Client.get_certificate
  key_token-Stepped signer_id token st all =
      certificate_read-Stepped signer_id st _ _ all
        (send-Quiet (λ calls. Client.get_certificate env.server calls token signer_id) st
          (_ ∷ [], refl))
        (λ cert_pem key replied holds. record {
          later = [];
          before = st.world.calls;
          token = token;
          cert_pem = cert_pem;
          splits = refl;
          replied = replied;
          holds = holds;
        })

  stored-Certified :
      (id signer_id : Bytes) (stored entry : PubKeyCacheEntry) (st : State)
      → AllCertified env cfg st
      → Certified env cfg st.world.calls signer_id stored.key
      → (if id == signer_id then some stored else lookup id st.session.pub_keys) ≡ some entry
      → Certified env cfg st.world.calls id entry.key
  unfolding AllCertified
  stored-Certified id signer_id stored entry st all c h = elim (Bool-cases (id == signer_id)) [
    | inl same ↦
        let e : stored ≡ entry = let t = rw same at h in cc in
        rw (sym e, (bytes_beq_iff id signer_id).0 same) c
    | inr other ↦ all id entry (rw other at h)
  ]

  -- A certified key goes to the cache.
  pub key_parsed-Stepped :
      (signer_id : Bytes) (key : PublicKey) (st : State)
      → AllCertified env cfg st
      → Certified env cfg st.world.calls signer_id key
      → Stepped env cfg (key_request signer_id) st (advance env cfg (key_parsed signer_id key) st)
  unfolding PcFits AnswerFits AllCertified advance store_public_key
  key_parsed-Stepped signer_id key st all c = record {
    grown = Grown-refl _;
    certified = λ id entry found.
        stored-Certified id signer_id _ entry st all c
          (sym (lookup-insert id signer_id _ st.session.pub_keys) ∙ found);
    fits = c;
  }
