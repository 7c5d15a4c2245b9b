-- ===== src/Session/Threads/Certified/Answers.antt =====
-- What the threads of a session return comes from the server, for the request that each made.
use infisical_ksp.Base.{
  ℕ, nat_beq, List, [], ◌∷◌, ◌≡◌, refl, sym, subst, inl, inr, bytes_eq, Bool-cases, arith,
}
use infisical_ksp.Base.Dict.{lookup}
use infisical_ksp.Client.{Call}
use infisical_ksp.Config.{Config}
use infisical_ksp.Session.Auth.{ensure_token}
use infisical_ksp.Session.Defs.{World, State, Env}
use infisical_ksp.Session.Threads.{
  Event, turn_of, others, happen, Request, find_request, key_request, sign_request, Answer, Pc,
  called, key_token, key_parsed, sign_token, sign_context, sign_failed, returned, System, advance,
  turn, run,
}
use infisical_ksp.Session.Threads.Quiet.{
  Grown-refl, ensure_token-Quiet, find_signer-Quiet, cached_public_key-Quiet,
  auto_request_on_denial-Quiet,
}
use infisical_ksp.Session.Threads.Certified.{
  AnswerFits, PcFits, AllCertified, AllCertified-Quiet, PcFits-Grown,
}
use infisical_ksp.Session.Threads.Certified.Steps.{Stepped, quiet_step}
use infisical_ksp.Session.Threads.Certified.Key.{
  cached_or_token-Stepped, cached_public_key-Certified, key_token-Stepped, key_parsed-Stepped,
}
use infisical_ksp.Session.Threads.Certified.Signature.{
  sign_authorized-fits, sign_authorized-state, sign_context-Stepped,
}
use infisical_ksp.Session.Threads.Certified.Finding.{find_signer-Named, signer_answer-fits}

module _ (env : Env) (cfg : Config) where
  called-Stepped :
      (r : Request) (st : State)
      → AllCertified env cfg st
      → Stepped env cfg r st (advance env cfg (called r) st)
  unfolding advance PcFits
  called-Stepped (find_request name) st all =
      quiet_step env cfg _ all (find_signer-Quiet env cfg name st)
        (signer_answer-fits env cfg _ name _ (find_signer-Named env cfg name st))
  called-Stepped (key_request signer_id) st all =
      cached_or_token-Stepped env cfg signer_id st _ all
        (cached_public_key-Quiet env cfg signer_id st)
        (λ key. cached_public_key-Certified env cfg signer_id st key all)
  called-Stepped (sign_request signer_id algorithm digest) st all =
      quiet_step env cfg _ all
        (rw (sign_authorized-state env cfg signer_id algorithm digest (ensure_token env cfg st))
          (ensure_token-Quiet env cfg st))
        (sign_authorized-fits env cfg _ signer_id algorithm digest (ensure_token env cfg st))

  -- A thread's step leaves every cached key certified, and the thread where its request has it.
  pub advance-Stepped :
      (r : Request) (p : Pc) (st : State)
      → AllCertified env cfg st
      → PcFits env cfg st.world.calls r p
      → Stepped env cfg r st (advance env cfg p st)
  unfolding PcFits AnswerFits
  advance-Stepped r (called r') st all h =
      subst (λ (q : Request). Stepped env cfg q st (advance env cfg (called r') st)) h
        (called-Stepped r' st all)
  advance-Stepped r (key_token signer_id token) st all h =
      subst (λ (q : Request). Stepped env cfg q st (advance env cfg (key_token signer_id token) st))
        h (key_token-Stepped env cfg signer_id token st all)
  advance-Stepped r (key_parsed signer_id key) st all (h, c) =
      subst (λ (q : Request). Stepped env cfg q st (advance env cfg (key_parsed signer_id key) st))
        h (key_parsed-Stepped env cfg signer_id key st all c)
  advance-Stepped r (sign_token signer_id algorithm digest token) st all h =
      unfold advance in quiet_step env cfg _ all (record { grown = Grown-refl _; kept = refl }) h
  advance-Stepped r (sign_context signer_id algorithm digest token ctx) st all h =
      subst
        (λ (q : Request).
          Stepped env cfg q st
            (advance env cfg (sign_context signer_id algorithm digest token ctx) st))
        h (sign_context-Stepped env cfg signer_id algorithm digest token ctx st all)
  advance-Stepped r (sign_failed token signer_id digest ctx e) st all (algorithm, h) =
      subst
        (λ (q : Request).
          Stepped env cfg q st (advance env cfg (sign_failed token signer_id digest ctx e) st))
        h
        (unfold advance in
          quiet_step env cfg _ all
            (auto_request_on_denial-Quiet env cfg token signer_id ctx digest e st) tt)
  advance-Stepped r (returned a) st all h =
      unfold advance in quiet_step env cfg _ all (record { grown = Grown-refl _; kept = refl }) h

  -- The system of a session whose threads have each made a request: every cached key is certified,
  -- and every thread is on its way through its request.
  pub record Sound (requests : ℕ → Request) (s : System) : Type 0 where
    pub certified : AllCertified env cfg s.state
    pub fits : (i : ℕ) → PcFits env cfg s.state.world.calls (requests i) (s.pc i)

  turn-Sound :
      (requests : ℕ → Request) (i : ℕ) (s : System)
      → Sound requests s
      → Sound requests (turn env cfg i s)
  unfolding turn
  turn-Sound requests i s h =
      let step = advance-Stepped (requests i) (s.pc i) s.state h.certified (h.fits i) in
      record {
        certified = step.certified;
        fits = λ j. elim (Bool-cases (nat_beq j i)) [
          | inl same ↦
              let e : j ≡ i = ground arith in
              rw same (
                subst
                  (λ k.
                    PcFits env cfg (turn env cfg i s).state.world.calls (requests k)
                      (advance env cfg (s.pc i) s.state).0)
                  (sym e) step.fits)
          | inr other ↦ rw other (PcFits-Grown env cfg (requests j) (s.pc j) step.grown (h.fits j))
        ];
      }

  others-Sound :
      (requests : ℕ → Request) (later : List Call) (w : World) (s : System)
      → Sound requests s
      → Sound requests (happen env cfg (others later w) s)
  unfolding happen
  others-Sound requests later w s h = record {
    certified =
        AllCertified-Quiet env cfg (record { grown = (later, refl); kept = refl }) h.certified;
    fits = λ j. PcFits-Grown env cfg (requests j) (s.pc j) (later, refl) (h.fits j);
  }

  run-Sound :
      (requests : ℕ → Request) (schedule : List Event) (s : System)
      → Sound requests s
      → Sound requests (run env cfg schedule s)
  unfolding run happen
  run-Sound requests [] s h = h
  run-Sound requests (others later w ∷ schedule) s h =
      run-Sound requests schedule _ (others-Sound requests later w s h)
  run-Sound requests (turn_of i ∷ schedule) s h =
      run-Sound requests schedule (turn env cfg i s) (turn-Sound requests i s h)

  -- The session is new to public keys, and every thread is in front of its request.
  unfoldable pub Begins : (ℕ → Request) → System → Type 0
  Begins requests s = (s.state.session.pub_keys ≡ []) × ((i : ℕ) → s.pc i ≡ called (requests i))

  Begins-Sound : (requests : ℕ → Request) (s : System) → Begins requests s → Sound requests s
  unfolding Begins AllCertified PcFits lookup
  Begins-Sound requests s (bare, fresh) = record {
    certified = λ signer_id entry found. absurd (let q = rw bare at found in cc);
    fits = λ i. rw (fresh i) refl;
  }

  -- In a session that begins with no cached key, and however its threads are interleaved with each
  -- other and with the calls of other sessions, a thread that has returned has an answer of the kind that its request asked for: a signer with the name or the ID; a public key out of a
  -- certificate that the server gave for this signer; or a signature that the server gave for this
  -- signer, algorithm and digest. This holds also where another thread filled the cache.
  pub run-AnswerFits :
      (requests : ℕ → Request) (schedule : List Event) (s : System) (i : ℕ) (a : Answer)
      → Begins requests s
      → (run env cfg schedule s).pc i ≡ returned a
      → AnswerFits env cfg (run env cfg schedule s).state.world.calls (requests i) a
  unfolding PcFits
  run-AnswerFits requests schedule s i a begins done =
      rw done at ((run-Sound requests schedule s (Begins-Sound requests s begins)).fits i)
