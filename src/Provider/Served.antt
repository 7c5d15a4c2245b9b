-- ===== src/Provider/Served.antt =====
-- What every registered object is: a provider or a key whose session is set up, and a key that
-- agrees with its public key.
pub mod Opened
use infisical_ksp.Base.{
  ◌+◌, ℕ, nat_beq, nat_beq_iff, nat_eq, ◌==◌, Bool, true, false, Option, none, some, ◌≡◌, refl, sym,
  ap, ◌∙◌, subst, inl, inr, if◌then◌else◌, Bytes, Bool-cases,
}
use infisical_ksp.Base.Dict.{lookup, lookup-insert, lookup-erase}
use infisical_ksp.Base.Result.{Result, ok, err}
use infisical_ksp.Client.{Signer}
use infisical_ksp.Client.Connection.{HttpClient, new_client}
use infisical_ksp.Config.{Config}
use infisical_ksp.Config.Load.{load_config}
use infisical_ksp.Config.Validity.{IsValid, load_config-IsValid}
use infisical_ksp.Crypto.{PublicKey, rsa, ecdsa, other}
use infisical_ksp.Errors.{GoError}
use infisical_ksp.Provider.Key.{
  KeyState, Object, provider_state, key_state, Process, ProviderRef, SessionCell, set_session,
  key_state_for, register_key, open_with_key, open_with_signer, open_with_object, open_key,
  run_session, new_provider,
}
use infisical_ksp.Provider.Key.Shape.{IsShaped, IsShapedObject, place}
use infisical_ksp.Provider.Open.{Host, open_with_client, open_with_config, open_provider, log_to}
use infisical_ksp.Provider.Registry.{Registry, register_handle, lookup_handle, free_handle}
use infisical_ksp.Session.Defs.{Session, State, new_session}
use infisical_ksp.Session.Monad.{M}

nat_beq_refl : (p : ℕ) → nat_beq p p ≡ true
nat_beq_refl p = (nat_beq_iff p p).1 refl

module _ (host : Host) where
  -- A session with a valid configuration, and the client that is set up for it.
  pub record IsSetUp (c : SessionCell) : Type 0 where
    pub valid : IsValid host.sys c.cfg
    pub connected : new_client host.sys.read_file host.append_certs c.cfg ≡ ok c.client

  pub record IsServed (cells : ProviderRef → SessionCell) (o : Object) : Type 0 where
    pub shaped : IsShapedObject o
    pub session : IsSetUp (cells (place o))

  -- Every registered object is served.
  unfoldable pub AllServed : Process → Type 0
  AllServed pr =
      (h : ℕ) (o : Object) → lookup_handle h pr.registry ≡ some o → IsServed pr.sessions o

  pub register_handle-AllServed :
      (o : Object) (pr : Process)
      → IsServed pr.sessions o
      → AllServed pr
      → AllServed (record pr { registry = (register_handle o pr.registry).1 })
  unfolding AllServed register_handle lookup_handle
  register_handle-AllServed o pr ho all h o' e =
      let reg = pr.registry in
      let found = sym (lookup-insert h reg.next_handle o reg.handles) ∙ e in
      elim (Bool-cases (h == reg.next_handle)) [
        | inl t ↦
            let q = rw t at found in let same : o ≡ o' = cc in subst (IsServed pr.sessions) same ho
        | inr t ↦ all h o' (rw t at found)
      ]

  pub free_handle-AllServed :
      (k : ℕ) (pr : Process)
      → AllServed pr
      → AllServed (record pr { registry = free_handle k pr.registry })
  unfolding AllServed free_handle lookup_handle
  free_handle-AllServed k pr all h o e =
      let found = sym (lookup-erase h k pr.registry.handles) ∙ e in
      elim (Bool-cases (h == k)) [
        | inl t ↦ absurd (let q = rw t at found in cc)
        | inr t ↦ all h o (rw t at found)
      ]

  -- A session that is set up, in the place of one, does no harm.
  IsServed-set_session :
      (p : ProviderRef) (c : SessionCell) (cells : ProviderRef → SessionCell) (o : Object)
      → (IsSetUp (cells p) → IsSetUp c)
      → IsServed cells o
      → IsServed (set_session p c cells) o
  IsServed-set_session p c cells o keep s = record {
    shaped = s.shaped;
    session = elim (Bool-cases (nat_beq (place o) p)) [
      | inl here ↦
          let e = (nat_beq_iff (place o) p).0 here in
          rw here (keep (subst (λ q. IsSetUp (cells q)) e s.session))
      | inr there ↦ rw there s.session
    ];
  }

  -- A method of a session leaves every object served, and its own session set up.
  pub run_session-AllServed :
      {A : Type 0} (p : ProviderRef) (m : Config → M A) (pr : Process)
      → AllServed pr
      → IsSetUp (pr.sessions p)
      → AllServed (run_session p m pr).1 × IsSetUp ((run_session p m pr).1.sessions p)
  unfolding AllServed run_session
  run_session-AllServed p m pr all up = (
    λ h o e. IsServed-set_session p _ pr.sessions o again (all h o e),
    rw (nat_beq_refl p) (again up),
  )
    where
      again :
          {s : Session} → IsSetUp (pr.sessions p) → IsSetUp (record (pr.sessions p) { session = s })
      again u = record { valid = u.valid; connected = u.connected }

  -- So does a new provider whose client is set up for a valid configuration.
  pub new_provider-AllServed :
      (cfg : Config) (client : HttpClient) (pr : Process)
      → IsValid host.sys cfg
      → new_client host.sys.read_file host.append_certs cfg ≡ ok client
      → AllServed pr
      → AllServed (new_provider cfg client pr).1
  unfolding new_provider
  new_provider-AllServed cfg client pr valid connected all =
      let p = pr.next_session in
      let cell : SessionCell = record { cfg = cfg; client = client; session = new_session } in
      let up : IsSetUp cell = record { valid = valid; connected = connected } in
      let pr' = record pr { next_session = p + 1; sessions = set_session p cell pr.sessions } in
      register_handle-AllServed (provider_state p) pr'
        (record { shaped = tt; session = rw (nat_beq_refl p) up })
        (unfold AllServed in
          λ h o e. IsServed-set_session p cell pr.sessions o (λ _. up) (all h o e))
