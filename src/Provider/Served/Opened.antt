-- ===== src/Provider/Served/Opened.antt =====
-- The opening of providers and keys leaves every registered object served.
use infisical_ksp.Base.{ℕ, Option, none, some, ◌≡◌, refl, Bytes}
use infisical_ksp.Base.Result.{Result, ok, err}
use infisical_ksp.Client.{Signer}
use infisical_ksp.Client.Connection.{HttpClient, new_client}
use infisical_ksp.Config.{Config}
use infisical_ksp.Config.Load.{load_config}
use infisical_ksp.Config.Validity.{IsValid, load_config-IsValid}
use infisical_ksp.Crypto.{PublicKey, rsa, ecdsa, other}
use infisical_ksp.Errors.{GoError}
use infisical_ksp.Provider.Key.{
  Object, provider_state, key_state, Process, ProviderRef, key_state_for, register_key,
  open_with_key, open_with_signer, open_with_object, open_key,
}
use infisical_ksp.Provider.Open.{Host, open_with_client, open_with_config, open_provider, log_to}
use infisical_ksp.Provider.Registry.{lookup_handle}
use infisical_ksp.Provider.Served.{
  IsSetUp, IsServed, AllServed, register_handle-AllServed, run_session-AllServed,
  new_provider-AllServed,
}

module _ (host : Host) where
  register_key-AllServed :
      (p : ProviderRef) (sg : Signer) (k : PublicKey) (pr : Process)
      → AllServed host pr
      → IsSetUp host (pr.sessions p)
      → AllServed host (register_key (key_state_for p sg k) pr).1
  unfolding register_key key_state_for
  register_key-AllServed p sg (rsa k) pr all up =
      register_handle-AllServed host _ pr (record { shaped = refl; session = up }) all
  register_key-AllServed p sg (ecdsa k) pr all up =
      register_handle-AllServed host _ pr (record { shaped = (refl, refl); session = up }) all
  register_key-AllServed p sg (other t) pr all up = all

  open_with_key-AllServed :
      (p : ProviderRef) (sg : Signer) (q : Result GoError PublicKey × Process)
      → AllServed host q.1
      → IsSetUp host (q.1.sessions p)
      → AllServed host (open_with_key host.env p sg q).1
  unfolding open_with_key
  open_with_key-AllServed p sg (err e, pr) all up = all
  open_with_key-AllServed p sg (ok k, pr) all up = register_key-AllServed p sg k pr all up

  open_with_signer-AllServed :
      (p : ProviderRef) (q : Result GoError Signer × Process)
      → AllServed host q.1
      → IsSetUp host (q.1.sessions p)
      → AllServed host (open_with_signer host.env p q).1
  unfolding open_with_signer
  open_with_signer-AllServed p (err e, pr) all up = all
  open_with_signer-AllServed p (ok sg, pr) all up =
      let (all', up') = run_session-AllServed host p _ pr all up in
      open_with_key-AllServed p sg _ all' up'

  open_with_object-AllServed :
      (h : ℕ) (o : Option Object) (name : Bytes) (pr : Process)
      → lookup_handle h pr.registry ≡ o
      → AllServed host pr
      → AllServed host (open_with_object host.env o name pr).1
  unfolding open_with_object
  open_with_object-AllServed h (some (provider_state p)) name pr e all =
      let served : IsServed host pr.sessions (provider_state p) =
        unfold AllServed in all h (provider_state p) e in
      let up = served.session in
      let (all', up') = run_session-AllServed host p _ pr all up in
      open_with_signer-AllServed p _ all' up'
  open_with_object-AllServed h (some (key_state ks)) name pr e all = all
  open_with_object-AllServed h none name pr e all = all

  pub open_key-AllServed :
      (prov_handle : ℕ) (name : Bytes) (pr : Process)
      → AllServed host pr
      → AllServed host (open_key host.env prov_handle name pr).1
  unfolding open_key
  open_key-AllServed prov_handle name pr all =
      open_with_object-AllServed prov_handle _ name pr refl all

  log_to-AllServed :
      (file : Bytes) (pr : Process) → AllServed host pr → AllServed host (log_to host file pr)
  unfolding AllServed log_to
  log_to-AllServed file pr all = all

  open_with_client-AllServed :
      (cfg : Config) (r : Result GoError HttpClient) (pr : Process)
      → new_client host.sys.read_file host.append_certs cfg ≡ r
      → IsValid host.sys cfg
      → AllServed host pr
      → AllServed host (open_with_client host cfg r pr).1
  unfolding open_with_client
  open_with_client-AllServed cfg (err e) pr c valid all = all
  open_with_client-AllServed cfg (ok client) pr c valid all =
      new_provider-AllServed host cfg client pr valid c all

  open_with_config-AllServed :
      (r : Result GoError Config) (pr : Process)
      → load_config host.sys ≡ r
      → AllServed host pr
      → AllServed host (open_with_config host r pr).1
  unfolding open_with_config
  open_with_config-AllServed (err e) pr l all = log_to-AllServed _ pr all
  open_with_config-AllServed (ok cfg) pr l all =
      open_with_client-AllServed cfg _ _ refl (load_config-IsValid host.sys l)
        (log_to-AllServed cfg.log_file pr all)

  pub open_provider-AllServed :
      (pr : Process) → AllServed host pr → AllServed host (open_provider host pr).1
  unfolding open_provider
  open_provider-AllServed pr all = open_with_config-AllServed _ pr refl all
