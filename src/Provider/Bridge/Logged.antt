-- ===== src/Provider/Bridge/Logged.antt =====
-- What the calls that open things leave in the log.
use infisical_ksp.Base.{
  ℕ, ◌<◌, ◌≤◌, Bool, Option, none, some, List, [], ◌∷◌, ◌++◌, ◌≡◌, ◌≢◌, refl, sym, ap, ◌∙◌, subst,
  bytes_eq, Bytes, length, arith,
}
use infisical_ksp.Base.Result.{Result, ok, err}
use infisical_ksp.Client.{Signer}
use infisical_ksp.Client.Connection.{HttpClient}
use infisical_ksp.Config.{Config}
use infisical_ksp.Crypto.{PublicKey, rsa, ecdsa, other}
use infisical_ksp.Errors.{GoError}
use infisical_ksp.Provider.Bridge.{logged, opened_handle, go_open_provider, go_open_key}
use infisical_ksp.Provider.Key.{
  Object, provider_state, key_state, Process, ProviderRef, key_state_for, register_key,
  new_provider, run_session, open_with_key, open_with_signer, open_with_object, open_key,
}
use infisical_ksp.Provider.Log.{Log, log_prefix, set_up_log, write_line, write_lines, write_error}
use infisical_ksp.Provider.Open.{Host, open_with_client, open_with_config, open_provider, log_to}
use infisical_ksp.Provider.Registry.{lookup_handle}
use infisical_ksp.Provider.Status.{status_success, log_error}

write_lines-le :
    (file : Option Bytes) (rest lines : List Bytes)
    → length lines ≤ length (write_lines file rest lines)
unfolding write_lines write_line
write_lines-le file [] lines = omega arith
write_lines-le none (line ∷ rest) lines = write_lines-le none rest lines
write_lines-le (some f) (line ∷ rest) lines =
    omega (arith, write_lines-le (some f) rest ((log_prefix ++ line) ∷ lines))

write_lines-lt :
    (f : Bytes) (ls lines : List Bytes)
    → 0 < length ls
    → length lines < length (write_lines (some f) ls lines)
unfolding write_lines write_line
write_lines-lt f [] lines h = absurd (omega arith)
write_lines-lt f (line ∷ rest) lines h =
    omega (arith, write_lines-le (some f) rest ((log_prefix ++ line) ∷ lines))

log_error_pos : (op : Bytes) (e : GoError) → 0 < length (log_error op e)
unfolding log_error
log_error_pos op e = ground arith

-- An error adds a line at least to a log that has a file.
abbrev pub Grows : Log → Log → Type 0
Grows log log' = length log.lines < length log'.lines

opened_handle-Grows :
    (op : Bytes) (q : Result GoError ℕ × Process) (f : Bytes)
    → (opened_handle op q).0.1 ≢ status_success
    → q.1.log.file ≡ some f
    → Grows q.1.log (opened_handle op q).1.log
unfolding opened_handle logged write_error
opened_handle-Grows op (ok h, pr) f n e = absurd (n refl)
opened_handle-Grows op (err e', pr) f n e =
    rw e (write_lines-lt f (log_error op e') pr.log.lines (log_error_pos op e'))

opened_handle-file :
    (op : Bytes) (q : Result GoError ℕ × Process) → (opened_handle op q).1.log.file ≡ q.1.log.file
unfolding opened_handle logged write_error
opened_handle-file op (ok h, pr) = refl
opened_handle-file op (err e, pr) = refl

set_up_log-lines :
    (opens : Bytes → Bool) (file : Bytes) (log : Log)
    → (set_up_log opens file log).lines ≡ log.lines
unfolding set_up_log
set_up_log-lines opens file log = ground arith

-- The two calls that open something.
pub data OpenCall : Type 0 where
  provider_call : OpenCall
  key_call : ℕ → Bytes → OpenCall

unfoldable pub go_open : Host → OpenCall → Process → (ℕ × ℕ) × Process
go_open host provider_call pr = go_open_provider host pr
go_open host (key_call prov name) pr = go_open_key host prov name pr

module _ (host : Host) where
  open_with_client-log :
      (cfg : Config) (r : Result GoError HttpClient) (pr : Process)
      → (open_with_client host cfg r pr).1.log ≡ pr.log
  unfolding open_with_client new_provider
  open_with_client-log cfg (err e) pr = refl
  open_with_client-log cfg (ok client) pr = refl

  open_with_config-lines :
      (r : Result GoError Config) (pr : Process)
      → (open_with_config host r pr).1.log.lines ≡ pr.log.lines
  unfolding open_with_config log_to
  open_with_config-lines (err e) pr = set_up_log-lines host.opens _ pr.log
  open_with_config-lines (ok cfg) pr =
      ap (λ (l : Log). l.lines) (open_with_client-log cfg _ (log_to host cfg.log_file pr))
      ∙ set_up_log-lines host.opens _ pr.log

  open_provider-lines : (pr : Process) → (open_provider host pr).1.log.lines ≡ pr.log.lines
  unfolding open_provider
  open_provider-lines pr = open_with_config-lines _ pr

  register_key-log :
      (p : ProviderRef) (sg : Signer) (k : PublicKey) (pr : Process)
      → (register_key (key_state_for p sg k) pr).1.log ≡ pr.log
  unfolding register_key key_state_for
  register_key-log p sg (rsa k) pr = refl
  register_key-log p sg (ecdsa k) pr = refl
  register_key-log p sg (other t) pr = refl

  open_with_key-log :
      (p : ProviderRef) (sg : Signer) (q : Result GoError PublicKey × Process)
      → (open_with_key host.env p sg q).1.log ≡ q.1.log
  unfolding open_with_key
  open_with_key-log p sg (err e, pr) = refl
  open_with_key-log p sg (ok k, pr) = register_key-log p sg k pr

  open_with_signer-log :
      (p : ProviderRef) (q : Result GoError Signer × Process)
      → (open_with_signer host.env p q).1.log ≡ q.1.log
  unfolding open_with_signer run_session
  open_with_signer-log p (err e, pr) = refl
  open_with_signer-log p (ok sg, pr) = open_with_key-log p sg _

  open_with_object-log :
      (o : Option Object) (name : Bytes) (pr : Process)
      → (open_with_object host.env o name pr).1.log ≡ pr.log
  unfolding open_with_object run_session
  open_with_object-log (some (provider_state p)) name pr = open_with_signer-log p _
  open_with_object-log (some (key_state ks)) name pr = refl
  open_with_object-log none name pr = refl

  -- No failure to open a provider or a key is silent: where the logger has a file behind the call,
  -- which a call that opens a provider may have set up itself, the log has a line more at least.
  pub go_open-Grows :
      (c : OpenCall) (pr : Process) (f : Bytes)
      → (go_open host c pr).0.1 ≢ status_success
      → (go_open host c pr).1.log.file ≡ some f
      → Grows pr.log (go_open host c pr).1.log
  unfolding go_open go_open_provider go_open_key open_key
  go_open-Grows provider_call pr f n e =
      subst (λ (ls : List Bytes). length ls < length (go_open_provider host pr).1.log.lines)
        (open_provider-lines pr)
        (opened_handle-Grows _ (open_provider host pr) f n (sym (opened_handle-file _ _) ∙ e))
  go_open-Grows (key_call prov name) pr f n e =
      subst (λ (l : Log). Grows l (go_open_key host prov name pr).1.log)
        (open_with_object-log (lookup_handle prov pr.registry) name pr)
        (opened_handle-Grows _ (open_key host.env prov name pr) f n
          (sym (opened_handle-file _ _) ∙ e))
