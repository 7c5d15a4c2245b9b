-- ===== src/Provider/Open.antt =====
-- The opening of a provider (cmd/ksp/provider_windows.go, `openProvider`).
use infisical_ksp.Base.{ℕ, Bool, List, Bytes, Option}
use infisical_ksp.Base.Result.{Result, ok, err}
use infisical_ksp.Client.Connection.{HttpClient, new_client}
use infisical_ksp.Config.{Config}
use infisical_ksp.Config.Load.{System, default_log_path, load_config}
use infisical_ksp.Errors.{GoError}
use infisical_ksp.Provider.Key.{Process, new_provider}
use infisical_ksp.Provider.Log.{set_up_log}
use infisical_ksp.Session.Defs.{Env}

-- What a process runs on: the outside of its sessions, the environment and the files, and the
-- libraries' answers on certificates, log files and UTF-16.
pub record Host : Type 0 where
  pub env : Env
  pub sys : System
  -- `AppendCertsFromPEM`
  pub append_certs : Bytes → Bool
  -- `os.OpenFile` for appending, after `os.MkdirAll`.
  pub opens : Bytes → Bool
  -- `windows.UTF16FromString`
  pub utf16_from_string : Bytes → Option (List ℕ)

module _ (host : Host) where
  unfoldable pub log_to : Bytes → Process → Process
  log_to file pr = record pr { log = set_up_log host.opens file pr.log }

  -- `openProvider` behind the call of `NewSession`, which is `NewClient` with empty caches.
  unfoldable pub open_with_client :
      Config → Result GoError HttpClient → Process → Result GoError ℕ × Process
  open_with_client cfg (err e) pr = (err e, pr)
  open_with_client cfg (ok client) pr = let (h, pr') = new_provider cfg client pr in (ok h, pr')

  -- `openProvider` behind the call of `LoadConfig`.
  unfoldable pub open_with_config : Result GoError Config → Process → Result GoError ℕ × Process
  open_with_config (err e) pr = (err e, log_to (default_log_path host.sys) pr)
  open_with_config (ok cfg) pr =
      open_with_client cfg (new_client host.sys.read_file host.append_certs cfg)
        (log_to cfg.log_file pr)

  unfoldable pub open_provider : Process → Result GoError ℕ × Process
  open_provider pr = open_with_config (load_config host.sys) pr
