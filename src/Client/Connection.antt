-- ===== src/Client/Connection.antt =====
-- The set-up of the HTTP client (internal/infisical/client.go, `NewClient`). What the HTTP library
-- does with it is that library's.
pub mod Address
use infisical_ksp.Base.{
  ℕ, Bool, true, false, Option, none, some, List, [], ◌∷◌, ◌++◌, ◌&&◌, nat_beq, if◌then◌else◌, ◌==◌,
  bytes_eq, Bytes, text,
}
use infisical_ksp.Base.Result.{Result, ok, err}
use infisical_ksp.Config.{Config, TlsConfig}
use infisical_ksp.Config.Load.{FileRead, contents, missing, failed_read}
use infisical_ksp.Errors.{GoError, plain, wrapped}

-- The settings of the `resty.Client`. `root_cas` is the PEM text whose certificates are trusted;
-- `none` where those of the system are.
pub record HttpClient : Type 0 where
  pub base_url : Bytes
  pub min_version : ℕ
  pub skip_verify : Bool
  pub root_cas : Option Bytes
  pub timeout : ℕ
  pub user_agent : Bytes

-- Nanoseconds.
abbrev pub client_timeout : ℕ
client_timeout = 30_000_000_000

-- `tls.VersionTLS12`, the version's number in the protocol.
abbrev pub tls_version_12 : ℕ
tls_version_12 = 0x0303

-- `strings.TrimRight(s, "/")`
unfoldable pub trim_slashes : Bytes → Bytes
trim_slashes [] = []
trim_slashes (c ∷ s) =
    let rest = trim_slashes s in if nat_beq c b'/' && rest == [] then [] else c ∷ rest

-- The files of the machine, and `AppendCertsFromPEM`: whether a text holds a certificate.
module _ (read_file : Bytes → FileRead) (append_certs : Bytes → Bool) where
  unfoldable pub read_pool : Bytes → FileRead → Result GoError (Option Bytes)
  read_pool path (contents pem) =
      if append_certs pem
      then ok (some pem)
      else err (plain (text "failed to parse CA cert from " ++ path))
  read_pool path (missing e) = err (wrapped (text "failed to read CA cert") e)
  read_pool path (failed_read e) = err (wrapped (text "failed to read CA cert") e)

  unfoldable pub root_pool : TlsConfig → Result GoError (Option Bytes)
  root_pool tls =
      if tls.ca_cert_path == []
      then ok none
      else read_pool tls.ca_cert_path (read_file tls.ca_cert_path)

  unfoldable pub connected : Config → Result GoError (Option Bytes) → Result GoError HttpClient
  connected cfg (err e) = err e
  connected cfg (ok pool) = ok (record {
    base_url = trim_slashes cfg.server_url;
    min_version = tls_version_12;
    skip_verify = cfg.tls.skip_verify;
    root_cas = pool;
    timeout = client_timeout;
    user_agent = text "infisical-ksp";
  })

  unfoldable pub new_client : Config → Result GoError HttpClient
  new_client cfg = connected cfg (root_pool cfg.tls)
