-- ===== src/Config/Load.antt =====
-- The load of the configuration (internal/infisical/config.go, `setDefaults` to `loadConfigFrom`,
-- and `parseApprovalDuration` of internal/infisical/session.go).
use infisical_ksp.Base.{
  ℕ, Bool, true, false, not, ◌||◌, none, some, List, [], ◌++◌, if◌then◌else◌, ◌==◌, bytes_eq, Bytes,
  text, Unicode, to_lower, has_suffix, length, take, ◌-◌, nat_beq,
}
use infisical_ksp.Base.Int.{ℤ, pos, negsuc, ltb_ℤ, ◌*ℤ◌, wrap64}
use infisical_ksp.Base.Result.{Result, ok, err}
use infisical_ksp.Config.{AuthConfig, Config, auth_method_universal_auth, auth_method_token}
use infisical_ksp.Context.{validate_scope_exclusions}
use infisical_ksp.Errors.{GoError, plain, wrapped}
use infisical_ksp.Errors.Decimal.{decimal_ℤ}

-- What `os.ReadFile` gives; `missing` is an error that is `os.ErrNotExist`.
pub data FileRead : Type 0 where
  contents : Bytes → FileRead
  missing failed_read : GoError → FileRead

-- The environment of the process and the parsers of Go's library.
pub record System : Type 0 where
  pub unicode : Unicode
  pub windows : Bool
  -- `os.Getenv`: empty where a variable is not set.
  pub getenv : Bytes → Bytes
  pub read_file : Bytes → FileRead
  -- `json.Unmarshal` into a zero `Config`.
  pub unmarshal : Bytes → Result GoError Config
  -- `url.Parse`: the scheme and the host.
  pub parse_url : Bytes → Result GoError (Bytes × Bytes)
  -- `net.ParseIP` is not nil.
  pub is_ip : Bytes → Bool
  pub parse_duration : Bytes → Result GoError ℤ
  -- `strconv.Atoi`: an `int` has 64 bits in the DLL for x64, and 32 in the one for x86, in
  -- which `Atoi` refuses a number of 2 ^ 31 and more.
  pub atoi : Bytes → Result GoError ℤ

abbrev pub zero_config : Config
zero_config = record {
  server_url = [];
  auth = record { method = []; client_id = []; client_secret = []; token = [] };
  tls = record { ca_cert_path = []; skip_verify = false };
  cache = record {
    token_ttl_seconds = pos 0;
    cert_ttl_seconds = pos 0;
    signer_ttl_seconds = pos 0;
  };
  approval = record {
    signing_count = pos 0;
    signing_duration = [];
    exclude_scope_fields = [];
    ip_address = [];
  };
  log_level = [];
  log_file = [];
}

-- `if n == 0 { n = d }` and `if s == "" { s = d }`
unfoldable pub number_or : ℕ → ℤ → ℤ
number_or d (pos n) = if nat_beq n 0 then pos d else pos n
number_or d (negsuc n) = negsuc n

unfoldable pub text_or : Bytes → Bytes → Bytes
text_or d s = if s == [] then d else s

abbrev pub env_config_path : Bytes
env_config_path = text "INFISICAL_CONFIG"

abbrev pub env_client_id : Bytes
env_client_id = text "INFISICAL_UNIVERSAL_AUTH_CLIENT_ID"

abbrev pub env_client_secret : Bytes
env_client_secret = text "INFISICAL_UNIVERSAL_AUTH_CLIENT_SECRET"

abbrev pub env_server_url : Bytes
env_server_url = text "INFISICAL_SERVER_URL"

abbrev pub env_token : Bytes
env_token = text "INFISICAL_TOKEN"

abbrev pub minute : ℤ
minute = pos 60_000_000_000

abbrev pub thirty_days : ℤ
thirty_days = pos 2_592_000_000_000_000

-- `if r != nil { return r }` before a further check.
unfoldable pub and_then :
    {A : Type 0} → Result GoError (Unit {0}) → Result GoError A → Result GoError A
and_then (err e) next = err e
and_then (ok done) next = next

unfoldable pub require : Bool → GoError → Result GoError (Unit {0})
require true e = ok tt
require false e = err e

-- An error with `fmt.Errorf("<prefix>: %w", err)`.
unfoldable pub within {ℓ} : {A : Type ℓ} → Bytes → Result GoError A → Result GoError A
within prefix (err e) = err (wrapped prefix e)
within prefix (ok a) = ok a

module _ (sys : System) where
  unfoldable pub program_data : Bytes
  program_data = text_or (text "C:\\ProgramData") (sys.getenv (text "ProgramData"))

  unfoldable pub default_config_path : Bytes
  default_config_path =
      if sys.windows
      then program_data ++ text "\\Infisical\\config.json"
      else text "/etc/infisical/ksp.conf"

  unfoldable pub default_log_path : Bytes
  default_log_path = if sys.windows then program_data ++ text "\\Infisical\\ksp.log" else []

  unfoldable pub config_path : Bytes
  config_path = text_or default_config_path (sys.getenv env_config_path)

  unfoldable pub default_method : AuthConfig → Bytes
  default_method a =
      text_or (if a.token == [] then auth_method_universal_auth else auth_method_token) a.method

  unfoldable pub set_defaults : Config → Config
  set_defaults c = record c {
    cache = record {
      token_ttl_seconds = number_or 300 c.cache.token_ttl_seconds;
      cert_ttl_seconds = number_or 3600 c.cache.cert_ttl_seconds;
      signer_ttl_seconds = number_or 300 c.cache.signer_ttl_seconds;
    };
    log_level = text_or (text "info") c.log_level;
    auth = record c.auth { method = default_method c.auth };
    log_file = text_or default_log_path c.log_file;
  }

  unfoldable pub apply_env_overrides : Config → Config
  apply_env_overrides c = record c {
    server_url = text_or c.server_url (sys.getenv env_server_url);
    auth = record {
      client_id = text_or c.auth.client_id (sys.getenv env_client_id);
      client_secret = text_or c.auth.client_secret (sys.getenv env_client_secret);
      token = text_or c.auth.token (sys.getenv env_token);
      method = if sys.getenv env_token == [] then c.auth.method else auth_method_token;
    };
  }

  -- `time.Duration(count) * 24 * time.Hour`, which are 64 bits wide whatever the width of `count`.
  unfoldable pub days_duration : ℤ → ℤ
  days_duration count = wrap64 (wrap64 (count *ℤ pos 24) *ℤ pos 3_600_000_000_000)

  unfoldable pub parse_days : Bytes → Result GoError ℤ → Result GoError ℤ
  parse_days duration (err e) = err (plain (text "invalid duration: " ++ duration))
  parse_days duration (ok count) = ok (days_duration count)

  unfoldable pub parse_approval_duration : Bytes → Result GoError ℤ
  parse_approval_duration duration =
      if has_suffix duration (text "d")
      then parse_days duration (sys.atoi (take (length duration - 1) duration))
      else sys.parse_duration duration

  -- The checks of `validate`, one for each part.
  unfoldable pub check_location : Bytes × Bytes → Result GoError (Unit {0})
  check_location (scheme, host) =
      let s = to_lower sys.unicode scheme in
      and_then
        (require (s == text "http" || s == text "https") (
          plain
            (text "server_url scheme must be http or https, got " ++ sys.unicode.quoted scheme)))
        (require (not (host == [])) (plain (text "server_url must include a host")))

  unfoldable pub check_parsed : Result GoError (Bytes × Bytes) → Result GoError (Unit {0})
  check_parsed (err e) = err (wrapped (text "server_url is not a valid URL") e)
  check_parsed (ok location) = check_location location

  unfoldable pub check_server_url : Bytes → Result GoError (Unit {0})
  check_server_url server_url =
      and_then (require (not (server_url == [])) (plain (text "server_url is required")))
        (check_parsed (sys.parse_url server_url))

  unfoldable pub check_method : Bytes → Result GoError (Unit {0})
  check_method method =
      require (method == auth_method_universal_auth || method == auth_method_token) (
        plain (
          text "unsupported auth method: "
          ++ (method ++ text " (must be 'universal-auth' or 'token')")))

  unfoldable pub check_range : Bytes → Result GoError ℤ → Result GoError (Unit {0})
  check_range duration (err e) =
      err (wrapped (text "invalid approval.signing_duration " ++ sys.unicode.quoted duration) e)
  check_range duration (ok d) = require (not (ltb_ℤ d minute || ltb_ℤ thirty_days d)) (
      plain (
        text "approval.signing_duration must be between 1m and 30d, got "
        ++ sys.unicode.quoted duration))

  unfoldable pub check_duration : Bytes → Result GoError (Unit {0})
  check_duration duration =
      if duration == [] then ok tt else check_range duration (parse_approval_duration duration)

  unfoldable pub check_count : ℤ → Result GoError (Unit {0})
  check_count n = require (not (ltb_ℤ n (pos 0))) (
      plain (text "approval.signing_count must be zero or a positive integer, got " ++ decimal_ℤ n))

  unfoldable pub check_exclusions : List Bytes → Result GoError (Unit {0})
  check_exclusions excluded = elim (validate_scope_exclusions sys.unicode excluded) [
    | none ↦ ok tt
    | some e ↦ err (wrapped (text "invalid approval.exclude_scope_fields") e)
  ]

  unfoldable pub check_ip_address : Bytes → Result GoError (Unit {0})
  check_ip_address ip_address = require (ip_address == [] || sys.is_ip ip_address) (
      plain
        (text "approval.ip_address must be an IP address, got " ++ sys.unicode.quoted ip_address))

  unfoldable pub validate : Config → Result GoError (Unit {0})
  validate c = and_then (check_server_url c.server_url) (
      and_then (check_method c.auth.method) (
        and_then (check_duration c.approval.signing_duration) (
          and_then (check_count c.approval.signing_count) (
            and_then (check_exclusions c.approval.exclude_scope_fields)
              (check_ip_address c.approval.ip_address)))))

  -- The end of `loadConfigFrom`, on the configuration that the file gives.
  unfoldable pub completed : Config → Config
  completed c = apply_env_overrides (set_defaults c)

  unfoldable pub finish : Config → Result GoError Config
  finish c = and_then (within (text "invalid config") (validate (completed c))) (ok (completed c))

  unfoldable pub finish_parsed : Bytes → Result GoError Config → Result GoError Config
  finish_parsed path (err e) = err (wrapped (text "failed to parse config file " ++ path) e)
  finish_parsed path (ok c) = finish c

  unfoldable pub load_config_with : Bytes → Bool → FileRead → Result GoError Config
  load_config_with path allow_missing (contents data_) = finish_parsed path (sys.unmarshal data_)
  load_config_with path allow_missing (missing e) =
      if allow_missing
      then finish zero_config
      else err (wrapped (text "failed to read config file " ++ path) e)
  load_config_with path allow_missing (failed_read e) =
      err (wrapped (text "failed to read config file " ++ path) e)

  unfoldable pub load_config_from : Bytes → Bool → Result GoError Config
  load_config_from path allow_missing = load_config_with path allow_missing (sys.read_file path)

  unfoldable pub load_config : Result GoError Config
  load_config = load_config_from config_path (sys.getenv env_config_path == [])
