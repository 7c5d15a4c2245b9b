-- ===== src/Config/Fixture.antt =====
-- A concrete environment for the tests, and the configuration that it gives.
use infisical_ksp.Base.{◌+◌, ◌^◌, false, true, [], if◌then◌else◌, ◌==◌, bytes_eq, text, ascii_only}
use infisical_ksp.Base.Int.{pos}
use infisical_ksp.Base.Result.{ok}
use infisical_ksp.Config.{Config, auth_method_token}
use infisical_ksp.Config.Load.{System, missing, zero_config, env_server_url, env_token}
use infisical_ksp.Errors.{plain}

-- No file, and an address and a token in the environment.
abbrev pub env_only : System
env_only = record {
  unicode = ascii_only;
  windows = true;
  getenv = λ name.
      if name == env_server_url
      then text "https://a"
      else if name == env_token
      then text "tok"
      else [];
  read_file = λ path. missing (plain path);
  unmarshal = λ s. ok zero_config;
  parse_url = λ s. ok (text "https", text "a");
  is_ip = λ s. true;
  parse_duration = λ s. ok (pos 0);
  atoi = λ s. ok (if s == text "1" then pos 1 else pos (1 + 2 ^ 48));
}

abbrev pub env_config : Config
env_config = record {
  server_url = text "https://a";
  auth = record {
    method = auth_method_token;
    client_id = [];
    client_secret = [];
    token = text "tok";
  };
  tls = record { ca_cert_path = []; skip_verify = false };
  cache = record {
    token_ttl_seconds = pos 300;
    cert_ttl_seconds = pos 3600;
    signer_ttl_seconds = pos 300;
  };
  approval = record {
    signing_count = pos 0;
    signing_duration = [];
    exclude_scope_fields = [];
    ip_address = [];
  };
  log_level = text "info";
  log_file = text "C:\\ProgramData\\Infisical\\ksp.log";
}
