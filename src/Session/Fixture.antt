-- ===== src/Session/Fixture.antt =====
-- A concrete surrounding for the tests: a clock that a reading advances by a second, a server that
-- grants everything, and one that refuses with a given status.
use infisical_ksp.Base.{
  ℕ, ◌*◌, Bool, true, false, none, some, List, [], if◌then◌else◌, ◌∷◌, text, ascii_only,
}
use infisical_ksp.Base.Int.{pos}
use infisical_ksp.Base.Result.{ok}
use infisical_ksp.Client.{
  Call, Server, Signer, reply, ApiErrorBody, ApprovalRequestResponse, LoginResponse,
}
use infisical_ksp.Config.{Config, auth_method_universal_auth}
use infisical_ksp.Context.Capture.{Os}
use infisical_ksp.Crypto.{Codecs, PublicKey, rsa}
use infisical_ksp.Session.Defs.{Env, State, World, new_session}

abbrev pub some_os : Os
some_os = record {
  unicode = ascii_only;
  windows = true;
  args = [];
  raw_command_line = some (text "sign.exe");
  decompose_command_line = λ raw. some (raw ∷ []);
  executable = some (text "sign.exe");
  base = λ path. path;
  read_all = λ path. some (some path);
  sha256_hex = λ s. s;
  hostname = text "build";
  current_username = none;
}

abbrev pub rsa_key : PublicKey
rsa_key = rsa (record { n = 3233; e = 17 })

abbrev pub some_codecs : Codecs
some_codecs = record {
  base64_encode = λ s. s;
  base64_decode = λ s. ok s;
  sha256_hex = λ s. s;
  pem_decode = λ s. some s;
  parse_certificate = λ s. ok rsa_key;
}

abbrev pub some_signer : Signer
some_signer = record {
  id = text "id-1";
  name = text "release";
  status = text "active";
  certificate_id = text "cert";
  key_algorithm = text "RSA_2048";
  approval_policy_id = none;
}

abbrev pub no_error : ApiErrorBody
no_error = record { message = []; error = []; has_pending_request = false }

abbrev pub denial : Bool → ApiErrorBody
denial has_pending = record {
  message = text "denied";
  error = text "ApprovalRequired";
  has_pending_request = has_pending;
}

abbrev pub opened_request : ApprovalRequestResponse
opened_request = record { id = text "req-1"; status = text "pending" }

abbrev pub an_hour : LoginResponse
an_hour = record { access_token = text "tok"; expires_in = pos 3600 }

-- The status and the error body of `login` and of `sign`; the other end points grant.
abbrev pub server_with : ℕ → ℕ → ApiErrorBody → Server
server_with login_code sign_code error = record {
  login = λ calls call. reply login_code true no_error an_hour;
  list_signers = λ calls call. reply 200 true no_error (some (some_signer ∷ []));
  certificate = λ calls call. reply 200 true no_error (text "PEM");
  sign = λ calls call. reply sign_code true error (48 ∷ 6 ∷ 2 ∷ 1 ∷ 5 ∷ 2 ∷ 1 ∷ 7 ∷ []);
  approval = λ calls call. reply 201 true no_error opened_request;
}

abbrev pub env_with : Server → Env
env_with server = record {
  time = λ n. (n * 1_000_000_000);
  server = server;
  os = some_os;
  codecs = some_codecs;
}

abbrev pub granting : Env
granting = env_with (server_with 200 200 no_error)

-- Signing is denied for want of an approval.
abbrev pub denying : Env
denying = env_with (server_with 200 403 (denial false))

-- The login is refused.
abbrev pub locking : Env
locking = env_with (server_with 401 200 no_error)

abbrev pub some_config : Config
some_config = record {
  server_url = text "https://app";
  auth = record {
    method = auth_method_universal_auth;
    client_id = text "cid";
    client_secret = text "cs";
    token = [];
  };
  tls = record { ca_cert_path = []; skip_verify = false };
  cache = record {
    token_ttl_seconds = pos 0;
    cert_ttl_seconds = pos 300;
    signer_ttl_seconds = pos 60;
  };
  approval = record {
    signing_count = pos 2;
    signing_duration = [];
    exclude_scope_fields = [];
    ip_address = [];
  };
  log_level = text "info";
  log_file = [];
}

abbrev pub new_world : World
new_world = record { clock_reads = 1; calls = []; auth_fail_cache = []; signing_ctx = none }

abbrev pub new_state : State
new_state = record { session = new_session; world = new_world }

abbrev is_nil : List Call → Bool
is_nil [] = true
is_nil (call ∷ calls) = false

-- A login is refused where it is the first call.
abbrev pub relenting : Env
relenting = env_with (record (server_with 200 200 no_error) {
  login = λ calls call. reply (if is_nil calls then 401 else 200) true no_error an_hour;
})
