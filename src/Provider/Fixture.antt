-- ===== src/Provider/Fixture.antt =====
-- A process with an open provider and an open key, at concrete data.
use infisical_ksp.Base.{
  ℕ, refl, some, [], ◌∷◌, ◌++◌, Bytes, text, replicate, bytes_beq, trim_space, trim_left,
  trim_right, is_space, is_ascii, true, false, none, to_lower, lower_byte, to_upper, upper_byte,
}
use infisical_ksp.Base.Binary.{be_bytes, be_digits, of_bytes, of_bytes_onto}
use infisical_ksp.Base.Dict.{lookup, insert, erase}
use infisical_ksp.Base.Int.{wrap64, ◌+ℤ◌, ◌-ℤ◌, ◌*ℤ◌}
use infisical_ksp.Base.Result.{ok}
use infisical_ksp.Client
use infisical_ksp.Client.{check_reply, seconds_duration}
use infisical_ksp.Client.Connection.{
  HttpClient, tls_version_12, trim_slashes, read_pool, root_pool, connected, new_client,
}
use infisical_ksp.Config.Fixture.{env_only}
use infisical_ksp.Config.Load.{
  and_then, require, within, number_or, text_or, check_location, check_parsed, check_server_url,
  check_method, check_range, check_duration, check_count, check_exclusions, check_ip_address,
  validate, set_defaults, apply_env_overrides, completed, finish, load_config_with,
  load_config_from, load_config, default_method, config_path, default_config_path, default_log_path,
  program_data,
}
use infisical_ksp.Context.{validate_scope_exclusions}
use infisical_ksp.Cng.Algorithm.{
  key_rsa, key_ecdsa, algorithm, algorithm_for, switch_hash, normalised_hash, hash_from_digest_len,
}
use infisical_ksp.Cng.Asn1.{
  unmarshal, unmarshal_fields, unmarshal_integer, read_integer, is_minimal, is_negative,
  read_element, split_content, read_length, long_length,
}
use infisical_ksp.Cng.Ecdsa.{
  ecdsa_der_to_raw, after_unmarshal, raw_of, raw_halves, abs_bytes, is_non_positive,
  coordinate_size,
}
use infisical_ksp.Crypto.{Codecs, ecdsa, EcdsaPublicKey}
use infisical_ksp.Provider.Bridge.{
  buffer_of, has_pad_pkcs1, has_pad_pss, padding_of, sign_padded, go_sign_hash, go_open_provider,
  go_open_key, opened_handle,
}
use infisical_ksp.Provider.Bridge.Reachable.{Reachable, started, opened_provider, opened_key}
use infisical_ksp.Provider.Key.{
  KeyState, Process, key_by_handle, key_of_object, new_provider, open_key, open_with_object,
  open_with_signer, open_with_key, register_key, key_state_for, run_session, reshape, sign_with,
  sign_hash,
}
use infisical_ksp.Provider.Log.{set_up_log, no_log}
use infisical_ksp.Provider.Open.{Host, log_to, open_with_client, open_with_config, open_provider}
use infisical_ksp.Provider.Table.{Headers}
use infisical_ksp.Provider.Registry.{empty_registry, register_handle, lookup_handle}
use infisical_ksp.Session
use infisical_ksp.Session.{
  find_signer, list_signers, cached_signers, fetch_signers, request_signers, store_signers,
  find_among, find_in, matches_signer, public_key, cached_public_key, fetch_public_key,
  fetch_certificate, store_certificate, store_public_key, public_key_from_cert_pem, send_digest,
  signing_context,
}
use infisical_ksp.Session.Auth.{
  ensure_token, token_is_valid, renew_token, renewed, log_in, logged_in, cached_auth_failure,
  clear_auth_failure, cache_expiry, cache_ttl, auth_key,
}
use infisical_ksp.Session.Defs.{Env, new_session}
use infisical_ksp.Session.Fixture.{
  granting, rsa_key, some_codecs, some_config, some_signer, new_world,
}

abbrev pub a_point : EcdsaPublicKey
a_point = record { bit_size = 256; bytes = ok (4 ∷ []) }

abbrev pub ecdsa_codecs : Codecs
ecdsa_codecs = record some_codecs { parse_certificate = λ s. ok (ecdsa a_point) }

-- The server signs, and its certificate has an ECDSA key.
abbrev pub an_env : Env
an_env = record granting { codecs = ecdsa_codecs }

abbrev pub a_host : Host
a_host = record {
  env = an_env;
  sys = env_only;
  append_certs = λ pem. true;
  opens = λ file. true;
  utf16_from_string = λ s. some s;
}

abbrev pub no_client : HttpClient
no_client = record {
  base_url = [];
  min_version = tls_version_12;
  skip_verify = false;
  root_cas = none;
  timeout = 0;
  user_agent = [];
}

abbrev pub no_handles : Process
no_handles = record {
  registry = empty_registry 64;
  next_session = 1;
  sessions = λ p. record { cfg = some_config; client = no_client; session = new_session };
  world = new_world;
  log = no_log;
}

abbrev pub with_provider : Process
with_provider = (go_open_provider a_host no_handles).1

abbrev pub with_key : Process
with_key = (go_open_key a_host 1 (text "release") with_provider).1

pub with_key-Reachable : Reachable a_host with_key
with_key-Reachable =
    opened_key 1 (text "release") _ (opened_provider _ (started 64 no_handles refl))

-- A provider is opened, and then a key.
unfoldable pub opening : Process
unfolding go_open_provider open_provider open_with_config open_with_client log_to set_up_log
    new_client connected root_pool read_pool trim_slashes load_config load_config_from
    load_config_with finish completed set_defaults apply_env_overrides within and_then require
    number_or text_or check_location check_parsed check_server_url check_method check_range
    check_duration check_count check_exclusions check_ip_address validate default_method config_path
    default_config_path default_log_path program_data validate_scope_exclusions to_lower lower_byte
    new_provider go_open_key opened_handle open_key open_with_object open_with_signer open_with_key
    register_key key_state_for run_session register_handle lookup_handle lookup insert bytes_beq
    text find_signer list_signers cached_signers fetch_signers request_signers store_signers
    find_among find_in matches_signer public_key cached_public_key fetch_public_key
    fetch_certificate store_certificate store_public_key public_key_from_cert_pem trim_space
    trim_left trim_right is_space is_ascii Client.list_signers Client.get_certificate Client.login
    check_reply seconds_duration wrap64 ◌+ℤ◌ ◌-ℤ◌ ◌*ℤ◌ ensure_token token_is_valid renew_token
    renewed log_in logged_in cached_auth_failure clear_auth_failure cache_expiry cache_ttl auth_key
    erase
opening = with_key

abbrev pub a_key : KeyState
a_key = record {
  prov = 1;
  signer = some_signer;
  key = ecdsa a_point;
  key_type = key_ecdsa;
  curve_bits = 256;
}

-- The hash is that of a digest of 32 bytes, and the server's signature has the numbers 5 and 7.
unfoldable pub signing : Process → (Bytes × ℕ) × Process
unfolding opening go_sign_hash sign_padded padding_of has_pad_pkcs1 has_pad_pss hash_from_digest_len
    sign_hash sign_with reshape algorithm algorithm_for switch_hash normalised_hash to_upper
    upper_byte Session.sign send_digest signing_context Client.sign ecdsa_der_to_raw after_unmarshal
    raw_of raw_halves abs_bytes is_non_positive coordinate_size unmarshal unmarshal_fields
    unmarshal_integer read_integer is_minimal is_negative read_element split_content read_length
    long_length be_bytes be_digits of_bytes of_bytes_onto buffer_of key_by_handle key_of_object
signing = go_sign_hash a_host 2 0 [] (replicate 32 1)

abbrev pub a_signature : Bytes
a_signature = replicate 31 0 ++ 5 ∷ (replicate 31 0 ++ 7 ∷ [])

abbrev pub rsa_host : Host
rsa_host = record a_host { env = granting }

abbrev pub with_rsa_key : Process
with_rsa_key = (go_open_key rsa_host 1 (text "release") (go_open_provider rsa_host no_handles).1).1

abbrev pub an_rsa_key : KeyState
an_rsa_key = record {
  prov = 1;
  signer = some_signer;
  key = rsa_key;
  key_type = key_rsa;
  curve_bits = 0;
}

abbrev pub windows_headers : Headers
windows_headers = record {
  rsa_public_blob = text "RSAPUBLICBLOB";
  ecc_public_blob = text "ECCPUBLICBLOB";
  public_key_blob = text "PUBLICBLOB";
  buffer_too_small = 2_148_073_512;
}
