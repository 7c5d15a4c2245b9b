-- ===== src/Config.antt =====
-- The configuration (internal/infisical/config.go).
pub mod Load
pub mod Validity
pub mod Days
pub mod Fixture
mod Tests
use infisical_ksp.Base.{Bool, List, Bytes, text}
use infisical_ksp.Base.Int.{ℤ}

abbrev pub auth_method_universal_auth : Bytes
auth_method_universal_auth = text "universal-auth"

abbrev pub auth_method_token : Bytes
auth_method_token = text "token"

pub record TlsConfig : Type 0 where
  pub ca_cert_path : Bytes
  pub skip_verify : Bool

pub record CacheConfig : Type 0 where
  pub token_ttl_seconds : ℤ
  pub cert_ttl_seconds : ℤ
  pub signer_ttl_seconds : ℤ

pub record AuthConfig : Type 0 where
  pub method : Bytes
  pub client_id : Bytes
  pub client_secret : Bytes
  pub token : Bytes

pub record ApprovalConfig : Type 0 where
  pub signing_count : ℤ
  pub signing_duration : Bytes
  pub exclude_scope_fields : List Bytes
  pub ip_address : Bytes

pub record Config : Type 0 where
  pub server_url : Bytes
  pub auth : AuthConfig
  pub tls : TlsConfig
  pub cache : CacheConfig
  pub approval : ApprovalConfig
  pub log_level : Bytes
  pub log_file : Bytes
