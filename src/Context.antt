-- ===== src/Context.antt =====
-- The signing situation that is sent with each sign call, and the scope of an approval request
-- (internal/infisical/signing_context.go, signing_context_windows.go, signing_context_other.go).
pub mod Capture
pub mod Scope
mod Tests
use infisical_ksp.Base.{
  Bool, true, false, Option, none, some, List, [], ◌∷◌, ◌++◌, if◌then◌else◌, ◌==◌, bytes_eq, Bytes,
  text, contains, Unicode,
}
use infisical_ksp.Errors.{GoError, plain}

abbrev pub scope_field_command : Bytes
scope_field_command = text "command"

abbrev pub scope_field_signing_application : Bytes
scope_field_signing_application = text "signing_application"

abbrev pub scope_field_signing_application_hash : Bytes
scope_field_signing_application_hash = text "signing_application_hash"

abbrev pub scope_field_hostname : Bytes
scope_field_hostname = text "hostname"

abbrev pub scope_field_os_username : Bytes
scope_field_os_username = text "os_username"

abbrev pub scope_field_ip_address : Bytes
scope_field_ip_address = text "ip_address"

abbrev pub scope_field_data_hash : Bytes
scope_field_data_hash = text "data_hash"

abbrev pub scope_field_names : List Bytes
scope_field_names =
    scope_field_command ∷ scope_field_signing_application ∷ scope_field_signing_application_hash
    ∷ scope_field_hostname ∷ scope_field_os_username ∷ scope_field_ip_address
    ∷ scope_field_data_hash ∷ []

-- The message of `ValidateScopeExclusions`.
unfoldable pub unknown_scope_field : Unicode → Bytes → GoError
unknown_scope_field u name = plain (
    text "unknown scope field "
    ++ (u.quoted name
        ++ (text " (expected one of command, signing_application, signing_application_hash, "
            ++ text "hostname, os_username, ip_address, data_hash)")))

-- `none` is the nil error.
unfoldable pub validate_scope_exclusions : Unicode → List Bytes → Option GoError
validate_scope_exclusions u [] = none
validate_scope_exclusions u (name ∷ excluded) =
    if contains scope_field_names name
    then validate_scope_exclusions u excluded
    else some (unknown_scope_field u name)

pub record SigningContext : Type 0 where
  pub command : Bytes
  pub application : Bytes
  pub application_hash : Bytes
  pub hostname : Bytes
  pub os_username : Bytes

pub record ClientMetadata : Type 0 where
  pub tool : Bytes
  pub signing_application_hash : Bytes
  pub hostname : Bytes
  pub os_username : Bytes
  pub command : Bytes

-- A `json.RawMessage` field: nil, which `omitempty` leaves out, the literal null, or a JSON string
-- (`json.Marshal` of a string, which does not fail).
pub data RawMessage : Type 0 where
  absent skipped : RawMessage
  json_string : Bytes → RawMessage

pub record SigningScope : Type 0 where
  pub command : Bytes
  pub signing_application : Bytes
  pub signing_application_hash : Bytes
  pub hostname : Bytes
  pub os_username : Bytes
  pub ip_address : RawMessage
  pub data_hash : Bytes

-- `SigningContext.ClientMetadata`
unfoldable pub client_metadata : SigningContext → ClientMetadata
client_metadata c = record {
  tool = c.application;
  signing_application_hash = c.application_hash;
  hostname = c.hostname;
  os_username = c.os_username;
  command = c.command;
}

-- One round of the loop of `RequestScope`; a name that is no field's changes nothing.
unfoldable pub exclude_field : Bytes → SigningScope → SigningScope
exclude_field name scope =
    if name == scope_field_command
    then record scope { command = [] }
    else if name == scope_field_signing_application
    then record scope { signing_application = [] }
    else if name == scope_field_signing_application_hash
    then record scope { signing_application_hash = [] }
    else if name == scope_field_hostname
    then record scope { hostname = [] }
    else if name == scope_field_os_username
    then record scope { os_username = [] }
    else if name == scope_field_ip_address
    then record scope { ip_address = skipped }
    else if name == scope_field_data_hash
    then record scope { data_hash = [] }
    else scope

unfoldable pub exclude_fields : List Bytes → SigningScope → SigningScope
exclude_fields [] scope = scope
exclude_fields (name ∷ excluded) scope = exclude_fields excluded (exclude_field name scope)

-- `SigningContext.RequestScope`
unfoldable pub request_scope : SigningContext → Bytes → List Bytes → Bytes → SigningScope
request_scope c data_hash excluded pinned_ip_address = exclude_fields excluded (record {
  command = c.command;
  signing_application = c.application;
  signing_application_hash = c.application_hash;
  hostname = c.hostname;
  os_username = c.os_username;
  ip_address = if pinned_ip_address == [] then absent else json_string pinned_ip_address;
  data_hash = data_hash;
})
