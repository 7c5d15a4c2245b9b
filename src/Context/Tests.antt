-- ===== src/Context/Tests.antt =====
-- The theorems on scopes at concrete data.
use infisical_ksp.Base.{if◌then◌else◌, ◌==◌, bytes_eq, ◌≡◌, [], ◌∷◌, text, contains}
use infisical_ksp.Context.{SigningContext, absent, json_string, request_scope}
use infisical_ksp.Context.Scope.{pruned, request_scope-pruned}

abbrev a_situation : SigningContext
a_situation = record {
  command = text "sign.exe";
  application = text "sign.exe";
  application_hash = text "ab";
  hostname = text "build";
  os_username = text "ci";
}

request_scope-pruned_example :
    request_scope a_situation (text "d") (text "command" ∷ text "hostname" ∷ []) (text "10.0.0.1")
    ≡ pruned (contains (text "command" ∷ text "hostname" ∷ [])) (record {
      command = text "sign.exe";
      signing_application = text "sign.exe";
      signing_application_hash = text "ab";
      hostname = text "build";
      os_username = text "ci";
      ip_address = if text "10.0.0.1" == [] then absent else json_string (text "10.0.0.1");
      data_hash = text "d";
    })
request_scope-pruned_example =
    request_scope-pruned a_situation (text "d") (text "command" ∷ text "hostname" ∷ [])
      (text "10.0.0.1")
