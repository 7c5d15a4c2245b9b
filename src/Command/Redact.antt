-- ===== src/Command/Redact.antt =====
-- The redaction of credentials in the host's command line
-- (internal/infisical/signing_context.go, `flagName` to `redactCommandArgs`).
pub mod Secrecy
pub mod Leaks
use infisical_ksp.Base.{
  ℕ, suc, ◌+◌, ltb, Bool, true, false, not, ◌&&◌, ◌||◌, Option, none, some, List, [], ◌∷◌, ◌++◌,
  take, drop, if◌then◌else◌, ◌==◌, nat_eq, bytes_eq, bytes_beq, Bytes, text, contains, has_prefix,
  has_suffix, cut, index, after_last_any, Unicode, to_lower,
}

abbrev pub redacted_value : Bytes
redacted_value = text "***"

abbrev pub secret_command_flags : List Bytes
secret_command_flags =
    text "storepass"
    ∷ text "keypass"
    ∷ text "pass"
    ∷ text "passin"
    ∷ text "passout"
    ∷ text "password"
    ∷ text "passphrase"
    ∷ text "pin"
    ∷ text "p"
    ∷ text "pw"
    ∷ []

unfoldable pub has_secret_suffix : Bytes → Bool
has_secret_suffix name =
    has_suffix name (text "password")
    || has_suffix name (text "passphrase")
    || has_suffix name (text "passwd")

-- `secretCommandFlags[name] || hasSecretSuffix(name)`
unfoldable pub is_secret_name : Bytes → Bool
is_secret_name name = contains secret_command_flags name || has_secret_suffix name

-- `name[strings.LastIndexAny(name, ":._")+1:]`
unfoldable pub sub_key : Bytes → Bytes
sub_key name = drop (after_last_any name (text ":._")) name

unfoldable pub is_secret_flag_name : Bytes → Bool → Bool
is_secret_flag_name name has_inline_value =
    if name == []
    then false
    else if is_secret_name name
    then true
    else if not has_inline_value
    then false
    else is_secret_name (sub_key name)

module _ (u : Unicode) where
  unfoldable pub flag_name : Bytes → Bytes
  flag_name token =
      if has_prefix token (text "--")
      then to_lower u (drop 2 token)
      else if has_prefix token (text "-") || has_prefix token (text "/")
      then to_lower u (drop 1 token)
      else []

  -- `name` in the loop of `redactCommandArgs`.
  unfoldable pub arg_name : Bytes → Bool → Bytes
  arg_name key has_inline_value =
      let name = flag_name key in if name == [] && has_inline_value then to_lower u key else name

  -- What the loop writes for an argument that is no secret flag: "-pass:secret" carries its value
  -- behind the colon. `none` is `strings.Index` giving -1, and `colon > 0` is the first test.
  unfoldable pub redact_colon : Bytes → Option ℕ → Bytes
  redact_colon arg none = arg
  redact_colon arg (some colon) =
      if ltb 0 colon && is_secret_flag_name (flag_name (take colon arg)) false
      then take (colon + 1) arg ++ redacted_value
      else arg

  -- One round on an argument without "=", with `redactValue` before it: the argument as it is
  -- left, and `redactValue` after it.
  unfoldable pub redact_plain : Bool → Bytes → Bytes × Bool
  redact_plain redact_value arg =
      let is_secret = is_secret_flag_name (arg_name arg false) false in
      if redact_value && not is_secret
      then (redacted_value, false)
      else if is_secret
      then (arg, true)
      else (redact_colon arg (index b':' arg), false)

  -- The same on an argument that is `key`, "=" and a value. Where a secret flag stands before a
  -- secret one the flag is cleared and the round goes on.
  unfoldable pub redact_inline : Bool → Bytes → Bytes → Bytes × Bool
  redact_inline redact_value arg key =
      let is_secret = is_secret_flag_name (arg_name key true) true in
      if redact_value && not is_secret
      then (redacted_value, false)
      else if is_secret
      then (key ++ b'=' ∷ redacted_value, false)
      else (arg, false)

  -- `strings.Cut(arg, "=")`, then the round.
  unfoldable pub redact_arg : Bool → Bytes → Bytes × Bool
  redact_arg redact_value arg = elim (cut b'=' arg) [
    | none ↦ redact_plain redact_value arg
    | some (key, _) ↦ redact_inline redact_value arg key
  ]

  unfoldable pub redact_loop : Bool → List Bytes → List Bytes
  redact_loop redact_value [] = []
  redact_loop redact_value (arg ∷ rest) =
      let (out, next) = redact_arg redact_value arg in out ∷ redact_loop next rest

  unfoldable pub redact_command_args : List Bytes → List Bytes
  redact_command_args args = redact_loop false args
