-- ===== src/Command/Redact/Leaks.antt =====
-- Credentials behind a colon that redaction leaves in place.
use infisical_ksp.Base.{
  true, false, [], ◌∷◌, ◌++◌, ◌≡◌, refl, arith, Bytes, text, contains, cut-append, Unicode,
  has_suffix, bytes_beq, nat_eq, bytes_eq,
}
use infisical_ksp.Command.Redact.{
  redacted_value, is_secret_flag_name, is_secret_name, has_secret_suffix, arg_name, flag_name,
  redact_arg, redact_loop, redact_inline, redact_command_args,
}
use infisical_ksp.Command.Redact.Secrecy.{
  IsColonSecret, redact_arg-colon, IsSecretFlag, IsNoSecretFlag, colon_no_equals,
  redact_command_args-flag,
}

is_secret_flag_name-suffix :
    (name : Bytes) → has_secret_suffix name ≡ true → is_secret_flag_name name false ≡ true
unfolding is_secret_flag_name is_secret_name has_secret_suffix has_suffix text bytes_beq
is_secret_flag_name-suffix [] h = absurd (cc)
is_secret_flag_name-suffix (c ∷ name) h =
    unfold is_secret_flag_name is_secret_name in ground (arith, h)

module _ (u : Unicode) where
  redact_arg-key :
      (key v : Bytes)
      → contains key b'=' ≡ false
      → is_secret_flag_name (arg_name u key true) true ≡ false
      → redact_arg u false (key ++ b'=' ∷ v) ≡ (key ++ b'=' ∷ v, false)
  unfolding redact_arg redact_inline
  redact_arg-key key v h n = ground (arith, cut-append b'=' key v h)

  -- On a command line of one argument: take a secret flag without "=" and ":", a colon, and a value
  -- without "=", such that the whole does not read as a secret flag. The value is redacted. With "="
  -- and any text behind it, the argument is left in clear, flag and value, where what stands before
  -- that "=", read as the key of an inline value, is no secret key.
  pub redact_command_args-colon_equals :
      (pre a b : Bytes)
      → IsColonSecret u pre a
      → is_secret_flag_name (arg_name u (pre ++ b':' ∷ a) true) true ≡ false
      → (redact_command_args u ((pre ++ b':' ∷ a) ∷ []) ≡ (pre ++ b':' ∷ redacted_value) ∷ [])
        × (redact_command_args u (((pre ++ b':' ∷ a) ++ b'=' ∷ b) ∷ [])
            ≡ ((pre ++ b':' ∷ a) ++ b'=' ∷ b) ∷ [])
  unfolding redact_command_args redact_loop
  redact_command_args-colon_equals pre a b s n = (
    rw redact_arg-colon refl,
    rw (redact_arg-key (pre ++ b':' ∷ a) b (colon_no_equals u pre a s) n),
  )

  plain-IsSecretFlag :
      (arg : Bytes)
      → contains arg b'=' ≡ false
      → has_secret_suffix (flag_name u arg) ≡ true
      → IsSecretFlag u arg
  unfolding arg_name
  plain-IsSecretFlag arg p h = record {
    plain = p;
    secret = ground (arith, is_secret_flag_name-suffix (flag_name u arg) h);
  }

  -- On a command line of two arguments, where the first holds a colon and no "=", and its name, the
  -- value behind the colon included, ends in "password", "passphrase" or "passwd", and where the
  -- second is no secret flag and no argument with a secret key: the first is left in clear, and the
  -- second is written as "***".
  pub redact_command_args-colon_suffix :
      (pre v next : Bytes)
      → contains (pre ++ b':' ∷ v) b'=' ≡ false
      → has_secret_suffix (flag_name u (pre ++ b':' ∷ v)) ≡ true
      → IsNoSecretFlag u next
      → redact_command_args u ((pre ++ b':' ∷ v) ∷ next ∷ [])
        ≡ (pre ++ b':' ∷ v) ∷ redacted_value ∷ []
  unfolding redact_command_args redact_loop
  redact_command_args-colon_suffix pre v next p h n =
      redact_command_args-flag u [] [] (pre ++ b':' ∷ v) next (plain-IsSecretFlag _ p h) n
