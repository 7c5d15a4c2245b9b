-- ===== src/Command/Redact/Secrecy.antt =====
-- What redaction hides.
use infisical_ksp.Base.{
  suc, Bool, true, false, none, some, List, [], ◌∷◌, ◌++◌, ◌≡◌, refl, ap, ◌∙◌, take_left,
  take_left_suc, append_assoc, length, arith, if◌then◌else◌, nat_eq, Bytes, text, contains, cut,
  cut-append, cut-none, index-append, contains-append, has_prefix, bytes_beq, ◌<◌, Unicode,
}
use infisical_ksp.Command.Redact.{
  redacted_value, is_secret_flag_name, arg_name, redact_arg, redact_loop, redact_plain,
  redact_inline, redact_command_args, flag_name, redact_colon,
}

module _ (u : Unicode) where
  -- The state of the loop after some arguments.
  unfoldable pub pending : Bool → List Bytes → Bool
  pending b [] = b
  pending b (arg ∷ rest) = pending (redact_arg u b arg).1 rest

  redact_loop-append :
      (xs ys : List Bytes) (b : Bool)
      → redact_loop u b (xs ++ ys) ≡ redact_loop u b xs ++ redact_loop u (pending b xs) ys
  unfolding redact_loop pending
  redact_loop-append [] ys b = refl
  redact_loop-append (x ∷ xs) ys b =
      ap (◌∷◌ (redact_arg u b x).0) (redact_loop-append xs ys (redact_arg u b x).1)

  -- A secret flag: no "=", and its name asks for a value to be hidden.
  pub record IsSecretFlag (flag : Bytes) : Type 0 where
    pub plain : contains flag b'=' ≡ false
    pub secret : is_secret_flag_name (arg_name u flag false) false ≡ true

  -- Neither a secret flag nor a secret key with its value.
  abbrev pub IsNoSecretFlag : Bytes → Type 0
  IsNoSecretFlag arg = elim (cut b'=' arg) [
    | none ↦ is_secret_flag_name (arg_name u arg false) false ≡ false
    | some (key, _) ↦ is_secret_flag_name (arg_name u key true) true ≡ false
  ]

  redact_arg-flag :
      (b : Bool) (flag : Bytes) → IsSecretFlag flag → redact_arg u b flag ≡ (flag, true)
  unfolding redact_arg redact_plain
  redact_arg-flag b flag s = ground (arith, cut-none b'=' flag s.plain, s.secret)

  redact_arg-value : (v : Bytes) → IsNoSecretFlag v → redact_arg u true v ≡ (redacted_value, false)
  unfolding redact_arg redact_plain redact_inline
  redact_arg-value v n = ground arith

  redact_loop-flag :
      (b : Bool) (flag v : Bytes) (after : List Bytes)
      → IsSecretFlag flag
      → IsNoSecretFlag v
      → redact_loop u b (flag ∷ v ∷ after) ≡ flag ∷ redacted_value ∷ redact_loop u false after
  unfolding redact_loop
  redact_loop-flag b flag v after s n = rw (redact_arg-flag b flag s, redact_arg-value v n)

  -- The argument behind a secret flag is written as "***", unless it is a secret flag itself; what
  -- stands before the two and behind them is redacted as if they were not there.
  pub redact_command_args-flag :
      (before after : List Bytes) (flag v : Bytes)
      → IsSecretFlag flag
      → IsNoSecretFlag v
      → redact_command_args u (before ++ flag ∷ v ∷ after)
        ≡ redact_command_args u before ++ flag ∷ redacted_value ∷ redact_command_args u after
  unfolding redact_command_args
  redact_command_args-flag before after flag v s n =
      redact_loop-append before (flag ∷ v ∷ after) false
      ∙ ap (◌++◌ (redact_loop u false before)) (redact_loop-flag _ flag v after s n)

  -- A key that asks for its value, behind "=" in the same argument, to be hidden.
  pub record IsSecretKey (key : Bytes) : Type 0 where
    pub plain : contains key b'=' ≡ false
    pub secret : is_secret_flag_name (arg_name u key true) true ≡ true

  redact_arg-inline :
      (b : Bool) (key v : Bytes)
      → IsSecretKey key
      → redact_arg u b (key ++ b'=' ∷ v) ≡ (key ++ b'=' ∷ redacted_value, false)
  unfolding redact_arg redact_inline
  redact_arg-inline b key v s = ground (arith, cut-append b'=' key v s.plain, s.secret)

  -- The value that stands in one argument with a secret key, behind "=", is written as "***",
  -- whatever it is and whatever stands before it.
  pub redact_command_args-inline :
      (before after : List Bytes) (key v : Bytes)
      → IsSecretKey key
      → redact_command_args u (before ++ (key ++ b'=' ∷ v) ∷ after)
        ≡ redact_command_args u before
          ++ (key ++ b'=' ∷ redacted_value) ∷ redact_command_args u after
  unfolding redact_command_args redact_loop
  redact_command_args-inline before after key v s =
      redact_loop-append before ((key ++ b'=' ∷ v) ∷ after) false
      ∙ rw (redact_arg-inline (pending false before) key v s)

  -- A flag whose value stands behind a colon, and a value that shows no "=" and does not make the
  -- whole argument read as a secret flag.
  pub record IsColonSecret (pre v : Bytes) : Type 0 where
    pub no_equals : contains pre b'=' ≡ false
    pub no_colon : contains pre b':' ≡ false
    pub secret : is_secret_flag_name (flag_name u pre) false ≡ true
    pub value_no_equals : contains v b'=' ≡ false
    pub whole : is_secret_flag_name (arg_name u (pre ++ b':' ∷ v) false) false ≡ false

  secret-ne-nil :
      (pre : Bytes) → is_secret_flag_name (flag_name u pre) false ≡ true → 0 < length pre
  unfolding flag_name is_secret_flag_name has_prefix text bytes_beq
  secret-ne-nil [] h = absurd (cc)
  secret-ne-nil (c ∷ pre) h = omega arith

  redact_colon_lem :
      (pre v : Bytes)
      → IsColonSecret pre v
      → redact_colon u (pre ++ b':' ∷ v) (some (length pre)) ≡ pre ++ b':' ∷ redacted_value
  unfolding redact_colon
  redact_colon_lem pre v s =
      rw (take_left pre (b':' ∷ v), take_left_suc pre b':' v, append_assoc)
        (ground (arith, s.secret, secret-ne-nil pre s.secret))

  pub colon_no_equals :
      (pre v : Bytes) → IsColonSecret pre v → contains (pre ++ b':' ∷ v) b'=' ≡ false
  unfolding contains
  colon_no_equals pre v s = rw contains-append (ground (arith, s.no_equals, s.value_no_equals))

  pub redact_arg-colon :
      (b : Bool) (pre v : Bytes)
      → IsColonSecret pre v
      → redact_arg u b (pre ++ b':' ∷ v)
        ≡ (if b then redacted_value else pre ++ b':' ∷ redacted_value, false)
  unfolding redact_arg redact_plain
  redact_arg-colon b pre v s = ground (
    arith,
    cut-none b'=' (pre ++ b':' ∷ v) (colon_no_equals pre v s),
    s.whole,
    index-append b':' pre v s.no_colon,
    redact_colon_lem pre v s,
  )

  -- The value behind a colon of a secret flag is hidden too, where neither the flag nor the value
  -- holds an "=" and the whole argument does not read as a secret flag: by "***" behind the colon,
  -- or with the flag where the argument itself stands for a value.
  pub redact_command_args-colon :
      (before after : List Bytes) (pre v : Bytes)
      → IsColonSecret pre v
      → redact_command_args u (before ++ (pre ++ b':' ∷ v) ∷ after)
        ≡ redact_command_args u before
          ++ (if pending false before then redacted_value else pre ++ b':' ∷ redacted_value)
            ∷ redact_command_args u after
  unfolding redact_command_args redact_loop
  redact_command_args-colon before after pre v s =
      redact_loop-append before ((pre ++ b':' ∷ v) ∷ after) false
      ∙ rw (redact_arg-colon (pending false before) pre v s)

  -- Redaction writes one argument for each that it reads.
  length-redact_loop : (b : Bool) (args : List Bytes) → length (redact_loop u b args) ≡ length args
  unfolding redact_loop
  length-redact_loop b [] = refl
  length-redact_loop b (arg ∷ rest) = ap suc (length-redact_loop (redact_arg u b arg).1 rest)
