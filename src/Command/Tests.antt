-- ===== src/Command/Tests.antt =====
-- The command line capture on the inputs of signing_context_test.go, and the theorems at concrete data.
use infisical_ksp.Base.{
  List, [], ◌∷◌, ◌++◌, ◌≡◌, refl, Bytes, text, contains, has_prefix, has_suffix, bytes_beq, cut,
  index, join_blank, contains_any, after_last_any, is_ascii, lower_byte, to_lower, ascii_only,
}
use infisical_ksp.Command.{captured_command}
use infisical_ksp.Command.Redact.{
  redact_command_args, redact_loop, redact_arg, redact_plain, redact_inline, redact_colon, arg_name,
  flag_name, is_secret_flag_name, is_secret_name, has_secret_suffix, sub_key, redacted_value,
}
use infisical_ksp.Command.Redact.Secrecy.{
  IsSecretFlag, IsColonSecret, pending, redact_command_args-flag, redact_command_args-inline,
  redact_command_args-colon,
}
use infisical_ksp.Command.Redact.Leaks.{
  redact_command_args-colon_equals, redact_command_args-colon_suffix,
}
use infisical_ksp.Command.Render.{
  render_arg, join_command_args, rune_start, cut_back, truncate_to, truncate_command,
}
use infisical_ksp.Command.Render.Words.{words, words-join_command_args}
use infisical_ksp.Command.Render.Runes.{
  Rune, encoding, fitting, AreRunes, truncate_command-encoding,
}

redact : List Bytes → List Bytes
unfolding redact_command_args redact_loop redact_arg redact_plain redact_inline redact_colon
    arg_name flag_name is_secret_flag_name is_secret_name has_secret_suffix sub_key text contains
    has_prefix has_suffix bytes_beq cut index after_last_any is_ascii lower_byte to_lower
redact = redact_command_args ascii_only

capture : List Bytes → Bytes
unfolding captured_command redact join_command_args render_arg truncate_command truncate_to
    join_blank contains_any
capture = captured_command ascii_only

slash_p :
    capture (text "signtool" ∷ text "sign" ∷ text "/P" ∷ text "my secret" ∷ text "app 1.exe" ∷ [])
    ≡ text "signtool sign /P *** \"app 1.exe\""
unfolding capture
slash_p = refl

inline_forms :
    capture (
      text "msbuild"
      ∷ text "/p:CertPassword=s3cret"
      ∷ text "/p:Configuration=Release"
      ∷ text "--password=a=b"
      ∷ [])
    ≡ text "msbuild /p:CertPassword=*** /p:Configuration=Release --password=***"
unfolding capture
inline_forms = refl

colon_forms :
    redact
      (text "-pass:s3cret" ∷ text "-pass:c2VjcmV0==" ∷ text "-pass:mypassword" ∷ text "next" ∷ [])
    ≡ text "-pass:***" ∷ text "-pass:c2VjcmV0==" ∷ text "-pass:mypassword" ∷ text "***" ∷ []
unfolding redact
colon_forms = refl

slash_p-IsSecretFlag : IsSecretFlag ascii_only (text "/P")
unfolding redact
slash_p-IsSecretFlag = record { plain = refl; secret = refl }

redact_command_args-flag_example :
    redact_command_args ascii_only
      (text "/f" ∷ text "x" ∷ text "/P" ∷ text "s3cret" ∷ text "app" ∷ [])
    ≡ redact_command_args ascii_only (text "/f" ∷ text "x" ∷ [])
      ++ text "/P" ∷ redacted_value ∷ redact_command_args ascii_only (text "app" ∷ [])
unfolding redact
redact_command_args-flag_example =
    redact_command_args-flag ascii_only (text "/f" ∷ text "x" ∷ []) (text "app" ∷ []) (text "/P")
      (text "s3cret") slash_p-IsSecretFlag refl

redact_command_args-inline_example :
    redact_command_args ascii_only (text "--password=a=b" ∷ text "app" ∷ [])
    ≡ text "--password=***" ∷ redact_command_args ascii_only (text "app" ∷ [])
unfolding redact
redact_command_args-inline_example =
    redact_command_args-inline ascii_only [] (text "app" ∷ []) (text "--password") (text "a=b")
      (record { plain = refl; secret = refl })

abbrev pass_IsColonSecret : IsColonSecret ascii_only (text "-pass") (text "c2V")
unfolding redact
pass_IsColonSecret = record {
  no_equals = refl;
  no_colon = refl;
  secret = refl;
  value_no_equals = refl;
  whole = refl;
}

redact_command_args-colon_example :
    redact_command_args ascii_only (text "/p" ∷ text "-pass:c2V" ∷ text "app" ∷ [])
    ≡ text "/p" ∷ text "***" ∷ redact_command_args ascii_only (text "app" ∷ [])
unfolding redact pending
redact_command_args-colon_example =
    redact_command_args-colon ascii_only (text "/p" ∷ []) (text "app" ∷ []) (text "-pass")
      (text "c2V") pass_IsColonSecret

redact_command_args-colon_equals_example :
    (redact_command_args ascii_only (text "-pass:c2V" ∷ []) ≡ text "-pass:***" ∷ [])
    × (redact_command_args ascii_only (text "-pass:c2V==" ∷ []) ≡ text "-pass:c2V==" ∷ [])
unfolding redact
redact_command_args-colon_equals_example =
    redact_command_args-colon_equals ascii_only (text "-pass") (text "c2V") (text "=")
      pass_IsColonSecret refl

redact_command_args-colon_suffix_example :
    redact_command_args ascii_only (text "-pass:mypassword" ∷ text "app" ∷ [])
    ≡ text "-pass:mypassword" ∷ redacted_value ∷ []
unfolding redact
redact_command_args-colon_suffix_example =
    redact_command_args-colon_suffix ascii_only (text "-pass") (text "mypassword") (text "app") refl
      refl refl

words-join_command_args_example :
    words (join_command_args (text "app" ∷ [] ∷ text "a b" ∷ []))
    ≡ text "app" ∷ [] ∷ text "a b" ∷ []
unfolding text contains
words-join_command_args_example =
    words-join_command_args (text "app" ∷ [] ∷ text "a b" ∷ []) (refl, (refl, (refl, tt)))

abbrev two_runes : List Rune
two_runes = record { lead = b'a'; tail = [] } ∷ record { lead = 0xc3; tail = 0xa9 ∷ [] } ∷ []

two_runes-AreRunes : AreRunes two_runes
unfolding rune_start
two_runes-AreRunes = (
  record { starts = refl; continues = tt },
  (record { starts = refl; continues = (refl, tt) }, tt),
)

truncate_command-encoding_example :
    truncate_command (encoding two_runes) ≡ encoding (fitting 32767 two_runes)
truncate_command-encoding_example = truncate_command-encoding two_runes two_runes-AreRunes

straddling : truncate_to 2 (encoding two_runes) ≡ b'a' ∷ []
unfolding truncate_to cut_back rune_start
straddling = refl
