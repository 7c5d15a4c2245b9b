-- ===== src/Provider/Property.antt =====
-- The properties of a key (cmd/ksp/properties_windows.go). `windows.UTF16FromString` is a parameter:
-- the units of a name with the closing zero, or nothing where it fails.
use infisical_ksp.Base.{
  ℕ, ◌%◌, ◌^◌, nat_beq, nat_eq, ◌==◌, bytes_eq, Option, none, some, List, [], ◌∷◌, ◌++◌,
  if◌then◌else◌, Bytes, text,
}
use infisical_ksp.Base.Binary.{uint32_le, uint16_le}
use infisical_ksp.Provider.Key.{KeyState, key_length_bits, algorithm_group}

abbrev pub prop_algorithm_group : Bytes
prop_algorithm_group = text "Algorithm Group"

abbrev pub prop_algorithm_name : Bytes
prop_algorithm_name = text "Algorithm Name"

abbrev pub prop_length : Bytes
prop_length = text "Length"

abbrev pub prop_export_policy : Bytes
prop_export_policy = text "Export Policy"

abbrev pub prop_key_usage : Bytes
prop_key_usage = text "Key Usage"

abbrev pub ncrypt_allow_signing_flag : ℕ
ncrypt_allow_signing_flag = 0x0000_0001

unfoldable pub algorithm_name : KeyState → Bytes
algorithm_name ks =
    if algorithm_group ks == text "RSA"
    then text "RSA"
    else if nat_beq ks.curve_bits 256
    then text "ECDSA_P256"
    else if nat_beq ks.curve_bits 384
    then text "ECDSA_P384"
    else if nat_beq ks.curve_bits 521
    then text "ECDSA_P521"
    else text "ECDSA"

-- The loop of `utf16z`.
unfoldable pub units_le : List ℕ → Bytes
units_le [] = []
units_le (v ∷ units) = uint16_le v ++ units_le units

module _ (utf16_from_string : Bytes → Option (List ℕ)) where
  unfoldable pub utf16z : Bytes → Bytes
  utf16z s = elim (utf16_from_string s) [ none ↦ [] | some units ↦ units_le units ]

  unfoldable pub key_property : KeyState → Bytes → Option Bytes
  key_property ks name =
      if name == prop_algorithm_group
      then some (utf16z (algorithm_group ks))
      else if name == prop_algorithm_name
      then some (utf16z (algorithm_name ks))
      else if name == prop_length
      then some (uint32_le (key_length_bits ks % 2 ^ 32))
      else if name == prop_export_policy
      then some (uint32_le 0)
      else if name == prop_key_usage
      then some (uint32_le ncrypt_allow_signing_flag)
      else none
