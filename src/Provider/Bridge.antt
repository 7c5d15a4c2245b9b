-- ===== src/Provider/Bridge.antt =====
-- The functions that the C side calls (cmd/ksp/bridge_windows.go): what each returns, a buffer or a
-- number and the status, and the process behind it. Strings have come out of UTF-16, and the hash
-- of the padding information is empty where a pointer is nil.
pub mod Size
pub mod Reachable
pub mod Logged
pub mod Modulus
pub mod Properties
pub mod Origin
use infisical_ksp.Base.{
  ℕ, ◌+◌, ◌*◌, ◌/◌, ◌%◌, ◌^◌, nat_beq, Option, none, some, List, [], ◌∷◌, ◌++◌, text, Bool,
  if◌then◌else◌, Bytes, length,
}
use infisical_ksp.Base.Result.{Result, ok, err}
use infisical_ksp.Cng.Algorithm.{
  key_rsa, key_ecdsa, other_key_type, Padding, padding_none, padding_pkcs1, padding_pss,
  hash_from_digest_len,
}
use infisical_ksp.Errors.{GoError}
use infisical_ksp.Provider.Key.{
  KeyState, Process, key_by_handle, open_key, sign_hash, export_public_blob, key_length_bits,
}
use infisical_ksp.Provider.Log.{write_error}
use infisical_ksp.Provider.Open.{Host, open_provider}
use infisical_ksp.Provider.Property.{key_property}
use infisical_ksp.Provider.Registry.{free_handle}
use infisical_ksp.Provider.Status.{
  status_success, status_invalid_parameter, status_not_supported, status_from_error,
}

-- `flags & 2 != 0` and `flags & 8 != 0`
unfoldable pub has_pad_pkcs1 : ℕ → Bool
has_pad_pkcs1 flags = nat_beq (flags / 2 % 2) 1

unfoldable pub has_pad_pss : ℕ → Bool
has_pad_pss flags = nat_beq (flags / 8 % 2) 1

-- `logError`
unfoldable pub logged : Bytes → GoError → Process → Process
logged op e pr = record pr { log = write_error op e pr.log }

-- A buffer and a status for a result; an error is logged.
unfoldable pub buffer_of : Bytes → Result GoError Bytes × Process → (Bytes × ℕ) × Process
buffer_of op (ok b, pr) = ((b, status_success), pr)
buffer_of op (err e, pr) = (([], status_from_error (some e)), logged op e pr)

unfoldable pub opened_handle : Bytes → Result GoError ℕ × Process → (ℕ × ℕ) × Process
opened_handle op (ok h, pr) = ((h, status_success), pr)
opened_handle op (err e, pr) = ((0, status_from_error (some e)), logged op e pr)

unfoldable pub go_open_provider : Host → Process → (ℕ × ℕ) × Process
go_open_provider host pr = opened_handle (text "OpenProvider") (open_provider host pr)

unfoldable pub go_open_key : Host → ℕ → Bytes → Process → (ℕ × ℕ) × Process
go_open_key host prov key_name pr =
    opened_handle (text "OpenKey(" ++ (key_name ++ text ")")) (open_key host.env prov key_name pr)

unfoldable pub go_free_handle : ℕ → Process → Process
go_free_handle h pr = record pr { registry = free_handle h pr.registry }

-- The size of `GoSignatureMaxSize` for a key. A key's length is far below 2 ^ 31 - 7 bits, from where
-- the sum would leave the `int` of the DLL for x86.
unfoldable pub max_size : KeyState → ℕ
max_size ks =
    let size = (key_length_bits ks + 7) / 8 in
    elim ks.key_type [ key_ecdsa ↦ size * 2 | key_rsa ↦ size | other_key_type k ↦ size ]

unfoldable pub go_signature_max_size : ℕ → Process → ℕ × ℕ
go_signature_max_size h pr = elim (key_by_handle h pr) [
  | err e ↦ (0, status_invalid_parameter)
  | ok ks ↦ (max_size ks % 2 ^ 32, status_success)
]

-- The padding and the hash of the call, or the error of `HashFromDigestLen`.
unfoldable pub padding_of : ℕ → Bytes → Bytes → Result GoError (Padding × Bytes)
padding_of flags hash_id digest =
    if has_pad_pkcs1 flags
    then ok (padding_pkcs1, hash_id)
    else if has_pad_pss flags
    then ok (padding_pss, hash_id)
    else elim (hash_from_digest_len (length digest)) [ ok h ↦ ok (padding_none, h) | err e ↦ err e ]

unfoldable pub sign_padded :
    Host → KeyState → Bytes → Result GoError (Padding × Bytes) → Process → (Bytes × ℕ) × Process
sign_padded host ks digest (err e) pr =
    (([], status_invalid_parameter), logged (text "SignHash") e pr)
sign_padded host ks digest (ok (padding, hash_name)) pr =
    buffer_of (text "SignHash") (sign_hash host.env ks padding hash_name digest pr)

unfoldable pub go_sign_hash : Host → ℕ → ℕ → Bytes → Bytes → Process → (Bytes × ℕ) × Process
go_sign_hash host h flags hash_id digest pr = elim (key_by_handle h pr) [
  | err e ↦ (([], status_invalid_parameter), pr)
  | ok ks ↦ sign_padded host ks digest (padding_of flags hash_id digest) pr
]

unfoldable pub go_export_key : ℕ → Process → (Bytes × ℕ) × Process
go_export_key h pr = elim (key_by_handle h pr) [
  | err e ↦ (([], status_invalid_parameter), pr)
  | ok ks ↦ buffer_of (text "ExportKey") (export_public_blob ks, pr)
]

unfoldable pub go_get_key_property : Host → ℕ → Bytes → Process → Bytes × ℕ
go_get_key_property host h prop pr = elim (key_by_handle h pr) [
  | err e ↦ ([], status_invalid_parameter)
  | ok ks ↦ elim (key_property host.utf16_from_string ks prop) [
    | none ↦ ([], status_not_supported)
    | some value ↦ (value, status_success)
  ]
]
