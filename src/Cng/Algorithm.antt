-- ===== src/Cng/Algorithm.antt =====
-- The signing algorithm for a CNG request (internal/cng/algorithm.go and the identifiers of
-- internal/infisical/algorithm.go).
pub mod Table
use infisical_ksp.Base.{
  ℕ, nat_beq, Option, none, some, List, [], ◌∷◌, ◌++◌, if◌then◌else◌, ◌==◌, bytes_eq, Bytes, text,
  Unicode, to_upper, trim_space,
}
use infisical_ksp.Base.Result.{Result, ok, err}
use infisical_ksp.Errors.{GoError, plain}
use infisical_ksp.Errors.Decimal.{decimal}

abbrev pub alg_rsa_pkcs1_sha256 : Bytes
alg_rsa_pkcs1_sha256 = text "RSASSA_PKCS1_V1_5_SHA_256"

abbrev pub alg_rsa_pkcs1_sha384 : Bytes
alg_rsa_pkcs1_sha384 = text "RSASSA_PKCS1_V1_5_SHA_384"

abbrev pub alg_rsa_pkcs1_sha512 : Bytes
alg_rsa_pkcs1_sha512 = text "RSASSA_PKCS1_V1_5_SHA_512"

abbrev pub alg_rsa_pss_sha256 : Bytes
alg_rsa_pss_sha256 = text "RSASSA_PSS_SHA_256"

abbrev pub alg_rsa_pss_sha384 : Bytes
alg_rsa_pss_sha384 = text "RSASSA_PSS_SHA_384"

abbrev pub alg_rsa_pss_sha512 : Bytes
alg_rsa_pss_sha512 = text "RSASSA_PSS_SHA_512"

abbrev pub alg_ecdsa_sha256 : Bytes
alg_ecdsa_sha256 = text "ECDSA_SHA_256"

abbrev pub alg_ecdsa_sha384 : Bytes
alg_ecdsa_sha384 = text "ECDSA_SHA_384"

abbrev pub alg_ecdsa_sha512 : Bytes
alg_ecdsa_sha512 = text "ECDSA_SHA_512"

-- `KeyType` and `Padding` are ints with named values; the last constructor is any other value.
pub data KeyType : Type 0 where
  key_rsa key_ecdsa : KeyType
  other_key_type : ℕ → KeyType

pub data Padding : Type 0 where
  padding_none padding_pkcs1 padding_pss : Padding
  other_padding : ℕ → Padding

-- A switch on the hash: a result for each of the three names, or the error.
unfoldable pub switch_hash : Bytes → Bytes → Bytes → Bytes → GoError → Result GoError Bytes
switch_hash h sha256 sha384 sha512 e =
    if h == text "SHA256"
    then ok sha256
    else if h == text "SHA384"
    then ok sha384
    else if h == text "SHA512"
    then ok sha512
    else err e

unfoldable pub unsupported_hash : Unicode → Bytes → Bytes → GoError
unsupported_hash u family hash =
    plain (text "unsupported " ++ (family ++ (text " hash " ++ u.quoted hash)))

-- `Algorithm`, with the normalised hash `h`.
unfoldable pub algorithm_for : Unicode → KeyType → Padding → Bytes → Bytes → Result GoError Bytes
algorithm_for u key_rsa padding_pkcs1 hash h =
    switch_hash h alg_rsa_pkcs1_sha256 alg_rsa_pkcs1_sha384 alg_rsa_pkcs1_sha512
      (unsupported_hash u (text "RSA") hash)
algorithm_for u key_rsa padding_pss hash h =
    switch_hash h alg_rsa_pss_sha256 alg_rsa_pss_sha384 alg_rsa_pss_sha512
      (unsupported_hash u (text "RSA") hash)
algorithm_for u key_rsa padding_none hash h =
    err (plain (text "RSA signing requires PKCS1 or PSS padding"))
algorithm_for u key_rsa (other_padding p) hash h =
    err (plain (text "RSA signing requires PKCS1 or PSS padding"))
algorithm_for u key_ecdsa padding hash h =
    switch_hash h alg_ecdsa_sha256 alg_ecdsa_sha384 alg_ecdsa_sha512
      (unsupported_hash u (text "ECDSA") hash)
algorithm_for u (other_key_type k) padding hash h = err (plain (text "unsupported key type"))

-- `strings.ToUpper(strings.TrimSpace(hash))`
unfoldable pub normalised_hash : Unicode → Bytes → Bytes
normalised_hash u hash = to_upper u (trim_space u hash)

unfoldable pub algorithm : Unicode → KeyType → Padding → Bytes → Result GoError Bytes
algorithm u key padding hash = algorithm_for u key padding hash (normalised_hash u hash)

unfoldable pub hash_from_digest_len : ℕ → Result GoError Bytes
hash_from_digest_len n =
    if nat_beq n 32
    then ok (text "SHA256")
    else if nat_beq n 48
    then ok (text "SHA384")
    else if nat_beq n 64
    then ok (text "SHA512")
    else err
        (plain (text "unexpected digest length " ++ (decimal n ++ text " (want 32, 48, or 64)")))
