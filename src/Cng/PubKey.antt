-- ===== src/Cng/PubKey.antt =====
-- CNG's blobs of public keys (internal/cng/pubkey.go).
pub mod Blob
pub mod Bits
use infisical_ksp.Base.{
  ℕ, zero, suc, ◌+◌, ◌*◌, ◌/◌, nat_beq, Option, none, some, List, [], ◌∷◌, ◌++◌, if◌then◌else◌,
  Bytes, text, length, drop,
}
use infisical_ksp.Base.Binary.{uint32_le, be_bytes}
use infisical_ksp.Base.Result.{Result, ok, err}
use infisical_ksp.Crypto.{RsaPublicKey, EcdsaPublicKey}
use infisical_ksp.Errors.{GoError, plain, wrapped}
use infisical_ksp.Errors.Decimal.{decimal}

abbrev pub magic_rsa_public : ℕ
magic_rsa_public = 0x31415352

abbrev pub magic_ecdsa_pub_p256 : ℕ
magic_ecdsa_pub_p256 = 0x31534345

abbrev pub magic_ecdsa_pub_p384 : ℕ
magic_ecdsa_pub_p384 = 0x33534345

abbrev pub magic_ecdsa_pub_p521 : ℕ
magic_ecdsa_pub_p521 = 0x35534345

-- `big.Int.BitLen`. The fuel bounds the number of bits.
unfoldable pub bit_len_within : ℕ → ℕ → ℕ
bit_len_within zero n = 0
bit_len_within (suc fuel) n =
    let rest = bit_len_within fuel (n / 2) in if nat_beq n 0 then 0 else rest + 1

unfoldable pub bit_len : ℕ → ℕ
bit_len n = bit_len_within n n

unfoldable pub rsa_public_blob : RsaPublicKey → Bytes
rsa_public_blob key =
    let exp = be_bytes key.e in
    let modulus = be_bytes key.n in
    uint32_le magic_rsa_public
    ++ (uint32_le (bit_len key.n)
        ++ (uint32_le (length exp)
            ++ (uint32_le (length modulus) ++ (uint32_le 0 ++ (uint32_le 0 ++ (exp ++ modulus))))))

unfoldable pub curve_magic : ℕ → Option ℕ
curve_magic bits =
    if nat_beq bits 256
    then some magic_ecdsa_pub_p256
    else if nat_beq bits 384
    then some magic_ecdsa_pub_p384
    else if nat_beq bits 521
    then some magic_ecdsa_pub_p521
    else none

-- `ECCPublicBlob` behind the switch, on the result of `pub.Bytes()`.
unfoldable pub ecc_blob_with : ℕ → ℕ → Result GoError Bytes → Result GoError Bytes
ecc_blob_with magic cb_key (err e) = err (wrapped (text "invalid EC public key") e)
ecc_blob_with magic cb_key (ok point) = ok (uint32_le magic ++ (uint32_le cb_key ++ drop 1 point))

unfoldable pub ecc_public_blob : EcdsaPublicKey → Result GoError Bytes
ecc_public_blob key = elim (curve_magic key.bit_size) [
  | none ↦ err (plain (text "unsupported EC curve: " ++ (decimal key.bit_size ++ text " bits")))
  | some magic ↦ ecc_blob_with magic ((key.bit_size + 7) / 8) key.bytes
]
