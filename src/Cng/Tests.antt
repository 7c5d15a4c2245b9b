-- ===== src/Cng/Tests.antt =====
-- The tests of internal/cng's own test files, and the theorems at concrete data.
use infisical_ksp.Base.{
  ℕ, ◌*◌, ◌<◌, ◌≡◌, refl, some, [], ◌∷◌, ◌++◌, Bytes, text, bytes_beq, replicate, ascii_only,
  trim_space, to_upper, is_ascii, upper_byte, trim_left, trim_right, is_space, arith,
}
use infisical_ksp.Base.Binary.{fixed, be_bytes, be_digits, of_bytes, of_bytes_onto}
use infisical_ksp.Base.Int.{pos}
use infisical_ksp.Base.Result.{Result, ok}
use infisical_ksp.Cng.Algorithm.{
  KeyType, key_rsa, Padding, padding_pss, algorithm, algorithm_for, normalised_hash, switch_hash,
  alg_rsa_pss_sha256,
}
use infisical_ksp.Cng.Algorithm.Table.{meaning, algorithm-meaning}
use infisical_ksp.Cng.Asn1.{
  unmarshal, unmarshal_fields, unmarshal_integer, read_integer, is_minimal, is_negative,
  read_element, split_content, read_length, long_length,
}
use infisical_ksp.Cng.Ecdsa.{
  ecdsa_der_to_raw, after_unmarshal, raw_of, raw_halves, abs_bytes, is_non_positive,
  coordinate_size,
}
use infisical_ksp.Cng.Ecdsa.Der.{der_signature, ecdsa_der_to_raw-der_signature}
use infisical_ksp.Cng.Ecdsa.Raw.{ecdsa_der_to_raw_inv}
use infisical_ksp.Cng.PubKey.{
  magic_rsa_public, magic_ecdsa_pub_p256, bit_len, bit_len_within, rsa_public_blob, curve_magic,
  ecc_public_blob,
}
use infisical_ksp.Cng.PubKey.Blob.{
  RsaBlob, read_rsa_blob, read_ecc_blob, read_rsa_blob-rsa_public_blob,
  read_ecc_blob-ecc_public_blob,
}
use infisical_ksp.Crypto.{RsaPublicKey, EcdsaPublicKey}
use infisical_ksp.Errors.{GoError}

choose : KeyType → Padding → Bytes → Result GoError Bytes
unfolding algorithm algorithm_for switch_hash normalised_hash trim_space to_upper is_ascii
    upper_byte trim_left trim_right is_space text bytes_beq
choose = algorithm ascii_only

algorithm-meaning_example :
    meaning alg_rsa_pss_sha256
    ≡ some (record {
      key = key_rsa;
      padding = padding_pss;
      hash = normalised_hash ascii_only (text " sha256 ");
    })
unfolding choose
algorithm-meaning_example = algorithm-meaning ascii_only key_rsa padding_pss (text " sha256 ") refl

-- SEQUENCE { INTEGER 5, INTEGER 200 }
abbrev a_signature : Bytes
a_signature = 48 ∷ 7 ∷ 2 ∷ 1 ∷ 5 ∷ 2 ∷ 2 ∷ 0 ∷ 200 ∷ []

to_raw : Bytes → ℕ → Result GoError Bytes
unfolding ecdsa_der_to_raw after_unmarshal raw_of raw_halves abs_bytes is_non_positive
    coordinate_size unmarshal unmarshal_fields unmarshal_integer read_integer is_minimal is_negative
    read_element split_content read_length long_length be_bytes be_digits of_bytes of_bytes_onto
to_raw = ecdsa_der_to_raw

padded_halves : to_raw a_signature 16 ≡ ok (0 ∷ 5 ∷ 0 ∷ 200 ∷ [])
unfolding to_raw
padded_halves = refl

ecdsa_der_to_raw-der_signature_example :
    ecdsa_der_to_raw (der_signature 5 200) 256 ≡ ok (fixed 32 5 ++ fixed 32 200)
unfolding coordinate_size
ecdsa_der_to_raw-der_signature_example =
    ecdsa_der_to_raw-der_signature 256 5 200 (omega arith) (omega arith) (omega arith) (omega arith)
      (omega arith)

ecdsa_der_to_raw_inv_example :
    (r : ℕ) × (s : ℕ) × (unmarshal a_signature ≡ some ((pos r, pos s), []))
    × (0 < r)
    × (0 < s)
    × (0 ∷ 5 ∷ 0 ∷ 200 ∷ [] ≡ fixed (coordinate_size 16) r ++ fixed (coordinate_size 16) s)
    × (4 ≡ 2 * coordinate_size 16)
unfolding to_raw
ecdsa_der_to_raw_inv_example = ecdsa_der_to_raw_inv a_signature 16 refl

abbrev small_rsa : RsaPublicKey
small_rsa = record { n = 3233; e = 17 }

read_rsa_blob-rsa_public_blob_example :
    (b : RsaBlob) × (read_rsa_blob (rsa_public_blob small_rsa) ≡ some b)
    × (b.magic ≡ magic_rsa_public)
    × (b.bits ≡ bit_len 3233)
    × (of_bytes b.exponent ≡ 17)
    × (of_bytes b.modulus ≡ 3233)
    × (b.behind ≡ [])
unfolding be_bytes be_digits bit_len bit_len_within
read_rsa_blob-rsa_public_blob_example =
    read_rsa_blob-rsa_public_blob small_rsa (omega arith) (omega arith) (omega arith)

abbrev a_point : EcdsaPublicKey
a_point = record { bit_size = 256; bytes = ok (4 ∷ (replicate 32 7 ++ replicate 32 9)) }

read_ecc_blob-ecc_public_blob_example :
    (blob : Bytes) × (ecc_public_blob a_point ≡ ok blob)
    × (read_ecc_blob blob ≡ some (magic_ecdsa_pub_p256, (replicate 32 7, replicate 32 9)))
unfolding curve_magic
read_ecc_blob-ecc_public_blob_example =
    read_ecc_blob-ecc_public_blob a_point magic_ecdsa_pub_p256 4 (replicate 32 7) (replicate 32 9)
      refl refl refl
