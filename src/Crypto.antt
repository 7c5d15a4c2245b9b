-- ===== src/Crypto.antt =====
-- What the program uses of Go's cryptographic packages: public keys as their values, and the
-- codecs as a parameter.
use infisical_ksp.Base.{ℕ, Option, Bytes}
use infisical_ksp.Base.Result.{Result}
use infisical_ksp.Errors.{GoError}

-- `*rsa.PublicKey`: the modulus and the exponent, which are positive in a parsed certificate.
pub record RsaPublicKey : Type 0 where
  pub n : ℕ
  pub e : ℕ

-- `*ecdsa.PublicKey`: the size of its curve in bits, and what its `Bytes` method returns.
pub record EcdsaPublicKey : Type 0 where
  pub bit_size : ℕ
  pub bytes : Result GoError Bytes

-- `crypto.PublicKey`, by its dynamic type; `other` has that type's name.
pub data PublicKey : Type 0 where
  rsa : RsaPublicKey → PublicKey
  ecdsa : EcdsaPublicKey → PublicKey
  other : Bytes → PublicKey

pub record Codecs : Type 0 where
  -- `base64.StdEncoding`
  pub base64_encode : Bytes → Bytes
  pub base64_decode : Bytes → Result GoError Bytes
  -- `sha256.Sum256`, then `hex.EncodeToString`.
  pub sha256_hex : Bytes → Bytes
  -- The bytes of the first block that `pem.Decode` finds.
  pub pem_decode : Bytes → Option Bytes
  -- The public key of the certificate that `x509.ParseCertificate` reads.
  pub parse_certificate : Bytes → Result GoError PublicKey
