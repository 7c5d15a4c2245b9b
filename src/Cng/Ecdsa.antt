-- ===== src/Cng/Ecdsa.antt =====
-- From a DER signature to CNG's raw form (internal/cng/ecdsa.go).
pub mod Raw
pub mod Der
use infisical_ksp.Base.{
  ℕ, ◌+◌, ◌*◌, ◌/◌, ltb, nat_beq, Bool, true, false, ◌||◌, Option, none, some, List, [], ◌∷◌, ◌++◌,
  if◌then◌else◌, Bytes, text, length,
}
use infisical_ksp.Base.Binary.{left_pad, be_bytes}
use infisical_ksp.Base.Int.{ℤ, pos, negsuc}
use infisical_ksp.Base.Result.{Result, ok, err}
use infisical_ksp.Cng.Asn1.{unmarshal}
use infisical_ksp.Errors.{GoError, plain, wrapped}
use infisical_ksp.Errors.Decimal.{decimal}

-- `(bits + 7) / 8`
unfoldable pub coordinate_size : ℕ → ℕ
coordinate_size bits = (bits + 7) / 8

-- `n.Sign() <= 0`
unfoldable pub is_non_positive : ℤ → Bool
is_non_positive (pos n) = nat_beq n 0
is_non_positive (negsuc n) = true

-- `n.Bytes()`: the digits of the absolute value.
unfoldable pub abs_bytes : ℤ → Bytes
abs_bytes (pos n) = be_bytes n
abs_bytes (negsuc n) = be_bytes (n + 1)

-- The two halves, each padded on the left to `size`.
unfoldable pub raw_halves : ℕ → Bytes → Bytes → Result GoError Bytes
raw_halves size r s =
    if ltb size (length r) || ltb size (length s)
    then err (plain (text "ECDSA r/s larger than curve size " ++ decimal size))
    else ok (left_pad size r ++ left_pad size s)

-- `ECDSADERToRaw` behind the reading of the signature.
unfoldable pub raw_of : ℕ → ℤ → ℤ → Result GoError Bytes
raw_of curve_bits r s =
    if is_non_positive r || is_non_positive s
    then err (plain (text "ECDSA signature has non-positive r or s"))
    else raw_halves (coordinate_size curve_bits) (abs_bytes r) (abs_bytes s)

unfoldable pub after_unmarshal : ℕ → Option ((ℤ × ℤ) × Bytes) → Result GoError Bytes
after_unmarshal curve_bits none =
    err (wrapped (text "parse DER ECDSA signature") (plain (text "asn1")))
after_unmarshal curve_bits (some ((r, s), [])) = raw_of curve_bits r s
after_unmarshal curve_bits (some ((r, s), b ∷ rest)) =
    err (plain (text "trailing bytes after DER ECDSA signature"))

unfoldable pub ecdsa_der_to_raw : Bytes → ℕ → Result GoError Bytes
ecdsa_der_to_raw der curve_bits = after_unmarshal curve_bits (unmarshal der)
