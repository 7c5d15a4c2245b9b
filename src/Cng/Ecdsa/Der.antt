-- ===== src/Cng/Ecdsa/Der.antt =====
-- The DER form of a signature, as a signer writes it, and that the conversion reads it back.
use infisical_ksp.Base.{
  ℕ, zero, suc, ◌+◌, ◌/◌, ◌%◌, ◌^◌, ◌≤◌, ◌<◌, ltb, nat_beq, true, false, some, [], ◌∷◌, ◌++◌, ◌≡◌,
  refl, sym, ap, ◌∙◌, inl, inr, if◌then◌else◌, Bytes, Bool-cases, arith, length, take_left,
  drop_left, length-append, append-nil, append_assoc,
}
use native.Mathlib.Nat.{pow-le-pow_right}
use infisical_ksp.Base.Binary.{
  be_bytes, be_digits, of_bytes, of_bytes_onto, of_bytes-be_bytes, length-be_digits, fixed,
}
use infisical_ksp.Base.Int.{pos}
use infisical_ksp.Base.Result.{ok}
use infisical_ksp.Cng.Asn1.{
  tag_integer, tag_sequence, long_length, read_length, split_content, read_element, is_minimal,
  is_negative, read_integer, unmarshal_integer, unmarshal_fields, unmarshal,
}
use infisical_ksp.Cng.Ecdsa.{coordinate_size, ecdsa_der_to_raw}
use infisical_ksp.Cng.Ecdsa.Raw.{ecdsa_der_to_raw-ok}

-- A length below 256: one byte below 128, and the long form of one byte from there on.
unfoldable pub der_length : ℕ → Bytes
der_length len = if ltb len 128 then len ∷ [] else 129 ∷ len ∷ []

unfoldable pub der_element : ℕ → Bytes → Bytes
der_element tag content = tag ∷ (der_length (length content) ++ content)

-- The digits of a positive number, with a zero in front where the first has the bit of the sign.
unfoldable pub der_digits : Bytes → Bytes
der_digits s = if is_negative s then 0 ∷ s else s

unfoldable pub der_integer : ℕ → Bytes
der_integer n = der_element tag_integer (der_digits (be_bytes n))

-- `SEQUENCE { INTEGER, INTEGER }`
unfoldable pub der_signature : ℕ → ℕ → Bytes
der_signature r s = der_element tag_sequence (der_integer r ++ der_integer s)

read_length-der_length :
    (len : ℕ) (s : Bytes) → len < 256 → read_length (der_length len ++ s) ≡ some (len, s)
unfolding der_length read_length long_length
read_length-der_length len s h = elim (Bool-cases (ltb len 128)) [
  | inl short ↦ rw short (ground arith)
  | inr long ↦ rw long (ground arith)
]

split_content_left :
    (content rest : Bytes) → split_content (length content, content ++ rest) ≡ some (content, rest)
unfolding split_content
split_content_left content rest =
    rw (take_left content rest, drop_left content rest) (ground (arith, length-append content rest))

read_element-der_element :
    (tag : ℕ) (content rest : Bytes)
    → length content < 256
    → read_element tag (der_element tag content ++ rest) ≡ some (content, rest)
unfolding der_element read_element
read_element-der_element tag content rest h =
    rw
      (
        append_assoc (der_length (length content)) content rest,
        read_length-der_length (length content) (content ++ rest) h,
        split_content_left content rest,
      )
      (ground arith)

be_digits_zero : (fuel : ℕ) → be_digits fuel 0 ≡ []
unfolding be_digits
be_digits_zero zero = refl
be_digits_zero (suc fuel) = refl

-- The digits of a positive number begin with one that is not zero.
be_digits_pos :
    (fuel n : ℕ) → 0 < n → n ≤ fuel → (b : ℕ) × (s : Bytes) × (be_digits fuel n ≡ b ∷ s) × (0 < b)
unfolding be_digits
be_digits_pos zero n h k = absurd (omega arith)
be_digits_pos (suc fuel) n h k = elim (Bool-cases (nat_beq (n / 256) 0)) [
  | inl last ↦
      let e : n / 256 ≡ 0 = ground arith in
      let positive : nat_beq n 0 ≡ false = ground arith in
      (n % 256, [], rw (positive, e, be_digits_zero fuel) refl, omega (arith, e))
  | inr more ↦
      let (b, s, e, p) = be_digits_pos fuel (n / 256) (ground arith) (omega arith) in
      let positive : nat_beq n 0 ≡ false = ground arith in
      (b, s ++ n % 256 ∷ [], rw (positive, e) refl, p)
]

is_minimal-der_digits : (b : ℕ) (s : Bytes) → 0 < b → is_minimal (der_digits (b ∷ s)) ≡ true
unfolding is_minimal der_digits is_negative
is_minimal-der_digits b [] h = ground arith
is_minimal-der_digits b (c ∷ s) h = ground arith

is_negative-der_digits : (b : ℕ) (s : Bytes) → is_negative (der_digits (b ∷ s)) ≡ false
unfolding der_digits is_negative
is_negative-der_digits b s = ground arith

of_bytes-der_digits : (s : Bytes) → of_bytes (der_digits s) ≡ of_bytes s
unfolding of_bytes der_digits of_bytes_onto
of_bytes-der_digits s = elim (Bool-cases (is_negative s)) [
  | inl high ↦ rw high refl
  | inr low ↦ rw low refl
]

length-der_digits : (s : Bytes) → length (der_digits s) ≤ suc (length s)
unfolding der_digits
length-der_digits s = ground arith

read_integer-der_digits : (n : ℕ) → 0 < n → read_integer (der_digits (be_bytes n)) ≡ some (pos n)
unfolding read_integer be_bytes
read_integer-der_digits n h =
    let (b, s, e, p) = be_digits_pos n n h (omega arith) in
    let value : of_bytes (der_digits (be_digits n n)) ≡ n =
      of_bytes-der_digits (be_digits n n) ∙ of_bytes-be_bytes n in
    rw (e, is_minimal-der_digits b s p, is_negative-der_digits b s, rw e at value) refl

length-der_element :
    (tag : ℕ) (content : Bytes) → length (der_element tag content) ≤ length content + 3
unfolding der_element der_length
length-der_element tag content = ground (arith, length-append (der_length (length content)) content)

length-der_integer :
    (n : ℕ) → n < 256 ^ 66 → (length (der_digits (be_bytes n)) ≤ 67) × (length (der_integer n) ≤ 70)
unfolding be_bytes der_integer
length-der_integer n h =
    let digits = length-der_digits (be_digits n n) in
    let bound = length-be_digits 66 n n h in
    (
      omega (arith, digits, bound),
      omega (arith, digits, bound, length-der_element tag_integer (der_digits (be_digits n n))),
    )

unmarshal_integer-der_integer :
    (n : ℕ) (rest : Bytes)
    → 0 < n
    → n < 256 ^ 66
    → unmarshal_integer (der_integer n ++ rest) ≡ some (pos n, rest)
unfolding unmarshal_integer der_integer
unmarshal_integer-der_integer n rest h k =
    let short = (length-der_integer n k).0 in
    rw
      (
        read_element-der_element tag_integer (der_digits (be_bytes n)) rest (omega (arith, short)),
        read_integer-der_digits n h,
        unmarshal_integer,
      )
      refl

unmarshal_fields-der_integer :
    (r s : ℕ)
    → 0 < r
    → 0 < s
    → r < 256 ^ 66
    → s < 256 ^ 66
    → unmarshal_fields (der_integer r ++ der_integer s) ≡ some (pos r, pos s)
unfolding unmarshal_fields
unmarshal_fields-der_integer r s hr hs kr ks =
    let last : unmarshal_integer (der_integer s) ≡ some (pos s, []) =
      ap unmarshal_integer (sym (append-nil (der_integer s)))
      ∙ unmarshal_integer-der_integer s [] hs ks in
    rw (unmarshal_integer-der_integer r (der_integer s) hr kr, last, unmarshal_fields) refl

-- Go's reader gets two positive numbers of up to 66 bytes back from their DER form.
unmarshal-der_signature :
    (r s : ℕ)
    → 0 < r
    → 0 < s
    → r < 256 ^ 66
    → s < 256 ^ 66
    → unmarshal (der_signature r s) ≡ some ((pos r, pos s), [])
unfolding unmarshal der_signature
unmarshal-der_signature r s hr hs kr ks =
    let content = der_integer r ++ der_integer s in
    let short : length content < 256 = omega (
      arith,
      length-append (der_integer r) (der_integer s),
      (length-der_integer r kr).1,
      (length-der_integer s ks).1,
    ) in
    let whole : read_element tag_sequence (der_element tag_sequence content) ≡ some (content, []) =
      ap (read_element tag_sequence) (sym (append-nil (der_element tag_sequence content)))
      ∙ read_element-der_element tag_sequence content [] short in
    rw (whole, unmarshal_fields-der_integer r s hr hs kr ks, unmarshal) refl

below : {i : ℕ} → i ≤ 66 → 256 ^ i ≤ 256 ^ 66
below h = pow-le-pow_right (omega arith) h

-- On a curve of up to 528 bits, the DER form of a signature whose two numbers are positive and fit
-- a coordinate is converted to the two numbers, each as the bytes of a coordinate.
pub ecdsa_der_to_raw-der_signature :
    (bits r s : ℕ)
    → bits ≤ 528
    → 0 < r
    → 0 < s
    → r < 256 ^ ((bits + 7) / 8)
    → s < 256 ^ ((bits + 7) / 8)
    → ecdsa_der_to_raw (der_signature r s) bits
      ≡ ok (fixed ((bits + 7) / 8) r ++ fixed ((bits + 7) / 8) s)
unfolding coordinate_size
ecdsa_der_to_raw-der_signature bits r s h hr hs kr ks =
    let size : coordinate_size bits ≤ 66 = omega arith in
    let fits : (n : ℕ) → n < 256 ^ coordinate_size bits → n < 256 ^ 66 =
      λ n k. omega (arith, k, below size) in
    ecdsa_der_to_raw-ok (der_signature r s) bits r s
      (unmarshal-der_signature r s hr hs (fits r kr) (fits s ks)) hr hs kr ks
