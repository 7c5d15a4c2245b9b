-- ===== src/Cng/PubKey/Bits.antt =====
-- The number of bits of a modulus, and the number of its bytes.
use infisical_ksp.Base.{
  ℕ, zero, suc, ◌+◌, ◌/◌, ◌%◌, ◌^◌, ◌≤◌, ◌<◌, nat_beq, ltb, false, [], ◌∷◌, ◌≡◌, refl, ap, ◌∙◌, inl,
  inr, Bool-cases, arith, length, length-append,
}
use native.Mathlib.Nat.{pow-suc}
use infisical_ksp.Base.Binary.{be_bytes, be_digits}
use infisical_ksp.Cng.PubKey.{bit_len, bit_len_within}

-- Fuel that is enough gives the same number of bits, whatever there is of it.
bit_len_within_enough :
    (fuel fuel' n : ℕ) → n ≤ fuel → n ≤ fuel' → bit_len_within fuel n ≡ bit_len_within fuel' n
unfolding bit_len_within
bit_len_within_enough zero zero n h k = refl
bit_len_within_enough zero (suc fuel') n h k = ground arith
bit_len_within_enough (suc fuel) zero n h k = ground arith
bit_len_within_enough (suc fuel) (suc fuel') n h k = elim (Bool-cases (nat_beq n 0)) [
  | inl none_left ↦ rw none_left refl
  | inr left ↦
      rw left
        (ap (λ b. b + 1) (bit_len_within_enough fuel fuel' (n / 2) (ground arith) (ground arith)))
]

bit_len_half : (n : ℕ) → 0 < n → bit_len n ≡ bit_len (n / 2) + 1
unfolding bit_len bit_len_within
bit_len_half zero h = absurd (omega arith)
bit_len_half (suc n) h =
    rw (left n) (
      ap (λ b. b + 1) (bit_len_within_enough n (suc n / 2) (suc n / 2) (omega arith) (omega arith)))
  where
    left : (n : ℕ) → nat_beq (suc n) 0 ≡ false
    left n = ground arith

bit_len_zero : bit_len 0 ≡ 0
unfolding bit_len bit_len_within
bit_len_zero = refl

-- A number below a power of two has no more bits than its exponent.
pub bit_len-le : (k n : ℕ) → n < 2 ^ k → bit_len n ≤ k
bit_len-le k zero h = omega (arith, bit_len_zero)
bit_len-le zero (suc n) h = absurd (omega arith)
bit_len-le (suc k) (suc n) h = omega (
  arith,
  bit_len_half (suc n) (omega arith),
  bit_len-le k (suc n / 2) (omega (arith, pow-suc 2 k)),
)

bit_len_byte : (n : ℕ) → 256 ≤ n → bit_len n ≡ bit_len (n / 256) + 8
bit_len_byte n h =
    let e1 = bit_len_half n (omega arith) in
    let e2 = bit_len_half (n / 2) (omega arith) in
    let e3 = bit_len_half (n / 2 / 2) (omega arith) in
    let e4 = bit_len_half (n / 2 / 2 / 2) (omega arith) in
    let e5 = bit_len_half (n / 2 / 2 / 2 / 2) (omega arith) in
    let e6 = bit_len_half (n / 2 / 2 / 2 / 2 / 2) (omega arith) in
    let e7 = bit_len_half (n / 2 / 2 / 2 / 2 / 2 / 2) (omega arith) in
    let e8 = bit_len_half (n / 2 / 2 / 2 / 2 / 2 / 2 / 2) (omega arith) in
    let last : bit_len (n / 2 / 2 / 2 / 2 / 2 / 2 / 2 / 2) ≡ bit_len (n / 256) =
      ap bit_len (omega arith) in
    omega (arith, e1, e2, e3, e4, e5, e6, e7, e8, last)

length-be_digits_bits : (fuel n : ℕ) → n ≤ fuel → length (be_digits fuel n) ≡ (bit_len n + 7) / 8
unfolding be_digits
length-be_digits_bits zero n h = let e : n ≡ 0 = omega arith in rw (e, bit_len_zero) refl
length-be_digits_bits (suc fuel) n h = elim (Bool-cases (nat_beq n 0)) [
  | inl none_left ↦ let e : n ≡ 0 = ground arith in rw none_left (rw (e, bit_len_zero) refl)
  | inr left ↦
      let front = length-be_digits_bits fuel (n / 256) (ground arith) in
      rw left (
        length-append (be_digits fuel (n / 256)) (n % 256 ∷ [])
        ∙ omega (arith, front, one_more n (ground arith)))
]
  where
    one_more : (n : ℕ) → 0 < n → (bit_len (n / 256) + 7) / 8 + 1 ≡ (bit_len n + 7) / 8
    one_more n h = elim (Bool-cases (ltb n 256)) [
      | inl small ↦
          let e : bit_len (n / 256) ≡ 0 = ap bit_len (ground arith) ∙ bit_len_zero in
          omega (arith, e, bit_len-le 8 n (ground arith), bit_len_half n h)
      | inr large ↦ omega (arith, bit_len_byte n (ground arith))
    ]

-- The bytes of a number are as many as its bits fill.
pub length-be_bytes : (n : ℕ) → length (be_bytes n) ≡ (bit_len n + 7) / 8
unfolding be_bytes
length-be_bytes n = length-be_digits_bits n n (omega arith)
