-- ===== src/Base/Binary.antt =====
-- Numbers as bytes: `encoding/binary` and the `Bytes` and `SetBytes` methods of `big.Int`.
use infisical_ksp.Base.{
  ℕ, zero, suc, ◌+◌, ◌-◌, ◌*◌, ◌/◌, ◌%◌, ◌^◌, ◌≤◌, ◌<◌, nat_beq, [], ◌∷◌, ◌++◌, ◌≡◌, refl, sym, ap,
  ◌∙◌, inl, inr, Bool-cases, arith, length, length-append, replicate, append_assoc, append-nil,
  if◌then◌else◌, Bytes,
}
use native.Mathlib.Nat.{pow-suc}

-- `binary.LittleEndian.PutUint32` and `PutUint16`, of a number modulo 2 ^ 32 or 2 ^ 16.
unfoldable pub uint32_le : ℕ → Bytes
uint32_le v = v % 256 ∷ v / 256 % 256 ∷ v / 65536 % 256 ∷ v / 16777216 % 256 ∷ []

unfoldable pub uint16_le : ℕ → Bytes
uint16_le v = v % 256 ∷ v / 256 % 256 ∷ []

-- The number that bytes stand for, the most significant one first.
unfoldable pub of_bytes_onto : ℕ → Bytes → ℕ
of_bytes_onto acc [] = acc
of_bytes_onto acc (b ∷ s) = of_bytes_onto (acc * 256 + b) s

unfoldable pub of_bytes : Bytes → ℕ
of_bytes s = of_bytes_onto 0 s

-- `big.Int.Bytes`: no leading zero. The fuel bounds the number of digits.
unfoldable pub be_digits : ℕ → ℕ → Bytes
be_digits zero n = []
be_digits (suc fuel) n =
    let digits = be_digits fuel (n / 256) ++ n % 256 ∷ [] in if nat_beq n 0 then [] else digits

unfoldable pub be_bytes : ℕ → Bytes
be_bytes n = be_digits n n

-- `size` bytes, the most significant first.
unfoldable pub fixed : ℕ → ℕ → Bytes
fixed zero n = []
fixed (suc size) n = fixed size (n / 256) ++ n % 256 ∷ []

pub length-fixed : (size n : ℕ) → length (fixed size n) ≡ size
unfolding fixed
length-fixed zero n = refl
length-fixed (suc size) n =
    length-append (fixed size (n / 256)) (n % 256 ∷ []) ∙ omega (arith, length-fixed size (n / 256))

abbrev pub left_pad : ℕ → Bytes → Bytes
left_pad size s = replicate (size - length s) 0 ++ s

replicate_snoc : (k : ℕ) → ◌++◌ {A = ℕ} (replicate k 0) (0 ∷ []) ≡ 0 ∷ replicate k 0
replicate_snoc zero = refl
replicate_snoc (suc k) = ap (◌∷◌ 0) (replicate_snoc k)

fixed_zero : (size : ℕ) → fixed size 0 ≡ replicate size 0
unfolding fixed
fixed_zero zero = refl
fixed_zero (suc size) = ap (λ s. s ++ 0 ∷ []) (fixed_zero size) ∙ replicate_snoc size

left_pad_nil : (size : ℕ) → left_pad size [] ≡ fixed size 0
left_pad_nil size =
    append-nil (replicate (size - 0) 0)
    ∙ ap (λ k. replicate k 0) (omega arith)
    ∙ sym (fixed_zero size)

left_pad_snoc :
    (size : ℕ) (s : Bytes) (b : ℕ) → left_pad (suc size) (s ++ b ∷ []) ≡ left_pad size s ++ b ∷ []
left_pad_snoc size s b =
    ap (λ k. replicate k 0 ++ (s ++ b ∷ [])) (omega (arith, length-append s (b ∷ [])))
    ∙ sym (append_assoc (replicate (size - length s) 0) s (b ∷ []))

-- Digits that fit are the fixed-size bytes without their leading zeros.
pub left_pad-be_digits :
    (size fuel n : ℕ)
    → n ≤ fuel
    → length (be_digits fuel n) ≤ size
    → left_pad size (be_digits fuel n) ≡ fixed size n
unfolding be_digits
left_pad-be_digits size zero n h k = left_pad_nil size ∙ ap (fixed size) (omega arith)
left_pad-be_digits zero (suc fuel) n h k = elim (Bool-cases (nat_beq n 0)) [
  | inl e ↦ rw e (unfold fixed in refl)
  | inr e ↦
      absurd (omega (arith, length-append (be_digits fuel (n / 256)) (n % 256 ∷ []), rw e at k))
]
left_pad-be_digits (suc size) (suc fuel) n h k = elim (Bool-cases (nat_beq n 0)) [
  | inl e ↦ rw e (left_pad_nil (suc size) ∙ ap (fixed (suc size)) (ground arith))
  | inr e ↦
      let tail = rw e at k in
      rw e (
        left_pad_snoc size (be_digits fuel (n / 256)) (n % 256)
        ∙ ap (λ s. s ++ n % 256 ∷ [])
            (left_pad-be_digits size fuel (n / 256) (ground arith)
              (omega (arith, length-append (be_digits fuel (n / 256)) (n % 256 ∷ []), tail)))
        ∙ unfold fixed in refl)
]

-- A number has no more digits than the size of a bound 256 ^ size.
pub length-be_digits : (size fuel n : ℕ) → n < 256 ^ size → length (be_digits fuel n) ≤ size
unfolding be_digits
length-be_digits size zero n h = omega arith
length-be_digits zero (suc fuel) n h = ground arith
length-be_digits (suc size) (suc fuel) n h =
    let smaller : n / 256 < 256 ^ size = omega (arith, pow-suc 256 size) in
    ground (
      arith,
      length-append (be_digits fuel (n / 256)) (n % 256 ∷ []),
      length-be_digits size fuel (n / 256) smaller,
    )

of_bytes_onto_snoc :
    (acc : ℕ) (s : Bytes) (b : ℕ) → of_bytes_onto acc (s ++ b ∷ []) ≡ of_bytes_onto acc s * 256 + b
unfolding of_bytes_onto
of_bytes_onto_snoc acc [] b = refl
of_bytes_onto_snoc acc (c ∷ s) b = of_bytes_onto_snoc (acc * 256 + c) s b

of_bytes-be_digits : (fuel n : ℕ) → n ≤ fuel → of_bytes (be_digits fuel n) ≡ n
unfolding of_bytes be_digits
of_bytes-be_digits zero n h = unfold of_bytes_onto in omega arith
of_bytes-be_digits (suc fuel) n h = elim (Bool-cases (nat_beq n 0)) [
  | inl e ↦ rw e (unfold of_bytes_onto in ground arith)
  | inr e ↦ rw e (
      of_bytes_onto_snoc 0 (be_digits fuel (n / 256)) (n % 256)
      ∙ omega (arith, of_bytes-be_digits fuel (n / 256) (ground arith)))
]

-- `SetBytes` after `Bytes`.
pub of_bytes-be_bytes : (n : ℕ) → of_bytes (be_bytes n) ≡ n
unfolding be_bytes
of_bytes-be_bytes n = of_bytes-be_digits n n (omega arith)
