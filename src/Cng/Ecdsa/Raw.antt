-- ===== src/Cng/Ecdsa/Raw.antt =====
-- The raw form of a signature is its two numbers as fixed-size bytes.
use infisical_ksp.Base.{
  ℕ, ◌*◌, ◌^◌, ◌<◌, ◌≤◌, ltb, nat_beq, some, [], ◌∷◌, ◌++◌, ◌≡◌, ◌||◌, refl, sym, ap, ◌∙◌, inl, inr,
  Bytes, Bool-cases, Option-cases, arith, length, length-append,
}
use infisical_ksp.Base.Binary.{
  length-fixed, left_pad, be_bytes, fixed, left_pad-be_digits, length-be_digits,
}
use infisical_ksp.Base.Int.{ℤ, pos, negsuc}
use infisical_ksp.Base.Result.{ok}
use infisical_ksp.Cng.Asn1.{unmarshal}
use infisical_ksp.Cng.Ecdsa.{
  coordinate_size, is_non_positive, abs_bytes, raw_halves, raw_of, after_unmarshal,
  ecdsa_der_to_raw,
}

-- Bytes that a padded number fits.
padded : (size n : ℕ) → length (be_bytes n) ≤ size → left_pad size (be_bytes n) ≡ fixed size n
unfolding be_bytes
padded size n h = left_pad-be_digits size n n (omega arith) h

-- A sequence that Go reads as two positive numbers which fit the size of the curve becomes the two
-- numbers, each as exactly that many bytes, the most significant first.
pub ecdsa_der_to_raw-ok :
    (der : Bytes) (bits r s : ℕ)
    → unmarshal der ≡ some ((pos r, pos s), [])
    → 0 < r
    → 0 < s
    → r < 256 ^ coordinate_size bits
    → s < 256 ^ coordinate_size bits
    → ecdsa_der_to_raw der bits
      ≡ ok (fixed (coordinate_size bits) r ++ fixed (coordinate_size bits) s)
unfolding ecdsa_der_to_raw after_unmarshal raw_of raw_halves abs_bytes is_non_positive
ecdsa_der_to_raw-ok der bits r s u hr hs kr ks =
    let size = coordinate_size bits in
    let lr : length (be_bytes r) ≤ size = unfold be_bytes in length-be_digits size r r kr in
    let ls : length (be_bytes s) ≤ size = unfold be_bytes in length-be_digits size s s ks in
    rw (sym (padded size r lr), sym (padded size s ls)) (rw u (ground arith))

raw_of-ok :
    (bits : ℕ) (r s : ℤ) {raw : Bytes}
    → raw_of bits r s ≡ ok raw
    → (a : ℕ) × (b : ℕ) × (r ≡ pos a)
      × (s ≡ pos b)
      × (0 < a)
      × (0 < b)
      × (raw ≡ fixed (coordinate_size bits) a ++ fixed (coordinate_size bits) b)
unfolding raw_of raw_halves abs_bytes is_non_positive
raw_of-ok bits (pos r) (pos s) h =
    let size = coordinate_size bits in
    elim (Bool-cases (nat_beq r 0 || nat_beq s 0)) [
      | inl e ↦ absurd (let q = rw e at h in cc)
      | inr e ↦
          elim (Bool-cases (ltb size (length (be_bytes r)) || ltb size (length (be_bytes s)))) [
            | inl e' ↦ absurd (let q = rw (e, e') at h in cc)
            | inr e' ↦
                let q = rw (e, e') at h in
                let fits_r : length (be_bytes r) ≤ size = ground arith in
                let fits_s : length (be_bytes s) ≤ size = ground arith in
                let pad_r = padded size r fits_r in
                let pad_s = padded size s fits_s in
                (r, s, refl, refl, ground arith, ground arith, cc)
          ]
    ]
raw_of-ok bits (pos r) (negsuc s) h = absurd (ground arith)
raw_of-ok bits (negsuc r) s h = absurd (ground arith)

-- Both halves have the size of a coordinate.
length-halves : (size a b : ℕ) → length (fixed size a ++ fixed size b) ≡ 2 * size
length-halves size a b =
    omega
      (arith, length-append (fixed size a) (fixed size b), length-fixed size a, length-fixed size b)

after_inv :
    (der : Bytes) (bits : ℕ) (p : (ℤ × ℤ) × Bytes) {raw : Bytes}
    → unmarshal der ≡ some p
    → after_unmarshal bits (some p) ≡ ok raw
    → (r : ℕ) × (s : ℕ) × (unmarshal der ≡ some ((pos r, pos s), []))
      × (0 < r)
      × (0 < s)
      × (raw ≡ fixed (coordinate_size bits) r ++ fixed (coordinate_size bits) s)
      × (length raw ≡ 2 * coordinate_size bits)
unfolding after_unmarshal
after_inv der bits ((r, s), []) e h =
    let (a, b, er, es, ha, hb, raw_eq) = raw_of-ok bits r s h in
    (a, b, cc, ha, hb, raw_eq, ap length raw_eq ∙ length-halves (coordinate_size bits) a b)
after_inv der bits ((r, s), c ∷ rest) e h = absurd (cc)

-- A signature that is accepted is one that Go reads as two positive numbers with nothing behind
-- them, and the result is those two numbers, each as exactly the bytes of a coordinate, so
-- that it has twice the size of a coordinate.
pub ecdsa_der_to_raw_inv :
    (der : Bytes) (bits : ℕ) {raw : Bytes}
    → ecdsa_der_to_raw der bits ≡ ok raw
    → (r : ℕ) × (s : ℕ) × (unmarshal der ≡ some ((pos r, pos s), []))
      × (0 < r)
      × (0 < s)
      × (raw ≡ fixed (coordinate_size bits) r ++ fixed (coordinate_size bits) s)
      × (length raw ≡ 2 * coordinate_size bits)
unfolding ecdsa_der_to_raw
ecdsa_der_to_raw_inv der bits h = elim (Option-cases (unmarshal der)) [
  | inl e ↦ absurd (let q = rw e at h in unfold after_unmarshal in cc)
  | inr (p, e) ↦ after_inv der bits p e (rw e at h)
]
