-- ===== src/Cng/Asn1.antt =====
-- The reading of `SEQUENCE { INTEGER, INTEGER }` by Go's encoding/asn1, as internal/cng/ecdsa.go
-- uses it: DER elements of a known tag, and integers in two's complement. Which of that package's
-- errors is met is not told apart.
use infisical_ksp.Base.{
  ℕ, zero, suc, ◌+◌, ◌-◌, ◌*◌, ◌^◌, nat_beq, ltb, leb, Bool, true, false, ◌&&◌, ◌||◌, Option, none,
  some, [], ◌∷◌, if◌then◌else◌, Bytes, length, take, drop,
}
use infisical_ksp.Base.Binary.{of_bytes}
use infisical_ksp.Base.Int.{ℤ, pos, negsuc}

abbrev pub tag_integer : ℕ
tag_integer = 2

-- SEQUENCE with the bit of a compound element.
abbrev pub tag_sequence : ℕ
tag_sequence = 48

-- The long form of a length, of `count` bytes: no leading zero, below 2 ^ 31.
unfoldable pub long_length : ℕ → ℕ → Bytes → Option (ℕ × Bytes)
long_length zero len s = if ltb len 128 then none else some (len, s)
long_length (suc count) len [] = none
long_length (suc count) len (b ∷ s) =
    let len' = len * 256 + b in
    let rest = long_length count len' s in if leb 8388608 len || nat_beq len' 0 then none else rest

-- A length: one byte below 128, or the number of the bytes that follow.
unfoldable pub read_length : Bytes → Option (ℕ × Bytes)
read_length [] = none
read_length (b ∷ s) =
    if ltb b 128 then some (b, s) else if nat_beq b 128 then none else long_length (b - 128) 0 s

unfoldable pub split_content : ℕ × Bytes → Option (Bytes × Bytes)
split_content (len, s) = if leb len (length s) then some (take len s, drop len s) else none

-- The content of an element with the given tag, and what is behind the element.
unfoldable pub read_element : ℕ → Bytes → Option (Bytes × Bytes)
read_element tag [] = none
read_element tag (t ∷ s) =
    if nat_beq t tag then elim (read_length s) [ none ↦ none | some p ↦ split_content p ] else none

-- The first nine bits of an integer are not all equal.
unfoldable pub is_minimal : Bytes → Bool
is_minimal [] = false
is_minimal (a ∷ []) = true
is_minimal (a ∷ b ∷ s) =
    if nat_beq a 0 && ltb b 128 then false else if nat_beq a 255 && leb 128 b then false else true

unfoldable pub is_negative : Bytes → Bool
is_negative [] = false
is_negative (b ∷ s) = leb 128 b

unfoldable pub read_integer : Bytes → Option ℤ
read_integer s =
    if is_minimal s
    then some (if is_negative s then negsuc (256 ^ length s - 1 - of_bytes s) else pos (of_bytes s))
    else none

unfoldable pub unmarshal_integer : Bytes → Option (ℤ × Bytes)
unmarshal_integer s = elim (read_element tag_integer s) [
  | none ↦ none
  | some p ↦ elim (read_integer p.0) [ none ↦ none | some n ↦ some (n, p.1) ]
]

-- The fields of `ecdsaDERSig`; what follows them inside the sequence is ignored.
unfoldable pub unmarshal_fields : Bytes → Option (ℤ × ℤ)
unmarshal_fields s = elim (unmarshal_integer s) [
  | none ↦ none
  | some p ↦ elim (unmarshal_integer p.1) [ none ↦ none | some q ↦ some (p.0, q.0) ]
]

-- `asn1.Unmarshal`: R and S, and what is behind the sequence.
unfoldable pub unmarshal : Bytes → Option ((ℤ × ℤ) × Bytes)
unmarshal s = elim (read_element tag_sequence s) [
  | none ↦ none
  | some p ↦ elim (unmarshal_fields p.0) [ none ↦ none | some sig ↦ some (sig, p.1) ]
]
