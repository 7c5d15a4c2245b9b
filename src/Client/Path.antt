-- ===== src/Client/Path.antt =====
-- `url.PathEscape`, by which a signer's ID becomes one segment of a path.
use infisical_ksp.Base.{
  ℕ, ◌+◌, ◌/◌, ◌%◌, ltb, leb, nat_beq, Bool, true, false, ◌&&◌, ◌||◌, [], ◌∷◌, if◌then◌else◌, Bytes,
  nat_eq, contains, ◌-◌, ◌*◌, ◌<◌, ◌≡◌, ◌≢◌, ◌⊎◌, inl, inr, refl, arith, Bool-cases,
}

-- The bytes that `PathEscape` leaves: letters, digits and "-_.~$&+:=@".
unfoldable pub is_segment_byte : ℕ → Bool
is_segment_byte c =
    leb b'a' c && leb c b'z'
    || leb b'A' c && leb c b'Z'
    || leb b'0' c && leb c b'9'
    || contains (b'-' ∷ b'_' ∷ b'.' ∷ b'~' ∷ b'$' ∷ b'&' ∷ b'+' ∷ b':' ∷ b'=' ∷ b'@' ∷ []) c

unfoldable pub hex_digit : ℕ → ℕ
hex_digit n = if ltb n 10 then b'0' + n else b'A' + (n - 10)

unfoldable pub path_escape : Bytes → Bytes
path_escape [] = []
path_escape (c ∷ s) =
    let rest = path_escape s in
    if is_segment_byte c then c ∷ rest else b'%' ∷ hex_digit (c / 16) ∷ hex_digit (c % 16) ∷ rest

-- Where a reader of an escaped segment stands: before a byte, behind "%", or behind "%" and a digit.
pub data Pending : Type 0 where
  start high : Pending
  low : ℕ → Pending

unfoldable pub digit_value : ℕ → ℕ
digit_value d = if leb d b'9' then d - b'0' else d - b'A' + 10

unfoldable pub unescape : Pending → Bytes → Bytes
unescape p [] = []
unescape start (c ∷ s) = elim (nat_beq c b'%') [
  | true ↦ unescape high s
  | false ↦ c ∷ unescape start s
]
unescape high (c ∷ s) = unescape (low c) s
unescape (low h) (c ∷ s) = (digit_value h * 16 + digit_value c) ∷ unescape start s

abbrev pub AreBytes : Bytes → Type 0
AreBytes [] = Unit
AreBytes (c ∷ s) = (c < 256) × AreBytes s

digit_value-hex_digit : (n : ℕ) → n < 16 → digit_value (hex_digit n) ≡ n
unfolding digit_value hex_digit
digit_value-hex_digit n h = ground arith

is_segment_byte-percent : (c : ℕ) → is_segment_byte c ≡ true → nat_beq c b'%' ≡ false
unfolding is_segment_byte contains
is_segment_byte-percent c h = ground arith

unescape-path_escape : (s : Bytes) → AreBytes s → unescape start (path_escape s) ≡ s
unfolding unescape path_escape
unescape-path_escape [] h = refl
unescape-path_escape (c ∷ s) (h, hs) = elim (Bool-cases (is_segment_byte c)) [
  | inl plain ↦
      rw plain (ground (arith, is_segment_byte-percent c plain, unescape-path_escape s hs))
  | inr other ↦ rw other (
      ground (
        arith,
        digit_value-hex_digit (c / 16),
        digit_value-hex_digit (c % 16),
        unescape-path_escape s hs,
      ))
]

-- A byte that ends a path segment: "/", "?" and "#".
abbrev pub IsDelimiter : ℕ → Type 0
IsDelimiter c = (c ≡ b'/') ⊎ (c ≡ b'?') ⊎ (c ≡ b'#')

path_escape_step :
    (d c : ℕ)
    → IsDelimiter d
    → (is_segment_byte c ≡ true → d ≢ c) × (d ≢ hex_digit (c / 16)) × (d ≢ hex_digit (c % 16))
unfolding is_segment_byte contains hex_digit
path_escape_step d c h = (ground arith, ground arith, ground arith)

contains-path_escape : (d : ℕ) (s : Bytes) → IsDelimiter d → contains (path_escape s) d ≡ false
unfolding path_escape contains
contains-path_escape d [] h = refl
contains-path_escape d (c ∷ s) h =
    ground (arith, path_escape_step d c h, contains-path_escape d s h)

-- An escaped signer ID is one segment of the path: it holds no delimiter, whatever the ID holds,
-- and the server reads back the ID that was meant, for an ID of bytes.
pub path_escape_segment :
    (s : Bytes)
    → AreBytes s
    → ((d : ℕ) → IsDelimiter d → contains (path_escape s) d ≡ false)
      × (unescape start (path_escape s) ≡ s)
path_escape_segment s h = (λ d. contains-path_escape d s, unescape-path_escape s h)
