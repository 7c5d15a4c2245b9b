-- ===== src/Base/Text.antt =====
-- The parts of Go's `strings` package that the program uses, over bytes.
pub mod Laws
use Prim.Native.Char.{code}
use Prim.Native.String.{String}
use Prim.Native.Nat.{ℕ, zero, suc, ◌+◌, ◌-◌}
use mathlib.Core.Bool.{Bool, true, false, ◌&&◌, ◌||◌}
use mathlib.Core.List.{List, [], ◌∷◌, ◌++◌, map}
use mathlib.Core.Option.{Option, none, some}
use mathlib.Core.Option
use infisical_ksp.Base.Logic.{
  Bytes, Eq, leb, ltb, nat_beq, if◌then◌else◌, ◌==◌, bytes_beq, bytes_eq, nat_eq,
}
use infisical_ksp.Base.Lists.{length, drop}

abbrev codes : String → Bytes
codes String.[] = []
codes (String.◌∷◌ c s) = code c ∷ codes s

-- An ASCII literal as bytes. Shut, so that proofs do not compute with the letters of a message.
unfoldable pub text : String → Bytes
text s = codes s

-- `slices.Contains`, and a Go map from keys to true.
module _ {ℓ} {A : Type ℓ} ⦃e : Eq A⦄ where
  unfoldable pub contains : List A → A → Bool
  contains [] a = false
  contains (x ∷ xs) a = a == x || contains xs a

-- `strings.HasPrefix`
unfoldable pub has_prefix : Bytes → Bytes → Bool
has_prefix s [] = true
has_prefix [] (p ∷ ps) = false
has_prefix (c ∷ s) (p ∷ ps) = nat_beq c p && has_prefix s ps

-- `strings.HasSuffix`
unfoldable pub has_suffix : Bytes → Bytes → Bool
unfolding bytes_beq
has_suffix s p = leb (length p) (length s) && drop (length s - length p) s == p

-- `strings.Cut` at a separator of one byte: the text before and after it, if it occurs.
unfoldable pub cut : ℕ → Bytes → Option (Bytes × Bytes)
cut sep [] = none
cut sep (c ∷ s) =
    if nat_beq c sep then some ([], s) else Option.map (λ (a, b). (c ∷ a, b)) (cut sep s)

-- `strings.Index` of a text of one byte.
unfoldable pub index : ℕ → Bytes → Option ℕ
index c [] = none
index c (b ∷ s) = if nat_beq b c then some 0 else Option.map suc (index c s)

-- `strings.ContainsAny` over ASCII `chars`.
unfoldable pub contains_any : Bytes → Bytes → Bool
unfolding contains
contains_any [] chars = false
contains_any (c ∷ s) chars = contains chars c || contains_any s chars

-- `strings.LastIndexAny(s, chars) + 1`, which is 0 if no byte of `s` is one of the ASCII `chars`.
unfoldable pub after_last_any : Bytes → Bytes → ℕ
unfolding contains
after_last_any [] chars = 0
after_last_any (c ∷ s) chars = elim (after_last_any s chars) [
  | zero ↦ if contains chars c then 1 else 0
  | suc i ↦ suc (suc i)
]

-- `strings.Join(parts, " ")`
unfoldable pub join_blank : List Bytes → Bytes
join_blank [] = []
join_blank (x ∷ []) = x
join_blank (x ∷ y ∷ rest) = x ++ b' ' ∷ join_blank (y ∷ rest)

unfoldable pub is_ascii : Bytes → Bool
is_ascii [] = true
is_ascii (c ∷ s) = ltb c 128 && is_ascii s

unfoldable pub lower_byte : ℕ → ℕ
lower_byte c = if leb b'A' c && leb c b'Z' then c + 32 else c

unfoldable pub upper_byte : ℕ → ℕ
upper_byte c = if leb b'a' c && leb c b'z' then c - 32 else c

-- `unicode.IsSpace` on ASCII.
unfoldable pub is_space : ℕ → Bool
is_space c = nat_beq c b' ' || leb 9 c && leb c 13

unfoldable pub trim_left : Bytes → Bytes
unfolding is_space
trim_left [] = []
trim_left (c ∷ s) = let rest = trim_left s in if is_space c then rest else c ∷ s

unfoldable pub trim_right : Bytes → Bytes
unfolding is_space
trim_right [] = []
trim_right (c ∷ s) = let rest = trim_right s in if is_space c && rest == [] then [] else c ∷ rest

-- What Go's Unicode tables do with a text that has a byte outside ASCII, and `%q`, which asks them
-- what is printable.
pub record Unicode : Type 0 where
  pub lower_wide : Bytes → Bytes
  pub upper_wide : Bytes → Bytes
  pub trim_wide : Bytes → Bytes
  pub quoted : Bytes → Bytes

module _ (u : Unicode) where
  -- `strings.ToLower`
  unfoldable pub to_lower : Bytes → Bytes
  unfolding is_ascii lower_byte
  to_lower s = if is_ascii s then map lower_byte s else u.lower_wide s

  -- `strings.ToUpper`
  unfoldable pub to_upper : Bytes → Bytes
  unfolding is_ascii upper_byte
  to_upper s = if is_ascii s then map upper_byte s else u.upper_wide s

  -- `strings.TrimSpace`
  unfoldable pub trim_space : Bytes → Bytes
  unfolding is_ascii trim_left trim_right bytes_beq
  trim_space s = if is_ascii s then trim_right (trim_left s) else u.trim_wide s

-- The ASCII part alone, for tests: a text with other bytes is left as it is, and a quoted text stands
-- between quotes.
abbrev pub ascii_only : Unicode
ascii_only = record {
  lower_wide = λ s. s;
  upper_wide = λ s. s;
  trim_wide = λ s. s;
  quoted = λ s. b'"' ∷ (s ++ b'"' ∷ []);
}
