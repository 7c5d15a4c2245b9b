-- ===== src/Command/Render.antt =====
-- The command line as one text (internal/infisical/signing_context.go, `joinCommandArgs` and
-- `truncateCommand`).
pub mod Words
pub mod Runes
use infisical_ksp.Base.{
  ℕ, zero, suc, ◌/◌, ◌%◌, leb, nat_beq, not, Bool, Option, none, some, List, [], ◌∷◌, ◌++◌, map,
  take, length, get_elem?, if◌then◌else◌, ◌==◌, bytes_eq, Bytes, text, contains_any, join_blank,
}

-- The switch of `joinCommandArgs`.
unfoldable pub render_arg : Bytes → Bytes
render_arg arg =
    if arg == []
    then b'"' ∷ b'"' ∷ []
    else if contains_any arg (b' ' ∷ b'\t' ∷ [])
    then b'"' ∷ (arg ++ b'"' ∷ [])
    else arg

unfoldable pub join_command_args : List Bytes → Bytes
join_command_args args = join_blank (map render_arg args)

abbrev pub max_command_len : ℕ
max_command_len = 32767

-- `utf8.RuneStart`: `b & 0xC0 != 0x80`.
unfoldable pub rune_start : ℕ → Bool
rune_start b = not (nat_beq (b % 256 / 64) 2)

-- The loop that moves `cut` down to the start of a rune. `command[cut]` is in range at every call;
-- at an index out of range, where Go would panic, the loop stops.
unfoldable pub cut_back : Bytes → ℕ → ℕ
cut_back command zero = zero
cut_back command (suc n) = elim (get_elem? command (suc n)) [
  | none ↦ suc n
  | some b ↦ let lower = cut_back command n in if rune_start b then suc n else lower
]

-- `truncateCommand` for any limit.
unfoldable pub truncate_to : ℕ → Bytes → Bytes
truncate_to max command =
    if leb (length command) max then command else take (cut_back command max) command

unfoldable pub truncate_command : Bytes → Bytes
truncate_command command = truncate_to max_command_len command
