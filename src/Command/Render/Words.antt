-- ===== src/Command/Render/Words.antt =====
-- Splitting the joined command line at its blanks gives the arguments back.
use infisical_ksp.Base.{
  Bool, true, false, not, ◌&&◌, ◌||◌, Option, none, some, List, [], ◌∷◌, ◌++◌, map, ◌≡◌, refl, sym,
  ◌∙◌, ap, ◌≢◌, arith, nat_beq, bytes_beq_iff, bytes_eq, nat_eq, Bytes, contains, contains_any,
  join_blank, append_assoc, append-nil,
}
use infisical_ksp.Command.Render.{render_arg, join_command_args}

-- The end of a token, if one has begun.
abbrev flush : Option Bytes → List Bytes → List Bytes
flush none rest = rest
flush (some token) rest = token ∷ rest

abbrev begun : Option Bytes → Bytes
begun none = []
begun (some token) = token

-- A reader of command lines: tokens stand between blanks, a blank between quotes belongs to its
-- token, and quotes are dropped. The flag is set between quotes.
pub read_words : Bool → Option Bytes → Bytes → List Bytes
read_words quoted token [] = flush token []
read_words quoted token (c ∷ s) = elim (nat_beq c b'"') [
  | true ↦ read_words (not quoted) (some (begun token)) s
  | false ↦ elim (not quoted && (nat_beq c b' ' || nat_beq c b'\t')) [
    | true ↦ flush token (read_words quoted none s)
    | false ↦ read_words quoted (some (begun token ++ c ∷ [])) s
  ]
]

pub words : Bytes → List Bytes
words s = read_words false none s

-- No argument holds a quote.
abbrev pub NoQuotes : List Bytes → Type 0
NoQuotes [] = Unit
NoQuotes (arg ∷ rest) = (contains arg b'"' ≡ false) × NoQuotes rest

read_words-quoted :
    (s rest a : Bytes)
    → contains s b'"' ≡ false
    → read_words true (some a) (s ++ b'"' ∷ rest) ≡ read_words false (some (a ++ s)) rest
unfolding read_words contains
read_words-quoted [] rest a h = rw append-nil
read_words-quoted (c ∷ s) rest a h =
    ground (arith, read_words-quoted s rest (a ++ c ∷ []), append_assoc a (c ∷ []) s)

read_words-plain :
    (s rest a : Bytes)
    → contains s b'"' ≡ false
    → contains_any s (b' ' ∷ b'\t' ∷ []) ≡ false
    → read_words false (some a) (s ++ rest) ≡ read_words false (some (a ++ s)) rest
unfolding read_words contains contains_any
read_words-plain [] rest a h k = rw append-nil
read_words-plain (c ∷ s) rest a h k =
    ground (arith, read_words-plain s rest (a ++ c ∷ []), append_assoc a (c ∷ []) s)

-- A bare argument that is not empty starts a token.
read_words-bare :
    (s rest : Bytes)
    → contains s b'"' ≡ false
    → contains_any s (b' ' ∷ b'\t' ∷ []) ≡ false
    → s ≢ []
    → read_words false none (s ++ rest) ≡ read_words false (some s) rest
unfolding read_words contains contains_any
read_words-bare [] rest h k n = absurd (n refl)
read_words-bare (c ∷ s) rest h k n = ground (arith, read_words-plain s rest (c ∷ []))

read_words-render_arg :
    (arg rest : Bytes)
    → contains arg b'"' ≡ false
    → read_words false none (render_arg arg ++ rest) ≡ read_words false (some arg) rest
unfolding render_arg read_words
read_words-render_arg arg rest h = ground (
  arith,
  bytes_beq_iff arg [],
  append_assoc arg (b'"' ∷ []) rest,
  read_words-quoted arg rest [] h,
  read_words-bare arg rest h,
)

read_words-join_blank :
    (arg : Bytes) (args : List Bytes)
    → contains arg b'"' ≡ false
    → NoQuotes args
    → read_words false none (join_blank (map render_arg (arg ∷ args))) ≡ arg ∷ args
unfolding join_blank read_words
read_words-join_blank arg [] h hs =
    ap (read_words false none) (sym (append-nil (render_arg arg))) ∙ read_words-render_arg arg [] h
read_words-join_blank arg (next ∷ args) h (h', hs) =
    read_words-render_arg arg _ h ∙ ap (◌∷◌ arg) (read_words-join_blank next args h' hs)

-- No argument is split, merged, dropped or altered by the rendering, as long as none holds a
-- quote: a reader that splits at blanks outside quotes gets the list of arguments back.
pub words-join_command_args :
    (args : List Bytes) → NoQuotes args → words (join_command_args args) ≡ args
unfolding words join_command_args join_blank read_words
words-join_command_args [] h = refl
words-join_command_args (arg ∷ args) (h, hs) = read_words-join_blank arg args h hs
