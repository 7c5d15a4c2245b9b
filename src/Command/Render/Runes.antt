-- ===== src/Command/Render/Runes.antt =====
-- Truncation keeps whole runes.
use infisical_ksp.Base.{
  ℕ, zero, suc, ◌+◌, ◌-◌, ◌≤◌, ◌<◌, leb, true, false, some, List, [], ◌∷◌, ◌++◌, take, drop, length,
  length-take, take-append-drop, length-append, get_elem?, ◌≡◌, refl, ◌∙◌, ap, inl, inr, arith,
  if◌then◌else◌, Bool-cases, Bytes, append-nil,
}
use infisical_ksp.Command.Render.{
  rune_start, cut_back, truncate_to, truncate_command, max_command_len,
}

-- A rune as UTF-8 writes it: a first byte, and the bytes that continue it.
pub record Rune : Type 0 where
  pub lead : ℕ
  pub tail : Bytes

abbrev Continues : Bytes → Type 0
Continues [] = Unit
Continues (b ∷ s) = (rune_start b ≡ false) × Continues s

pub record IsRune (r : Rune) : Type 0 where
  pub starts : rune_start r.lead ≡ true
  pub continues : Continues r.tail

abbrev pub AreRunes : List Rune → Type 0
AreRunes [] = Unit
AreRunes (r ∷ rs) = IsRune r × AreRunes rs

abbrev encoded : Rune → Bytes
encoded r = r.lead ∷ r.tail

abbrev pub encoding : List Rune → Bytes
encoding [] = []
encoding (r ∷ rs) = encoded r ++ encoding rs

-- As many runes, from the first on, as fit into `max` bytes.
pub fitting : ℕ → List Rune → List Rune
fitting max [] = []
fitting max (r ∷ rs) =
    if leb (length (encoded r)) max then r ∷ fitting (max - length (encoded r)) rs else []

get_elem?-append_right :
    (p x : Bytes) (i m : ℕ) → i ≡ length p + m → get_elem? (p ++ x) i ≡ get_elem? x m
get_elem?-append_right [] x i m e = ap (get_elem? x) (omega (arith, e))
get_elem?-append_right (b ∷ p) x zero m e = absurd (omega arith)
get_elem?-append_right (b ∷ p) x (suc i) m e = get_elem?-append_right p x i m (omega arith)

take-append_right : (p x : Bytes) (i m : ℕ) → i ≡ length p + m → take i (p ++ x) ≡ p ++ take m x
take-append_right [] x i m e = ap (λ k. take k x) (omega (arith, e))
take-append_right (b ∷ p) x zero m e = absurd (omega arith)
take-append_right (b ∷ p) x (suc i) m e = ap (◌∷◌ b) (take-append_right p x i m (omega arith))

Continues-at :
    (s x : Bytes) (n : ℕ)
    → Continues s
    → n < length s
    → (b : ℕ) × (get_elem? (s ++ x) n ≡ some b) × (rune_start b ≡ false)
Continues-at [] x n h lt = absurd (omega arith)
Continues-at (b ∷ s) x zero h lt = (b, refl, h.0)
Continues-at (b ∷ s) x (suc n) h lt = Continues-at s x n h.1 (omega arith)

-- Inside the first rune the loop goes down to 0.
cut_back-first :
    (r : Rune) (x : Bytes) (n : ℕ)
    → IsRune r
    → n < length (encoded r)
    → cut_back (encoded r ++ x) n ≡ 0
unfolding cut_back
cut_back-first r x zero h lt = refl
cut_back-first r x (suc n) h lt =
    let (b, at, inner) = Continues-at r.tail x n h.continues (omega arith) in
    ground (arith, at, inner, cut_back-first r x n h (omega arith))

-- Behind a prefix the loop runs as it does on the rest, if the rest begins with a rune.
cut_back-append :
    (c : ℕ) (p : Bytes) (b : ℕ) (x : Bytes) (n m : ℕ)
    → rune_start b ≡ true
    → n ≡ length (c ∷ p) + m
    → cut_back ((c ∷ p) ++ b ∷ x) n ≡ length (c ∷ p) + cut_back (b ∷ x) m
unfolding cut_back
cut_back-append c p b x zero m h e = absurd (omega arith)
cut_back-append c p b x (suc n) zero h e =
    ground (arith, get_elem?-append_right p (b ∷ x) n 0 (omega arith))
cut_back-append c p b x (suc n) (suc m) h e = ground (
  arith,
  get_elem?-append_right p (b ∷ x) n (suc m) (omega arith),
  cut_back-append c p b x n m h (omega arith),
)

length-encoding_cons :
    (r : Rune) (rs : List Rune)
    → length (encoding (r ∷ rs)) ≡ length (encoded r) + length (encoding rs)
length-encoding_cons r rs = length-append (encoded r) (encoding rs)

fitting_all : (rs : List Rune) (max : ℕ) → length (encoding rs) ≤ max → fitting max rs ≡ rs
unfolding fitting
fitting_all [] max h = refl
fitting_all (r ∷ rs) max h = ground (
  arith,
  length-encoding_cons r rs,
  fitting_all rs (max - length (encoded r)) (omega (arith, length-encoding_cons r rs)),
)

-- The loop steps over a first rune that fits, if another one follows it.
take-cut_back_cons :
    (r q : Rune) (rs : List Rune) (max : ℕ)
    → IsRune q
    → length (encoded r) ≤ max
    → take (cut_back (encoding (r ∷ q ∷ rs)) max) (encoding (r ∷ q ∷ rs))
      ≡ encoded r
        ++ take (cut_back (encoding (q ∷ rs)) (max - length (encoded r))) (encoding (q ∷ rs))
take-cut_back_cons r q rs max h fits = take-append_right (encoded r) (encoding (q ∷ rs)) _ _ (
    cut_back-append r.lead r.tail q.lead (q.tail ++ encoding rs) max (max - length (encoded r))
      h.starts (omega arith))

take-cut_back :
    (rs : List Rune) (max : ℕ)
    → AreRunes rs
    → max < length (encoding rs)
    → take (cut_back (encoding rs) max) (encoding rs) ≡ encoding (fitting max rs)
unfolding fitting
take-cut_back [] max h lt = absurd (omega arith)
take-cut_back (r ∷ []) max (h, _) lt =
    let over : max < length (encoded r) = omega (arith, length-encoding_cons r []) in
    rw (cut_back-first r [] max h over) (ground arith)
take-cut_back (r ∷ q ∷ rs) max (h, (hq, hs)) lt = elim (Bool-cases (leb (length (encoded r)) max)) [
  | inl fits ↦ rw fits (
      take-cut_back_cons r q rs max hq (ground arith)
      ∙ ap (◌++◌ (encoded r)) (
          take-cut_back (q ∷ rs) (max - length (encoded r)) (hq, hs)
            (omega (arith, length-encoding_cons r (q ∷ rs)))))
  | inr over ↦ rw (over, cut_back-first r (encoding (q ∷ rs)) max h (ground arith)) refl
]

truncate_to-encoding :
    (max : ℕ) (rs : List Rune)
    → AreRunes rs
    → truncate_to max (encoding rs) ≡ encoding (fitting max rs)
unfolding truncate_to
truncate_to-encoding max rs h = elim (Bool-cases (leb (length (encoding rs)) max)) [
  | inl whole ↦ rw (whole, fitting_all rs max (ground arith)) refl
  | inr long ↦ rw long (take-cut_back rs max h (ground arith))
]

-- A command line that consists of whole runes is cut to those of them, from the first on, that fit
-- into `maxCommandLen` bytes: no rune is split, and no further one would fit.
pub truncate_command-encoding :
    (rs : List Rune)
    → AreRunes rs
    → truncate_command (encoding rs) ≡ encoding (fitting max_command_len rs)
unfolding truncate_command
truncate_command-encoding rs h = truncate_to-encoding max_command_len rs h

cut_back-le : (command : Bytes) (n : ℕ) → cut_back command n ≤ n
unfolding cut_back
cut_back-le command zero = omega arith
cut_back-le command (suc n) = ground (arith, cut_back-le command n)

length-truncate_to : (max : ℕ) (command : Bytes) → length (truncate_to max command) ≤ max
unfolding truncate_to
length-truncate_to max command =
    ground (arith, length-take (cut_back command max) command, cut_back-le command max)

truncate_to-prefix :
    (max : ℕ) (command : Bytes) → (rest : Bytes) × (truncate_to max command ++ rest ≡ command)
unfolding truncate_to
truncate_to-prefix max command = elim (Bool-cases (leb (length command) max)) [
  | inl whole ↦ ([], rw whole (append-nil command))
  | inr long ↦ (
    drop (cut_back command max) command,
    rw long (take-append-drop (cut_back command max) command),
  )
]

-- Whatever its bytes, a command line is cut to a prefix of itself of at most `maxCommandLen` bytes.
pub truncate_command_bounds :
    (command : Bytes)
    → (length (truncate_command command) ≤ max_command_len)
      × ((rest : Bytes) × (truncate_command command ++ rest ≡ command))
unfolding truncate_command
truncate_command_bounds command =
    (length-truncate_to max_command_len command, truncate_to-prefix max_command_len command)
