-- ===== src/Base/Text/Laws.antt =====
-- Laws of the text functions.
use Prim.Native.Nat.{ℕ}
use mathlib.Core.Path.{◌≡◌, refl}
use mathlib.Core.Bool.{false, ◌||◌}
use mathlib.Core.List.{[], ◌∷◌, ◌++◌}
use mathlib.Core.Option.{none, some}
use native.Mathlib.Omega.{arith}
use infisical_ksp.Base.Logic.{Bytes, nat_eq, bytes_eq}
use infisical_ksp.Base.Lists.{length}
use infisical_ksp.Base.Text.{contains, cut, index}

-- A key that holds no separator is cut off whole at the first one.
pub cut-append :
    (sep : ℕ) (k v : Bytes) → contains k sep ≡ false → cut sep (k ++ sep ∷ v) ≡ some (k, v)
unfolding cut contains
cut-append sep [] v h = ground arith
cut-append sep (c ∷ k) v h = ground (arith, cut-append sep k v)

pub cut-none : (sep : ℕ) (s : Bytes) → contains s sep ≡ false → cut sep s ≡ none
unfolding cut contains
cut-none sep [] h = refl
cut-none sep (c ∷ s) h = ground (arith, cut-none sep s)

pub index-append :
    (c : ℕ) (k v : Bytes) → contains k c ≡ false → index c (k ++ c ∷ v) ≡ some (length k)
unfolding index contains
index-append c [] v h = ground arith
index-append c (b ∷ k) v h = ground (arith, index-append c k v)

pub contains-append :
    (xs ys : Bytes) (c : ℕ) → contains (xs ++ ys) c ≡ (contains xs c || contains ys c)
unfolding contains
contains-append [] ys c = refl
contains-append (x ∷ xs) ys c = ground (arith, contains-append xs ys c)
