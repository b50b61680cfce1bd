-- ===== src/Bytes.antt =====
-- Byte strings: addresses and texts (UTF-8), as the lists of their bytes, with the comparisons
-- that Rust's standard library gives slices of bytes.
pub mod Order
use Prim.Native.Char.{code}
use Prim.Native.String.{String}
use anchor_staking_relayer.Prelude.{
  ℕ, Bool, true, false, List, [], ◌∷◌, compare, Ordering, ◌==◌, if◌then◌else◌,
}

abbrev pub Bytes : Type 0
Bytes = List ℕ

-- A Rust `String` or `&str`, by its bytes.
abbrev pub Text : Type 0
Text = List ℕ

-- The bytes of an ASCII literal.
abbrev pub text : String → Text
text String.[] = []
text (String.◌∷◌ c s) = code c ∷ text s

-- `a == b` on slices of bytes and on strings.
unfoldable pub bytes_eq : Bytes → Bytes → Bool
bytes_eq [] [] = true
bytes_eq [] (y ∷ ys) = false
bytes_eq (x ∷ xs) [] = false
bytes_eq (x ∷ xs) (y ∷ ys) = if x == y then bytes_eq xs ys else false

-- `a.cmp(b)` on slices of bytes: lexicographic.
unfoldable pub cmp : Bytes → Bytes → Ordering
cmp [] [] = Ordering.eq
cmp [] (y ∷ ys) = Ordering.lt
cmp (x ∷ xs) [] = Ordering.gt
cmp (x ∷ xs) (y ∷ ys) = elim (compare x y) [
  | Ordering.lt ↦ Ordering.lt
  | Ordering.eq ↦ cmp xs ys
  | Ordering.gt ↦ Ordering.gt
]
