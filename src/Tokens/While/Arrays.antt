-- ===== src/Tokens/While/Arrays.antt =====
-- A `Vec` read and written by index.
use anchor_staking_relayer.Prelude.{
  ℕ, zero, suc, ◌+◌, ◌≡◌, refl, Option, none, some, List, [], ◌∷◌, ◌++◌, length, arith, ltb, true,
  false, sym, ◌∙◌,
}
use anchor_staking_relayer.Tokens.{Token, Tokens}

abbrev pub get_elem? {ℓ} : {A : Type ℓ} → List A → ℕ → Option A
get_elem? [] i = none
get_elem? (x ∷ xs) zero = some x
get_elem? (x ∷ xs) (suc i) = get_elem? xs i

-- `self[i].1 = d`
abbrev pub set_amount : ℕ → ℕ → Tokens → Tokens
set_amount i d [] = []
set_amount zero d (t ∷ ts) = (t.0, d) ∷ ts
set_amount (suc i) d (t ∷ ts) = t ∷ set_amount i d ts

pub get_elem?-append {ℓ} :
    {A : Type ℓ} (xs : List A) (x : A) (ys : List A) → get_elem? (xs ++ x ∷ ys) (length xs) ≡ some x
get_elem?-append [] x ys = refl
get_elem?-append (z ∷ xs) x ys = get_elem?-append xs x ys

pub set_amount-append :
    (xs : Tokens) (d : ℕ) (t : Token) (ys : Tokens)
    → set_amount (length xs) d (xs ++ t ∷ ys) ≡ xs ++ (t.0, d) ∷ ys
set_amount-append [] d t ys = refl
set_amount-append (z ∷ xs) d t ys = ground (arith, set_amount-append xs d t ys)

pub length-append {ℓ} : {A : Type ℓ} (xs ys : List A) → length (xs ++ ys) ≡ length xs + length ys
length-append [] ys = omega arith
length-append (x ∷ xs) ys = omega (arith, length-append xs ys)

pub append-nil {ℓ} : {A : Type ℓ} (xs : List A) → xs ++ [] ≡ xs
append-nil [] = refl
append-nil (x ∷ xs) = ground (arith, append-nil xs)

-- An entry moves from behind the index to before it.
pub append_snoc {ℓ} :
    {A : Type ℓ} (xs : List A) (x : A) (ys : List A) → (xs ++ x ∷ []) ++ ys ≡ xs ++ x ∷ ys
append_snoc [] x ys = refl
append_snoc (z ∷ xs) x ys = ground (arith, append_snoc xs x ys)

-- The entry at the index where the rest begins, and the same from the next index on.
module _ {ℓ} {A : Type ℓ} (xs : List A) (x : A) (ys zs : List A) (i : ℕ) (e : zs ≡ xs ++ x ∷ ys)
    (h : i ≡ length xs) where
  pub in_bounds : ltb i (length zs) ≡ true
  in_bounds = ground (arith, length-append xs (x ∷ ys))

  pub get_here : get_elem? zs i ≡ some x
  get_here = rw (e, h) (get_elem?-append xs x ys)

  pub rest_snoc : zs ≡ (xs ++ x ∷ []) ++ ys
  rest_snoc = e ∙ sym (append_snoc xs x ys)

  pub length_snoc : i + 1 ≡ length (xs ++ x ∷ [])
  length_snoc = omega (arith, length-append xs (x ∷ []))

pub out_of_bounds {ℓ} :
    {A : Type ℓ} (xs zs : List A) (i : ℕ)
    → zs ≡ xs ++ []
    → i ≡ length xs
    → ltb i (length zs) ≡ false
out_of_bounds xs zs i e h = ground (arith, length-append xs [])
