-- ===== src/Tokens/Canonical.antt =====
-- The form in which `sub` and `add` leave a list: addresses strictly ascending, no zero amounts.
-- A list in this form is determined by the amounts that it holds.
use anchor_staking_relayer.Prelude.{◌≤◌, ◌<◌, ◌≡◌, refl, true, false, [], ◌∷◌, arith}
use anchor_staking_relayer.Bytes.{Bytes}
use anchor_staking_relayer.Bytes.Order.{bytes_eq→eq, bytes_eq_refl, cmp_gt→Before, cmp_eq→eq}
use anchor_staking_relayer.Tokens.{Token, Tokens, retain_nonzero}
use anchor_staking_relayer.Tokens.Amounts.{amount_of, contains, distinct, covered}
use anchor_staking_relayer.Tokens.Sorted.{IsBefore, IsAscending, IsBefore-weaken}
use anchor_staking_relayer.Tokens.Duplicates.{contains-IsBefore, amount_of-IsBefore}

abbrev pub IsPositive : Tokens → Type 0
IsPositive [] = Unit
IsPositive (t ∷ ts) = (0 < t.1) × IsPositive ts

abbrev pub IsCanonical : Tokens → Type 0
IsCanonical ts = IsAscending ts × IsPositive ts

IsBefore-retain : (a : Bytes) (ts : Tokens) → IsBefore a ts → IsBefore a (retain_nonzero ts)
unfolding retain_nonzero
IsBefore-retain a [] h = tt
IsBefore-retain a (t ∷ ts) (h, hs) = ground (arith, IsBefore-retain a ts hs)

-- Removing the zero amounts keeps the amount of every address.
pub amount_of-retain :
    (k : Bytes) (ts : Tokens) → IsAscending ts → amount_of k (retain_nonzero ts) ≡ amount_of k ts
unfolding retain_nonzero
amount_of-retain k [] h = refl
amount_of-retain k (t ∷ ts) (h, hs) =
    ground (arith, amount_of-retain k ts hs, bytes_eq→eq k t.0, amount_of-IsBefore t.0 ts h)

pub retain-IsCanonical : (ts : Tokens) → IsAscending ts → IsCanonical (retain_nonzero ts)
unfolding retain_nonzero
retain-IsCanonical [] h = (tt, tt)
retain-IsCanonical (t ∷ ts) (h, hs) =
    ground (arith, retain-IsCanonical ts hs, IsBefore-retain t.0 ts h)

-- The heads of two such lists with the same amounts are one entry.
heads_eq :
    (s t : Token) (self tokens : Tokens)
    → IsCanonical (s ∷ self)
    → IsCanonical (t ∷ tokens)
    → amount_of s.0 (s ∷ self) ≡ amount_of s.0 (t ∷ tokens)
    → amount_of t.0 (s ∷ self) ≡ amount_of t.0 (t ∷ tokens)
    → s.0 ≡ t.0
heads_eq s t self tokens ((hs, _), (ps, _)) ((ht, _), (pt, _)) es et = ground (
  arith,
  cmp_eq→eq s.0 t.0,
  cmp_gt→Before s.0 t.0,
  bytes_eq_refl s.0,
  bytes_eq_refl t.0,
  amount_of-IsBefore s.0 (t ∷ tokens),
  amount_of-IsBefore t.0 (s ∷ self),
  IsBefore-weaken s.0 t.0 tokens,
  IsBefore-weaken t.0 s.0 self,
)

-- Two lists in this form that hold the same amount of every address are equal.
pub IsCanonical-ext :
    (self tokens : Tokens)
    → IsCanonical self
    → IsCanonical tokens
    → ((k : Bytes) → amount_of k self ≡ amount_of k tokens)
    → self ≡ tokens
IsCanonical-ext [] [] hs ht h = refl
IsCanonical-ext [] (t ∷ tokens) hs (ht, (pt, _)) h =
    absurd (ground (arith, h t.0, bytes_eq_refl t.0))
IsCanonical-ext (s ∷ self) [] (hs, (ps, _)) ht h = absurd (ground (arith, h s.0, bytes_eq_refl s.0))
IsCanonical-ext (s ∷ self) (t ∷ tokens) (hs, ps) (ht, pt) h =
    let same = heads_eq s t self tokens (hs, ps) (ht, pt) (h s.0) (h t.0) in
    ground (
      arith,
      same,
      h s.0,
      bytes_eq_refl s.0,
      bytes_eq_refl t.0,
      IsCanonical-ext self tokens (hs.1, ps.1) (ht.1, pt.1)
          (λ k. ground (
            arith,
            same,
            h k,
            bytes_eq→eq k s.0,
            bytes_eq→eq k t.0,
            amount_of-IsBefore s.0 self hs.0,
            amount_of-IsBefore t.0 tokens ht.0,
          )),
    )

pub IsAscending-distinct : (ts : Tokens) → IsAscending ts → distinct ts ≡ true
IsAscending-distinct [] h = refl
IsAscending-distinct (t ∷ ts) (h, hs) =
    ground (arith, contains-IsBefore t.0 ts h, IsAscending-distinct ts hs)

amount_of-absent : (k : Bytes) (ts : Tokens) → contains k ts ≡ false → amount_of k ts ≡ 0
amount_of-absent k [] h = refl
amount_of-absent k (t ∷ ts) h = ground (arith, amount_of-absent k ts)

-- Positive amounts that are all at hand are covered.
pub covered_of_le :
    (self tokens : Tokens)
    → distinct tokens ≡ true
    → IsPositive tokens
    → ((k : Bytes) → amount_of k tokens ≤ amount_of k self)
    → covered self tokens ≡ true
covered_of_le self [] d p h = refl
covered_of_le self (t ∷ tokens) d (p, ps) h = ground (
  arith,
  h t.0,
  bytes_eq_refl t.0,
  amount_of-absent t.0 self,
  covered_of_le self tokens (ground arith) ps
      (λ k. ground (arith, h k, bytes_eq→eq k t.0, amount_of-absent t.0 tokens)),
)
