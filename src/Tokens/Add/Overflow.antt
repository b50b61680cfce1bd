-- ===== src/Tokens/Add/Overflow.antt =====
-- `TokensMath::add` on any two lists, with sums that do not fit too.
use mathlib.Core.Path.{fun_ext}
use anchor_staking_relayer.Prelude.{
  ℕ, ◌+◌, ◌≤◌, ◌≡◌, refl, Bool, true, none, [], ◌∷◌, ltb, all, if◌then◌else◌, arith,
}
use anchor_staking_relayer.Bytes.Order.{
  bytes_eq-cmp, bytes_eq→eq, cmp_eq→eq, cmp_gt→Before, Before→cmp_gt,
}
use anchor_staking_relayer.Outcome.{ok, panic}
use anchor_staking_relayer.BigNumber.{BigNumber, IsExact, uint256_values}
use anchor_staking_relayer.Tokens.{Token, Tokens, sort_tokens, add_loop, add}
use anchor_staking_relayer.Tokens.Amounts.{amount_of, contains, distinct}
use anchor_staking_relayer.Tokens.Sorted.{
  IsBefore, IsAscending, IsBefore-weaken, contains-sort, amount_of-sort,
}
use anchor_staking_relayer.Tokens.Duplicates.{
  assert_duplicate_token-sort, contains-IsBefore, all-sort,
}
use anchor_staking_relayer.Tokens.Sub.Laws.{sort-IsAscending}
use anchor_staking_relayer.Tokens.Add.{merged}
use anchor_staking_relayer.Tokens.Add.Laws.{sum_of}

-- A sum of `Uint256` that does not fit panics.
abbrev pub PanicsOnOverflow : BigNumber → Type 0
PanicsOnOverflow n = (a b : ℕ) → uint256_values ≤ a + b → n.add a b ≡ none

-- The amount of the entry and the one that `self` has for its address sum to a `Uint256`.
abbrev pub fits : Tokens → Token → Bool
fits self t = if contains t.0 self then ltb (amount_of t.0 self + t.1) uint256_values else true

abbrev pub all_fit : Tokens → Tokens → Bool
all_fit self tokens = all (fits self) tokens

all_fit-skip :
    (s : Token) (self tokens : Tokens)
    → IsBefore s.0 tokens
    → all_fit (s ∷ self) tokens ≡ all_fit self tokens
all_fit-skip s self [] h = refl
all_fit-skip s self (t ∷ tokens) (h, hs) =
    ground (arith, bytes_eq-cmp t.0 s.0, Before→cmp_gt s.0 t.0, all_fit-skip s self tokens hs)

all_fit-nil : (tokens : Tokens) → all_fit [] tokens ≡ true
all_fit-nil [] = refl
all_fit-nil (t ∷ tokens) = ground (arith, all_fit-nil tokens)

fits-sort : (self : Tokens) (t : Token) → fits (sort_tokens self) t ≡ fits self t
fits-sort self t = simp (contains-sort, amount_of-sort)

all_fit-sort :
    (self tokens : Tokens) → all_fit (sort_tokens self) (sort_tokens tokens) ≡ all_fit self tokens
all_fit-sort self tokens = rw (all-sort (fits (sort_tokens self)) tokens, fun_ext (fits-sort self))

module _ (n : BigNumber) (exact : IsExact n) (overflow : PanicsOnOverflow n) where
  -- On ascending lists the loops push the merge, or run into a sum that does not fit.
  add_loop-all_fit :
      (self tokens : Tokens)
      → IsAscending self
      → IsAscending tokens
      → add_loop n self tokens ≡ (if all_fit self tokens then ok (merged self tokens) else panic)
  unfolding add_loop merged
  add_loop-all_fit [] tokens hs ht = ground (arith, all_fit-nil tokens)
  add_loop-all_fit (s ∷ self) [] hs ht = refl
  add_loop-all_fit (s ∷ self) (t ∷ tokens) (h, hs) (p, ps) = ground (
    arith,
    bytes_eq-cmp s.0 t.0,
    bytes_eq-cmp t.0 s.0,
    bytes_eq→eq s.0 t.0,
    cmp_eq→eq s.0 t.0,
    cmp_gt→Before s.0 t.0,
    Before→cmp_gt s.0 t.0,
    exact.add_exact s.1 t.1,
    overflow s.1 t.1,
    all_fit-skip s self tokens,
    all_fit-skip s self (t ∷ tokens),
    IsBefore-weaken s.0 t.0 tokens,
    IsBefore-weaken t.0 s.0 self,
    contains-IsBefore t.0 self,
    add_loop-all_fit self tokens hs ps,
    add_loop-all_fit self (t ∷ tokens) hs (p, ps),
    add_loop-all_fit (s ∷ self) tokens (h, hs) ps,
  )

  -- How `add` ends, for any two lists in any order, where a sum that does not fit panics: it panics
  -- exactly if an address has two entries in one of the lists, or if the two amounts of an address
  -- that both lists have sum to no `Uint256`; and otherwise it leaves the sum of the two lists.
  pub add-outcome :
      (self tokens : Tokens)
      → add n self tokens ≡ (
          if distinct self
          then (if distinct tokens
              then (if all_fit self tokens then ok (sum_of self tokens) else panic)
              else panic)
          else panic)
  unfolding add
  add-outcome self tokens = ground (
    arith,
    assert_duplicate_token-sort self,
    assert_duplicate_token-sort tokens,
    all_fit-sort self tokens,
    λ (ds : distinct self ≡ true) (dt : distinct tokens ≡ true).
        add_loop-all_fit (sort_tokens self) (sort_tokens tokens) (sort-IsAscending self ds)
          (sort-IsAscending tokens dt),
  )
