-- ===== src/Tokens/Sub/Laws.antt =====
-- The contract of `TokensMath::sub`, for lists in any order.
use anchor_staking_relayer.Prelude.{◌+◌, ◌≤◌, ◌≡◌, refl, [], ◌∷◌, true, if◌then◌else◌, arith, ◌∙◌}
use anchor_staking_relayer.Bytes.{Bytes}
use anchor_staking_relayer.Bytes.Order.{bytes_eq→eq}
use anchor_staking_relayer.Platform.{StdResult}
use anchor_staking_relayer.Outcome.{ok, err, panic}
use anchor_staking_relayer.BigNumber.{BigNumber, IsExact}
use anchor_staking_relayer.Tokens.{
  Tokens, underflow, sort_tokens, retain_nonzero, sub_loop, sub_finish, sub,
}
use anchor_staking_relayer.Tokens.Amounts.{amount_of, distinct, covered}
use anchor_staking_relayer.Tokens.Sorted.{IsAscending, sort-IsSorted, amount_of-sort}
use anchor_staking_relayer.Tokens.Duplicates.{
  assert_duplicate_token-sort, distinct-sort, distinct-IsAscending, covered-sort,
}
use anchor_staking_relayer.Tokens.Canonical.{IsCanonical, amount_of-retain, retain-IsCanonical}
use anchor_staking_relayer.Tokens.Sub.{
  sub_finish-verdict, verdict, verdict-sub_loop, IsAscending-sub_loop, amount_of-sub_loop,
}

pub sort-IsAscending : (ts : Tokens) → distinct ts ≡ true → IsAscending (sort_tokens ts)
sort-IsAscending ts d =
    distinct-IsAscending (sort_tokens ts) (sort-IsSorted ts) (distinct-sort ts ∙ d)

sub_finish-state :
    (p : Tokens × StdResult Tokens) → verdict p.1 ≡ ok tt → (sub_finish p).0 ≡ retain_nonzero p.0
unfolding sub_finish
sub_finish-state (self, ok []) h = refl
sub_finish-state (self, ok (t ∷ tokens)) h = cc
sub_finish-state (self, err e) h = cc
sub_finish-state (self, panic) h = cc

covered-le :
    (k : Bytes) (self tokens : Tokens)
    → covered self tokens ≡ true
    → amount_of k tokens ≤ amount_of k self
covered-le k self [] h = omega arith
covered-le k self (t ∷ tokens) h = ground (arith, covered-le k self tokens, bytes_eq→eq k t.0)

module _ (n : BigNumber) (exact : IsExact n) (self tokens : Tokens) where
  -- How `sub` ends, whatever the order of the two lists: it panics exactly if an address is there
  -- twice in either list, it succeeds exactly if each entry of `tokens` has one in `self` with at
  -- least its amount, and it returns "Subtraction underflow" otherwise.
  pub sub-outcome : (sub n self tokens).1 ≡ (
      if distinct self
      then (if distinct tokens
          then (if covered self tokens then ok tt else err underflow)
          else panic)
      else panic)
  unfolding sub
  sub-outcome = ground (
    arith,
    assert_duplicate_token-sort self,
    assert_duplicate_token-sort tokens,
    sub_finish-verdict (sub_loop n (sort_tokens self) (sort_tokens tokens)),
    verdict-sub_loop n exact (sort_tokens self) (sort_tokens tokens),
    sort-IsAscending self,
    sort-IsAscending tokens,
    covered-sort self tokens,
  )

  -- A `sub` that succeeded passed every check.
  pub sub-ok :
      (sub n self tokens).1 ≡ ok tt
      → (distinct self ≡ true) × (distinct tokens ≡ true) × (covered self tokens ≡ true)
  sub-ok h = ground (arith, sub-outcome, h)

  sub-state :
      distinct self ≡ true
      → distinct tokens ≡ true
      → covered self tokens ≡ true
      → (sub n self tokens).0
        ≡ retain_nonzero (sub_loop n (sort_tokens self) (sort_tokens tokens)).0
  unfolding sub
  sub-state ds dt c = ground (
    arith,
    assert_duplicate_token-sort self,
    assert_duplicate_token-sort tokens,
    sub_finish-state (sub_loop n (sort_tokens self) (sort_tokens tokens)),
    verdict-sub_loop n exact (sort_tokens self) (sort_tokens tokens) (sort-IsAscending self ds)
        (sort-IsAscending tokens dt),
    covered-sort self tokens,
  )

  sub-difference_of :
      distinct self ≡ true
      → distinct tokens ≡ true
      → covered self tokens ≡ true
      → IsCanonical (sub n self tokens).0
        × ((k : Bytes) → amount_of k (sub n self tokens).0 + amount_of k tokens ≡ amount_of k self)
  sub-difference_of ds dt c =
      let s = sort-IsAscending self ds in
      let t = sort-IsAscending tokens dt in
      let out = IsAscending-sub_loop n (sort_tokens self) (sort_tokens tokens) s in
      rw (sub-state ds dt c) (
        retain-IsCanonical _ out,
        λ k. omega (
          arith,
          amount_of-retain k _ out,
          amount_of-sub_loop n exact k (sort_tokens self) (sort_tokens tokens) s t
              (covered-sort self tokens ∙ c),
          amount_of-sort k self,
          amount_of-sort k tokens,
          covered-le k self tokens c,
        ),
      )

  -- After a `sub` that succeeds `self` holds, of every address, what together with `tokens` is what
  -- it held before; it is sorted strictly by address and has no zero amounts.
  pub sub-difference :
      (sub n self tokens).1 ≡ ok tt
      → IsCanonical (sub n self tokens).0
        × ((k : Bytes) → amount_of k (sub n self tokens).0 + amount_of k tokens ≡ amount_of k self)
  sub-difference h = let (ds, dt, c) = sub-ok h in sub-difference_of ds dt c
