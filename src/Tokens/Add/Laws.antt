-- ===== src/Tokens/Add/Laws.antt =====
-- The contract of `TokensMath::add`, for lists in any order.
use anchor_staking_relayer.Prelude.{◌+◌, ◌≡◌, true, ◌∙◌, if◌then◌else◌, arith}
use anchor_staking_relayer.Bytes.{Bytes}
use anchor_staking_relayer.Outcome.{ok, panic}
use anchor_staking_relayer.BigNumber.{BigNumber, IsExact}
use anchor_staking_relayer.Tokens.{Tokens, sort_tokens, retain_nonzero, add}
use anchor_staking_relayer.Tokens.Amounts.{amount_of, distinct}
use anchor_staking_relayer.Tokens.Sorted.{amount_of-sort}
use anchor_staking_relayer.Tokens.Duplicates.{assert_duplicate_token-sort}
use anchor_staking_relayer.Tokens.Canonical.{IsCanonical, amount_of-retain, retain-IsCanonical}
use anchor_staking_relayer.Tokens.Sub.Laws.{sort-IsAscending}
use anchor_staking_relayer.Tokens.Add.{
  Fits, merged, IsAscending-merged, amount_of-merged, add_loop-merged,
}

-- The list that `add` leaves.
abbrev pub sum_of : Tokens → Tokens → Tokens
sum_of self tokens = retain_nonzero (merged (sort_tokens self) (sort_tokens tokens))

module _ (self tokens : Tokens) (ds : distinct self ≡ true) (dt : distinct tokens ≡ true) where
  pub sum_of-IsCanonical : IsCanonical (sum_of self tokens)
  sum_of-IsCanonical =
      retain-IsCanonical _
        (IsAscending-merged _ _ (sort-IsAscending self ds) (sort-IsAscending tokens dt))

  pub amount_of-sum_of :
      (k : Bytes) → amount_of k (sum_of self tokens) ≡ amount_of k self + amount_of k tokens
  amount_of-sum_of k =
      let s = sort-IsAscending self ds in
      let t = sort-IsAscending tokens dt in
      omega (
        arith,
        amount_of-retain k _ (IsAscending-merged _ _ s t),
        amount_of-merged k _ _ s t,
        amount_of-sort k self,
        amount_of-sort k tokens,
      )

module _ (n : BigNumber) (exact : IsExact n) (self tokens : Tokens) (fits : Fits self tokens) where
  Fits-sort : Fits (sort_tokens self) (sort_tokens tokens)
  Fits-sort k = omega (arith, fits k, amount_of-sort k self, amount_of-sort k tokens)

  -- `add` panics exactly if an address is there twice in either list.
  pub add-sum_of : add n self tokens ≡ (
      if distinct self then (if distinct tokens then ok (sum_of self tokens) else panic) else panic)
  unfolding add
  add-sum_of = ground (
    arith,
    assert_duplicate_token-sort self,
    assert_duplicate_token-sort tokens,
    λ (ds : distinct self ≡ true) (dt : distinct tokens ≡ true).
        add_loop-merged n exact (sort_tokens self) (sort_tokens tokens) (sort-IsAscending self ds)
          (sort-IsAscending tokens dt) Fits-sort,
  )

  -- Without a repeated address, and if the sums fit, `add` returns a list that is sorted strictly by
  -- address, has no zero amounts, and holds of every address the sum of what the two lists hold.
  pub add-total :
      distinct self ≡ true
      → distinct tokens ≡ true
      → (out : Tokens) × (add n self tokens ≡ ok out)
        × IsCanonical out
        × ((k : Bytes) → amount_of k out ≡ amount_of k self + amount_of k tokens)
  add-total ds dt = (
    sum_of self tokens,
    add-sum_of ∙ rw (ds, dt),
    sum_of-IsCanonical self tokens ds dt,
    amount_of-sum_of self tokens ds dt,
  )
