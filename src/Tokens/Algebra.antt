-- ===== src/Tokens/Algebra.antt =====
-- `TokensMath::add` and `TokensMath::sub` together.
use anchor_staking_relayer.Prelude.{◌+◌, ◌<◌, ◌≡◌, true, ◌∙◌, ap, subst, arith}
use anchor_staking_relayer.Bytes.{Bytes}
use anchor_staking_relayer.Outcome.{ok}
use anchor_staking_relayer.BigNumber.{BigNumber, IsExact, uint256_values}
use anchor_staking_relayer.Tokens.{Tokens, sub, add}
use anchor_staking_relayer.Tokens.Amounts.{amount_of, distinct}
use anchor_staking_relayer.Tokens.Canonical.{
  IsPositive, IsCanonical, IsCanonical-ext, IsAscending-distinct, covered_of_le,
}
use anchor_staking_relayer.Tokens.Sub.Laws.{sub-outcome, sub-ok, sub-difference}
use anchor_staking_relayer.Tokens.Add.{Fits}
use anchor_staking_relayer.Tokens.Add.Laws.{
  sum_of, sum_of-IsCanonical, amount_of-sum_of, add-sum_of, add-total,
}

sum_of_comm :
    (self tokens : Tokens)
    → distinct self ≡ true
    → distinct tokens ≡ true
    → sum_of self tokens ≡ sum_of tokens self
sum_of_comm self tokens ds dt =
    IsCanonical-ext _ _ (sum_of-IsCanonical self tokens ds dt)
      (sum_of-IsCanonical tokens self dt ds)
      (λ k.
        omega (arith, amount_of-sum_of self tokens ds dt k, amount_of-sum_of tokens self dt ds k))

module _ (n : BigNumber) (exact : IsExact n) where
  -- Where the sums fit, `self.add(tokens)` and `tokens.add(self)` leave the same list, or both panic.
  pub add_symmetric :
      (self tokens : Tokens) → Fits self tokens → add n self tokens ≡ add n tokens self
  add_symmetric self tokens fits = ground (
    arith,
    add-sum_of n exact self tokens fits,
    add-sum_of n exact tokens self (λ k. omega (arith, fits k)),
    sum_of_comm self tokens,
  )

  -- Taking away what was added gives the list back, if it was in the form that `add` and `sub`
  -- leave, and if the added tokens repeat no address and have no zero amount.
  pub sub-add :
      (self tokens out : Tokens)
      → Fits self tokens
      → IsCanonical self
      → distinct tokens ≡ true
      → IsPositive tokens
      → add n self tokens ≡ ok out
      → sub n out tokens ≡ (self, ok tt)
  sub-add self tokens out fits cs dt pt added =
      let ds = IsAscending-distinct self cs.0 in
      let (out', made, canonical, amounts) = add-total n exact self tokens fits ds dt in
      let same : out' ≡ out = ground (arith, made, added) in
      undo (subst IsCanonical same canonical) (
        subst (λ o. (k : Bytes) → amount_of k o ≡ amount_of k self + amount_of k tokens) same
          amounts)
    where
      undo :
          IsCanonical out
          → ((k : Bytes) → amount_of k out ≡ amount_of k self + amount_of k tokens)
          → sub n out tokens ≡ (self, ok tt)
      undo canonical amounts =
          let enough = covered_of_le out tokens dt pt (λ k. omega (arith, amounts k)) in
          let done : (sub n out tokens).1 ≡ ok tt =
            sub-outcome n exact out tokens
            ∙ rw (IsAscending-distinct out canonical.0, dt, enough) in
          let (form, left) = sub-difference n exact out tokens done in
          let back = IsCanonical-ext _ _ form cs (λ k. omega (arith, left k, amounts k)) in
          λ i. (back i, done i)

  -- Adding back what was taken away gives the list back, if it was in the form that `add` and
  -- `sub` leave and its amounts are `Uint256`s.
  pub add-sub :
      (self tokens : Tokens)
      → IsCanonical self
      → ((k : Bytes) → amount_of k self < uint256_values)
      → (sub n self tokens).1 ≡ ok tt
      → add n (sub n self tokens).0 tokens ≡ ok self
  add-sub self tokens cs fits done =
      let (form, left) = sub-difference n exact self tokens done in
      let (ds, dt, c) = sub-ok n exact self tokens done in
      let (out, made, canonical, amounts) =
        add-total n exact (sub n self tokens).0 tokens (λ k. omega (arith, left k, fits k))
          (IsAscending-distinct _ form.0) dt in
      made ∙ ap ok (IsCanonical-ext _ _ canonical cs (λ k. omega (arith, amounts k, left k)))
