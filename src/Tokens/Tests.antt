-- ===== src/Tokens/Tests.antt =====
-- Runs of the token arithmetic, and its theorems at concrete lists.
use mathlib.Core.Equiv.{IsContr}
use mathlib.Core.Quot
use mathlib.Core.List.{Perm, Permᴰ}
use anchor_staking_relayer.Prelude.{◌+◌, ◌-◌, ◌^◌, ◌<◌, ◌≡◌, refl, [], ◌∷◌, if◌then◌else◌, arith}
use anchor_staking_relayer.Bytes.{Bytes, text, bytes_eq, cmp}
use anchor_staking_relayer.Outcome.{ok, err, panic}
use anchor_staking_relayer.BigNumber.{uint256_values}
use anchor_staking_relayer.BigNumber.Checked.{checked, checked-IsExact, checked-add_overflow}
use anchor_staking_relayer.Platform.{StdResult}
use anchor_staking_relayer.Deps.Sample.{sample_api, sample_api-IsInverse}
use anchor_staking_relayer.Tokens.{
  Tokens, TokensHuman, underflow, sub, add, assert_duplicate_token, sort_tokens, to_human, to_raw,
}
use anchor_staking_relayer.Tokens.Amounts.{amount_of, distinct, covered}
use anchor_staking_relayer.Tokens.Canonical.{IsCanonical, IsCanonical-ext}
use anchor_staking_relayer.Tokens.Duplicates.{assert_duplicate_token-sort}
use anchor_staking_relayer.Tokens.Sub.Laws.{sub-outcome, sub-difference}
use anchor_staking_relayer.Tokens.Add.{Fits}
use anchor_staking_relayer.Tokens.Add.Laws.{sum_of, add-total}
use anchor_staking_relayer.Tokens.Add.Overflow.{PanicsOnOverflow, all_fit, add-outcome}
use anchor_staking_relayer.Tokens.Algebra.{add_symmetric, sub-add, add-sub}
use anchor_staking_relayer.Tokens.Order.{sub-Perm}
use anchor_staking_relayer.Tokens.Bag.{Bag, Adds, add-IsContr}
use anchor_staking_relayer.Tokens.Conversion.{to_human-to_raw}

abbrev token1 : Bytes
token1 = 1 ∷ 7 ∷ []

abbrev token2 : Bytes
token2 = 2 ∷ []

abbrev token3 : Bytes
token3 = 2 ∷ 5 ∷ []

-- Out of order.
abbrev wallet : Tokens
wallet = (token3, 30) ∷ (token1, 1000) ∷ []

abbrev sorted_wallet : Tokens
sorted_wallet = (token1, 1000) ∷ (token3, 30) ∷ []

abbrev payment : Tokens
payment = (token3, 30) ∷ (token1, 400) ∷ []

abbrev foreign : Tokens
foreign = (token2, 0) ∷ (token1, 400) ∷ []

abbrev twice : Tokens
twice = (token1, 1) ∷ (token2, 2) ∷ (token1, 3) ∷ []

-- An amount that falls to zero is removed.
sub_run : sub checked wallet payment ≡ ((token1, 600) ∷ [], ok tt)
unfolding sub checked bytes_eq cmp
sub_run = refl

-- A token that `self` does not list is refused, also for an amount of zero; the entry before it has
-- been reduced by then.
sub_refused : sub checked sorted_wallet foreign ≡ ((token1, 600) ∷ (token3, 30) ∷ [], err underflow)
unfolding sub checked bytes_eq cmp
sub_refused = refl

add_run : add checked wallet payment ≡ ok ((token1, 1400) ∷ (token3, 60) ∷ [])
unfolding add checked bytes_eq cmp
add_run = refl

add_twice : add checked wallet twice ≡ panic
unfolding add checked bytes_eq cmp
add_twice = refl

-- On an unsorted list the assertion alone does not see the repeated address.
assert_unsorted : assert_duplicate_token twice ≡ ok tt
unfolding assert_duplicate_token bytes_eq
assert_unsorted = refl

sub-outcome_example : (sub checked sorted_wallet foreign).1 ≡ (
    if distinct sorted_wallet
    then (if distinct foreign
        then (if covered sorted_wallet foreign then ok tt else err underflow)
        else panic)
    else panic)
sub-outcome_example = sub-outcome checked checked-IsExact sorted_wallet foreign

sub-difference_example :
    IsCanonical (sub checked wallet payment).0
    × ((k : Bytes)
        → amount_of k (sub checked wallet payment).0 + amount_of k payment ≡ amount_of k wallet)
unfolding sub checked bytes_eq cmp
sub-difference_example = sub-difference checked checked-IsExact wallet payment refl

wallet-Fits : Fits wallet payment
wallet-Fits k = ground arith

sorted-Fits : Fits sorted_wallet payment
sorted-Fits k = ground arith

add-total_example :
    (out : Tokens) × (add checked wallet payment ≡ ok out)
    × IsCanonical out
    × ((k : Bytes) → amount_of k out ≡ amount_of k wallet + amount_of k payment)
unfolding bytes_eq
add-total_example = add-total checked checked-IsExact wallet payment wallet-Fits refl refl

add_symmetric_example : add checked wallet payment ≡ add checked payment wallet
add_symmetric_example = add_symmetric checked checked-IsExact wallet payment wallet-Fits

sub-add_example : sub checked ((token1, 1400) ∷ (token3, 60) ∷ []) payment ≡ (sorted_wallet, ok tt)
unfolding add checked bytes_eq cmp
sub-add_example =
    sub-add checked checked-IsExact sorted_wallet payment ((token1, 1400) ∷ (token3, 60) ∷ [])
      sorted-Fits (ground arith) refl (ground arith) refl

sorted_wallet_fits : (k : Bytes) → amount_of k sorted_wallet < uint256_values
sorted_wallet_fits k = ground arith

add-sub_example : add checked (sub checked sorted_wallet payment).0 payment ≡ ok sorted_wallet
unfolding sub checked bytes_eq cmp
add-sub_example =
    add-sub checked checked-IsExact sorted_wallet payment (ground arith) sorted_wallet_fits refl

sorted_wallet-IsCanonical : IsCanonical sorted_wallet
unfolding cmp
sorted_wallet-IsCanonical = ground arith

IsCanonical-ext_example : sorted_wallet ≡ sorted_wallet
IsCanonical-ext_example =
    IsCanonical-ext sorted_wallet sorted_wallet sorted_wallet-IsCanonical sorted_wallet-IsCanonical
      (λ k. refl)

assert_duplicate_token-sort_example :
    assert_duplicate_token (sort_tokens twice) ≡ (if distinct twice then ok tt else panic)
assert_duplicate_token-sort_example = assert_duplicate_token-sort twice

abbrev readable : TokensHuman
readable = (text "terra1", 5) ∷ (text "terra2", 0) ∷ []

to_human-to_raw_example : to_human sample_api readable ≡ ok readable
unfolding to_raw
to_human-to_raw_example = to_human-to_raw sample_api sample_api-IsInverse readable readable refl

wallet-Perm : Perm wallet sorted_wallet
wallet-Perm = ∣ Permᴰ.swap refl refl ∣₁

payment-Perm : Perm payment ((token1, 400) ∷ (token3, 30) ∷ [])
payment-Perm = ∣ Permᴰ.swap refl refl ∣₁

add-IsContr_example : IsContr ((f : Bag → Bag → StdResult Tokens) × Adds checked f)
add-IsContr_example = add-IsContr checked

-- The function on bags, at two lists in either order.
add_bags_run :
    (add-IsContr checked).0.0 (Quot.mk wallet) (Quot.mk payment)
    ≡ ok ((token1, 1400) ∷ (token3, 60) ∷ [])
unfolding add checked bytes_eq cmp
add_bags_run = (add-IsContr checked).0.1 wallet payment

sub-Perm_example :
    sub checked wallet payment ≡ sub checked sorted_wallet ((token1, 400) ∷ (token3, 30) ∷ [])
unfolding bytes_eq
sub-Perm_example = sub-Perm checked wallet-Perm payment-Perm refl

abbrev full : Tokens
full = (token3, 7) ∷ (token1, 2 ^ 256 - 1) ∷ []

checked-PanicsOnOverflow : PanicsOnOverflow checked
checked-PanicsOnOverflow = checked-add_overflow

-- The sum for the first token does not fit.
add-outcome_example : add checked full payment ≡ (
    if distinct full
    then (if distinct payment
        then (if all_fit full payment then ok (sum_of full payment) else panic)
        else panic)
    else panic)
add-outcome_example = add-outcome checked checked-IsExact checked-PanicsOnOverflow full payment

add_overflow_run : add checked full payment ≡ panic
unfolding add checked bytes_eq cmp
add_overflow_run = refl
