-- ===== src/Tokens.antt =====
-- packages/moneymarket/src/tokens.rs: lists of token amounts, and their sums and differences.
-- A `Tokens` is a list of pairs; `self` and the argument are lists that the methods sort and walk
-- with two indices, each of which is here the suffix that is left.
pub mod Amounts
pub mod Sorted
pub mod Duplicates
pub mod Canonical
pub mod Sub
pub mod Add
pub mod Algebra
pub mod Order
pub mod While
pub mod Bag
pub mod Conversion
mod Tests
use anchor_staking_relayer.Prelude.{
  ℕ, Bool, true, false, List, [], ◌∷◌, none, some, Ordering, ltb, if◌then◌else◌,
}
use anchor_staking_relayer.Bytes.{Bytes, Text, text, bytes_eq, cmp}
use anchor_staking_relayer.Outcome.{Outcome, ok, err, panic, ◌>>=◌, ◌>>◌, or_panic}
use anchor_staking_relayer.BigNumber.{BigNumber}
use anchor_staking_relayer.Platform.{StdError, generic_err, StdResult, Api}

abbrev pub Token : Type 0
Token = Bytes × ℕ

abbrev pub TokenHuman : Type 0
TokenHuman = Text × ℕ

abbrev pub Tokens : Type 0
Tokens = List Token

abbrev pub TokensHuman : Type 0
TokensHuman = List TokenHuman

-- `sort_by` on the bytes of the address. It is stable: equal addresses keep their order.
pub insert_token : Token → Tokens → Tokens
insert_token t [] = t ∷ []
insert_token t (u ∷ us) = elim (cmp t.0 u.0) [
  | Ordering.lt ↦ t ∷ u ∷ us
  | Ordering.eq ↦ t ∷ u ∷ us
  | Ordering.gt ↦ u ∷ insert_token t us
]

pub sort_tokens : Tokens → Tokens
unfolding insert_token
sort_tokens [] = []
sort_tokens (t ∷ ts) = insert_token t (sort_tokens ts)

-- The loop of `assert_duplicate_token`: each address against the one before it.
pub assert_from : Bytes → Tokens → StdResult (Unit {0})
assert_from before_token [] = ok tt
assert_from before_token (next_token ∷ rest) = elim (bytes_eq before_token next_token.0) [
  | true ↦ panic
  | false ↦ assert_from next_token.0 rest
]

pub assert_duplicate_token : Tokens → StdResult (Unit {0})
unfolding assert_from
assert_duplicate_token [] = ok tt
assert_duplicate_token (t ∷ []) = ok tt
assert_duplicate_token (t ∷ u ∷ rest) = assert_from t.0 (u ∷ rest)

-- `retain(|v| v.1 > Uint256::zero())`
pub retain_nonzero : Tokens → Tokens
retain_nonzero [] = []
retain_nonzero (t ∷ ts) = if ltb 0 t.1 then t ∷ retain_nonzero ts else retain_nonzero ts

abbrev pub underflow : StdError
underflow = generic_err (text "Subtraction underflow")

-- The `while` of `sub`, from `self[i..]` and `tokens[j..]`: what stands in `self[i..]` when the loop
-- ends, and how it ends; `ok` holds what is left of `tokens`. An error leaves what was written.
pub sub_loop : BigNumber → Tokens → Tokens → Tokens × StdResult Tokens
sub_loop n [] tokens = ([], ok tokens)
sub_loop n (s ∷ self) [] = (s ∷ self, ok [])
sub_loop n (s ∷ self) (t ∷ tokens) = elim (bytes_eq s.0 t.0) [
  | true ↦ if ltb s.1 t.1 then (s ∷ self, err underflow) else elim (n.sub s.1 t.1) [
    | none ↦ (s ∷ self, panic)
    | some d ↦ let (self', end) = sub_loop n self tokens in ((s.0, d) ∷ self', end)
  ]
  | false ↦ elim (cmp s.0 t.0) [
    | Ordering.lt ↦ let (self', end) = sub_loop n self (t ∷ tokens) in (s ∷ self', end)
    | Ordering.eq ↦ (s ∷ self, err underflow)
    | Ordering.gt ↦ (s ∷ self, err underflow)
  ]
]

-- After the loop: tokens that are left over are an error, and zero amounts are removed.
pub sub_finish : Tokens × StdResult Tokens → Tokens × StdResult (Unit {0})
sub_finish (self, ok []) = (retain_nonzero self, ok tt)
sub_finish (self, ok (t ∷ tokens)) = (self, err underflow)
sub_finish (self, err e) = (self, err e)
sub_finish (self, panic) = (self, panic)

-- `TokensMath::sub`: `self` after the call, and its result.
unfoldable pub sub : BigNumber → Tokens → Tokens → Tokens × StdResult (Unit {0})
unfolding sort_tokens assert_duplicate_token retain_nonzero sub_loop sub_finish
sub n self tokens =
    let self' = sort_tokens self in
    let tokens' = sort_tokens tokens in
    elim (assert_duplicate_token self' >> assert_duplicate_token tokens') [
      | ok _ ↦ sub_finish (sub_loop n self' tokens')
      | err e ↦ (self', err e)
      | panic ↦ (self', panic)
    ]

-- The loops of `add`: what is pushed onto `tmp_tokens` from `self[i..]` and `tokens[j..]`.
pub add_loop : BigNumber → Tokens → Tokens → StdResult Tokens
add_loop n [] tokens = ok tokens
add_loop n (s ∷ self) [] = ok (s ∷ self)
add_loop n (s ∷ self) (t ∷ tokens) = elim (bytes_eq s.0 t.0) [
  | true ↦ do
    total ← or_panic (n.add s.1 t.1)
    pushed ← add_loop n self tokens
    ok ((s.0, total) ∷ pushed)
  | false ↦ elim (cmp s.0 t.0) [
    | Ordering.gt ↦ do pushed ← add_loop n (s ∷ self) tokens; ok (t ∷ pushed)
    | Ordering.lt ↦ do pushed ← add_loop n self (t ∷ tokens); ok (s ∷ pushed)
    | Ordering.eq ↦ do pushed ← add_loop n self (t ∷ tokens); ok (s ∷ pushed)
  ]
]

-- `TokensMath::add`: `self` after the call. It returns no error, and can only panic.
unfoldable pub add : BigNumber → Tokens → Tokens → StdResult Tokens
unfolding sort_tokens assert_duplicate_token retain_nonzero add_loop
add n self tokens = do
  let self' = sort_tokens self
  assert_duplicate_token self'
  let tokens' = sort_tokens tokens
  assert_duplicate_token tokens'
  tmp_tokens ← add_loop n self' tokens'
  ok (retain_nonzero tmp_tokens)

-- `to_human` and `to_raw`: the first address that the platform refuses ends the call.
pub to_human : Api → Tokens → StdResult TokensHuman
to_human api [] = ok []
to_human api (c ∷ cs) = do
  human ← api.addr_humanize c.0
  collaterals ← to_human api cs
  ok ((human, c.1) ∷ collaterals)

unfoldable pub to_raw : Api → TokensHuman → StdResult Tokens
to_raw api [] = ok []
to_raw api (c ∷ cs) = do
  raw ← api.addr_canonicalize c.0
  collaterals ← to_raw api cs
  ok ((raw, c.1) ∷ collaterals)
