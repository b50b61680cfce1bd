-- ===== src/Tokens/While.antt =====
-- The loops of packages/moneymarket/src/tokens.rs as they are written: on two indices into the two
-- lists, with reads that panic out of bounds. The fuel bounds the number of rounds, and `none`
-- means that it ran out.
pub mod Arrays
pub mod AssertLaws
pub mod SubLaws
pub mod AddLaws
mod Tests
use anchor_staking_relayer.Prelude.{
  ℕ, zero, suc, ◌+◌, Bool, true, false, ◌&&◌, not, Option, none, some, List, [], ◌∷◌, ◌++◌, length,
  ltb, ◌==◌, Ordering, if◌then◌else◌,
}
use anchor_staking_relayer.Bytes.{Bytes, bytes_eq, cmp}
use anchor_staking_relayer.Outcome.{ok, err, panic, ◌>>◌}
use anchor_staking_relayer.BigNumber.{BigNumber}
use anchor_staking_relayer.Platform.{StdResult}
use anchor_staking_relayer.Tokens.{
  Token, Tokens, sort_tokens, assert_duplicate_token, retain_nonzero, underflow,
}
use anchor_staking_relayer.Tokens.While.Arrays.{get_elem?, set_amount}

-- How a round of a loop ends: with a panic of the read, or with the two entries at the indices.
abbrev pub both : Option Token → Option Token → Option (Token × Token)
both (some s) (some t) = some (s, t)
both s t = none

module _ (n : BigNumber) (tokens : Tokens) where
  -- The `while` of `sub`: `self` as it stands at the end, and the index into `tokens`.
  pub sub_while : ℕ → Tokens → ℕ → ℕ → Option (Tokens × StdResult ℕ)
  sub_while zero self i j = none
  sub_while (suc fuel) self i j = elim (ltb i (length self) && ltb j (length tokens)) [
    | false ↦ some (self, ok j)
    | true ↦ elim (both (get_elem? self i) (get_elem? tokens j)) [
      | none ↦ some (self, panic)
      | some (s, t) ↦ elim (bytes_eq s.0 t.0) [
        | true ↦ elim (ltb s.1 t.1) [
          | true ↦ some (self, err underflow)
          | false ↦ elim (n.sub s.1 t.1) [
            | none ↦ some (self, panic)
            | some d ↦ sub_while fuel (set_amount i d self) (i + 1) (j + 1)
          ]
        ]
        | false ↦ elim (cmp s.0 t.0) [
          | Ordering.lt ↦ sub_while fuel self (i + 1) j
          | Ordering.eq ↦ some (self, err underflow)
          | Ordering.gt ↦ some (self, err underflow)
        ]
      ]
    ]
  ]

-- What follows the loop of `sub`: the test of the index into `tokens`, and the removal of zeros.
pub sub_end : Tokens → Tokens × StdResult ℕ → Tokens × StdResult (Unit {0})
unfolding retain_nonzero
sub_end tokens (self, ok j) =
    if not (j == length tokens) then (self, err underflow) else (retain_nonzero self, ok tt)
sub_end tokens (self, err e) = (self, err e)
sub_end tokens (self, panic) = (self, panic)

-- The loop of `assert_duplicate_token`, from an index on.
pub assert_while : ℕ → Tokens → Bytes → ℕ → Option (StdResult (Unit {0}))
assert_while zero self before_token i = none
assert_while (suc fuel) self before_token i = elim (ltb i (length self)) [
  | false ↦ some (ok tt)
  | true ↦ elim (get_elem? self i) [
    | none ↦ some panic
    | some next_token ↦ elim (bytes_eq before_token next_token.0) [
      | true ↦ some panic
      | false ↦ assert_while fuel self next_token.0 (i + 1)
    ]
  ]
]

-- `assert_duplicate_token`, with a round for each entry.
pub assert_by_index : Tokens → Option (StdResult (Unit {0}))
unfolding assert_while
assert_by_index self = elim (ltb 1 (length self)) [
  | false ↦ some (ok tt)
  | true ↦ elim (get_elem? self 0) [
    | none ↦ some panic
    | some first ↦ assert_while (length self) self first.0 1
  ]
]

-- The first `while` of `add`: `tmp_tokens` and the indices as they stand at its end.
pub add_while :
    BigNumber → Tokens → Tokens → ℕ → Tokens → ℕ → ℕ → Option (StdResult (Tokens × ℕ × ℕ))
add_while n self tokens zero tmp_tokens i j = none
add_while n self tokens (suc fuel) tmp_tokens i j =
    elim (ltb i (length self) && ltb j (length tokens)) [
      | false ↦ some (ok (tmp_tokens, i, j))
      | true ↦ elim (both (get_elem? self i) (get_elem? tokens j)) [
        | none ↦ some panic
        | some (s, t) ↦ elim (bytes_eq s.0 t.0) [
          | true ↦ elim (n.add s.1 t.1) [
            | none ↦ some panic
            | some total ↦
                add_while n self tokens fuel (tmp_tokens ++ (s.0, total) ∷ []) (i + 1) (j + 1)
          ]
          | false ↦ elim (cmp s.0 t.0) [
            | Ordering.gt ↦ add_while n self tokens fuel (tmp_tokens ++ t ∷ []) i (j + 1)
            | Ordering.lt ↦ add_while n self tokens fuel (tmp_tokens ++ s ∷ []) (i + 1) j
            | Ordering.eq ↦ add_while n self tokens fuel (tmp_tokens ++ s ∷ []) (i + 1) j
          ]
        ]
      ]
    ]

-- The second and the third `while` of `add`: what is left of one list is pushed.
pub push_while : Tokens → ℕ → Tokens → ℕ → Option (StdResult Tokens)
push_while ts zero tmp_tokens i = none
push_while ts (suc fuel) tmp_tokens i = elim (ltb i (length ts)) [
  | false ↦ some (ok tmp_tokens)
  | true ↦ elim (get_elem? ts i) [
    | none ↦ some panic
    | some t ↦ push_while ts fuel (tmp_tokens ++ t ∷ []) (i + 1)
  ]
]

-- The three loops one after the other, each with a round for each entry of the lists that it reads
-- and one for its last test.
pub add_whiles : BigNumber → Tokens → Tokens → Option (StdResult Tokens)
unfolding add_while push_while
add_whiles n self tokens = elim (add_while n self tokens (length self + length tokens + 1) [] 0 0) [
  | none ↦ none
  | some (err e) ↦ some (err e)
  | some panic ↦ some panic
  | some (ok (merged, i, j)) ↦ elim (push_while tokens (length tokens + 1) merged j) [
    | none ↦ none
    | some (err e) ↦ some (err e)
    | some panic ↦ some panic
    | some (ok pushed) ↦ push_while self (length self + 1) pushed i
  ]
]

-- `TokensMath::sub` and `TokensMath::add` with these loops.
pub sub_by_index : BigNumber → Tokens → Tokens → Option (Tokens × StdResult (Unit {0}))
unfolding sort_tokens assert_by_index sub_while sub_end
sub_by_index n self tokens =
    let self' = sort_tokens self in
    let tokens' = sort_tokens tokens in
    elim (assert_by_index self') [
      | none ↦ none
      | some (err e) ↦ some (self', err e)
      | some panic ↦ some (self', panic)
      | some (ok _) ↦ elim (assert_by_index tokens') [
        | none ↦ none
        | some (err e) ↦ some (self', err e)
        | some panic ↦ some (self', panic)
        | some (ok _) ↦ elim (sub_while n tokens' (length self' + length tokens' + 1) self' 0 0) [
          | none ↦ none
          | some end ↦ some (sub_end tokens' end)
        ]
      ]
    ]

pub add_by_index : BigNumber → Tokens → Tokens → Option (StdResult Tokens)
unfolding sort_tokens assert_by_index add_whiles retain_nonzero
add_by_index n self tokens =
    let self' = sort_tokens self in
    let tokens' = sort_tokens tokens in
    elim (assert_by_index self') [
      | none ↦ none
      | some (err e) ↦ some (err e)
      | some panic ↦ some panic
      | some (ok _) ↦ elim (assert_by_index tokens') [
        | none ↦ none
        | some (err e) ↦ some (err e)
        | some panic ↦ some panic
        | some (ok _) ↦ elim (add_whiles n self' tokens') [
          | none ↦ none
          | some (err e) ↦ some (err e)
          | some panic ↦ some panic
          | some (ok tmp_tokens) ↦ some (ok (retain_nonzero tmp_tokens))
        ]
      ]
    ]
