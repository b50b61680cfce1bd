-- ===== src/Tokens/While/SubLaws.antt =====
-- `sub` on indices, and the walk over the two lists.
use anchor_staking_relayer.Prelude.{
  ℕ, zero, suc, ◌+◌, ◌-◌, ◌≤◌, ◌<◌, ◌≡◌, refl, sym, ◌∙◌, Option, none, some, [], ◌∷◌, ◌++◌, length,
  arith,
}
use anchor_staking_relayer.Outcome.{ok, err, panic}
use anchor_staking_relayer.BigNumber.{BigNumber}
use anchor_staking_relayer.Platform.{StdResult}
use anchor_staking_relayer.Tokens.{Token, Tokens, sort_tokens, sub_loop, sub_finish, sub}
use anchor_staking_relayer.Tokens.While.Arrays.{
  set_amount, set_amount-append, length-append, append_snoc, in_bounds, get_here, rest_snoc,
  length_snoc, out_of_bounds,
}
use anchor_staking_relayer.Tokens.While.{sub_while, sub_end, sub_by_index}
use anchor_staking_relayer.Tokens.While.AssertLaws.{assert_by_index-assert}

-- The index at which what is left of `tokens` begins.
abbrev position : Tokens → StdResult Tokens → StdResult ℕ
position tokens (ok rest) = ok (length tokens - length rest)
position tokens (err e) = err e
position tokens panic = panic

module _ (n : BigNumber) (tokens : Tokens) where
  -- What the loop leaves from the indices at which `rs` and `rt` begin.
  abbrev left_by : Tokens → Tokens → Tokens → Option (Tokens × StdResult ℕ)
  left_by ps rs rt = some (ps ++ (sub_loop n rs rt).0, position tokens (sub_loop n rs rt).1)

  -- One round, with what follows it.
  module _ (fuel : ℕ) (self : Tokens) (i j : ℕ) (ps pt : Tokens) (s : Token) (rs : Tokens)
      (t : Token) (rt : Tokens) (es : self ≡ ps ++ s ∷ rs) (et : tokens ≡ pt ++ t ∷ rt)
      (ei : i ≡ length ps) (ej : j ≡ length pt)
      (matched : (d : ℕ)
        → sub_while n tokens fuel (set_amount i d self) (i + 1) (j + 1)
          ≡ left_by (ps ++ (s.0, d) ∷ []) rs rt)
      (skipped : sub_while n tokens fuel self (i + 1) j ≡ left_by (ps ++ s ∷ []) rs (t ∷ rt)) where
    sub_round_of :
        (o : Option ℕ)
        → n.sub s.1 t.1 ≡ o
        → sub_while n tokens (suc fuel) self i j ≡ left_by ps (s ∷ rs) (t ∷ rt)
    unfolding sub_while sub_loop
    sub_round_of none e = ground (
      arith,
      in_bounds ps s rs self i es ei,
      get_here ps s rs self i es ei,
      in_bounds pt t rt tokens j et ej,
      get_here pt t rt tokens j et ej,
      skipped,
      append_snoc ps s (sub_loop n rs (t ∷ rt)).0,
    )
    sub_round_of (some d) e = ground (
      arith,
      in_bounds ps s rs self i es ei,
      get_here ps s rs self i es ei,
      in_bounds pt t rt tokens j et ej,
      get_here pt t rt tokens j et ej,
      skipped,
      append_snoc ps s (sub_loop n rs (t ∷ rt)).0,
      matched d,
      append_snoc ps (s.0, d) (sub_loop n rs rt).0,
    )

  sub_while-sub_loop :
      (fuel : ℕ) (self : Tokens) (i j : ℕ) (ps pt rs rt : Tokens)
      → self ≡ ps ++ rs
      → tokens ≡ pt ++ rt
      → i ≡ length ps
      → j ≡ length pt
      → length rs + length rt < fuel
      → sub_while n tokens fuel self i j ≡ left_by ps rs rt
  unfolding sub_while sub_loop
  sub_while-sub_loop zero self i j ps pt rs rt es et ei ej h = absurd (omega arith)
  sub_while-sub_loop (suc fuel) self i j ps pt [] rt es et ei ej h =
      ground (arith, out_of_bounds ps self i es ei, length-append pt rt)
  sub_while-sub_loop (suc fuel) self i j ps pt (s ∷ rs) [] es et ei ej h =
      ground (arith, out_of_bounds pt tokens j et ej, length-append pt [])
  sub_while-sub_loop (suc fuel) self i j ps pt (s ∷ rs) (t ∷ rt) es et ei ej h =
      sub_round_of fuel self i j ps pt s rs t rt es et ei ej
        (λ d.
          sub_while-sub_loop fuel (set_amount i d self) (i + 1) (j + 1) (ps ++ (s.0, d) ∷ [])
            (pt ++ t ∷ []) rs rt
            (rw (es, ei) (set_amount-append ps d s rs ∙ sym (append_snoc ps (s.0, d) rs)))
            (rest_snoc pt t rt tokens j et ej) (length_snoc ps (s.0, d) rs _ i refl ei)
            (length_snoc pt t rt tokens j et ej) (omega arith))
        (sub_while-sub_loop fuel self (i + 1) j (ps ++ s ∷ []) pt rs (t ∷ rt)
          (rest_snoc ps s rs self i es ei) et (length_snoc ps s rs self i es ei) ej (omega arith))
        (n.sub s.1 t.1) refl

left-le :
    (n : BigNumber) (rs rt rest : Tokens) → (sub_loop n rs rt).1 ≡ ok rest → length rest ≤ length rt
unfolding sub_loop
left-le n [] rt rest e = ground arith
left-le n (s ∷ rs) [] rest e = ground arith
left-le n (s ∷ rs) (t ∷ rt) rest e =
    ground (arith, left-le n rs rt rest, left-le n rs (t ∷ rt) rest)

end_of :
    (tokens self : Tokens) (r : StdResult Tokens)
    → ((rest : Tokens) → r ≡ ok rest → length rest ≤ length tokens)
    → sub_end tokens (self, position tokens r) ≡ sub_finish (self, r)
unfolding sub_end sub_finish
end_of tokens self (ok []) h = ground arith
end_of tokens self (ok (t ∷ rest)) h = ground (arith, h (t ∷ rest) refl)
end_of tokens self (err e) h = refl
end_of tokens self panic h = refl

-- The loops of `sub` end, for any two lists and any arithmetic: of `assert_duplicate_token` within
-- as many rounds as the list has entries, and the loop over both lists within one more than they have
-- together. No read is out of bounds: written on indices, `sub` ends in what the model on the
-- suffixes of the lists ends in, and leaves the same list.
pub sub_by_index-sub :
    (n : BigNumber) (self tokens : Tokens) → sub_by_index n self tokens ≡ some (sub n self tokens)
unfolding sub_by_index sub
sub_by_index-sub n self tokens = ground (
  arith,
  assert_by_index-assert (sort_tokens self),
  assert_by_index-assert (sort_tokens tokens),
  sub_while-sub_loop n (sort_tokens tokens)
      (length (sort_tokens self) + length (sort_tokens tokens) + 1) (sort_tokens self) 0 0 [] []
      (sort_tokens self) (sort_tokens tokens) refl refl refl refl (omega arith),
  end_of (sort_tokens tokens) (sub_loop n (sort_tokens self) (sort_tokens tokens)).0
      (sub_loop n (sort_tokens self) (sort_tokens tokens)).1
      (left-le n (sort_tokens self) (sort_tokens tokens)),
)
