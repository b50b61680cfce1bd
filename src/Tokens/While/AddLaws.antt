-- ===== src/Tokens/While/AddLaws.antt =====
-- `add` on indices, and the walk over the two lists.
use anchor_staking_relayer.Prelude.{
  ℕ, zero, suc, ◌+◌, ◌<◌, ◌≡◌, refl, ap, Option, none, some, [], ◌∷◌, ◌++◌, length, arith,
}
use anchor_staking_relayer.Outcome.{ok, err, panic}
use anchor_staking_relayer.BigNumber.{BigNumber}
use anchor_staking_relayer.Platform.{StdResult}
use anchor_staking_relayer.Tokens.{Token, Tokens, sort_tokens, add_loop, add}
use anchor_staking_relayer.Tokens.While.Arrays.{
  length-append, append_snoc, append-nil, in_bounds, get_here, rest_snoc, length_snoc,
  out_of_bounds,
}
use anchor_staking_relayer.Tokens.While.AssertLaws.{assert_by_index-assert}
use anchor_staking_relayer.Tokens.While.{add_while, push_while, add_whiles, add_by_index}

-- What is left is pushed as it stands.
push_while-append :
    (fuel : ℕ) (ts tmp : Tokens) (i : ℕ) (ps rs : Tokens)
    → ts ≡ ps ++ rs
    → i ≡ length ps
    → length rs < fuel
    → push_while ts fuel tmp i ≡ some (ok (tmp ++ rs))
unfolding push_while
push_while-append zero ts tmp i ps rs es ei h = absurd (omega arith)
push_while-append (suc fuel) ts tmp i ps [] es ei h =
    ground (arith, out_of_bounds ps ts i es ei, append-nil tmp)
push_while-append (suc fuel) ts tmp i ps (t ∷ rs) es ei h = ground (
  arith,
  in_bounds ps t rs ts i es ei,
  get_here ps t rs ts i es ei,
  append_snoc tmp t rs,
  push_while-append fuel ts (tmp ++ t ∷ []) (i + 1) (ps ++ t ∷ []) rs (rest_snoc ps t rs ts i es ei)
      (length_snoc ps t rs ts i es ei) (omega arith),
)

-- The second and third loop, from where the first has stopped.
abbrev pushes : Tokens → Tokens → Option (StdResult (Tokens × ℕ × ℕ)) → Option (StdResult Tokens)
pushes self tokens none = none
pushes self tokens (some (err e)) = some (err e)
pushes self tokens (some panic) = some panic
pushes self tokens (some (ok (merged, i, j))) =
    elim (push_while tokens (length tokens + 1) merged j) [
      | none ↦ none
      | some (err e) ↦ some (err e)
      | some panic ↦ some panic
      | some (ok pushed) ↦ push_while self (length self + 1) pushed i
    ]

-- What is pushed behind `tmp`.
abbrev behind : Tokens → StdResult Tokens → StdResult Tokens
behind tmp (ok pushed) = ok (tmp ++ pushed)
behind tmp (err e) = err e
behind tmp panic = panic

module _ (n : BigNumber) (self tokens : Tokens) where
  module _ (fuel i j : ℕ) (tmp ps pt : Tokens) (s : Token) (rs : Tokens) (t : Token) (rt : Tokens)
      (es : self ≡ ps ++ s ∷ rs) (et : tokens ≡ pt ++ t ∷ rt) (ei : i ≡ length ps)
      (ej : j ≡ length pt)
      (matched : (d : ℕ)
        → pushes self tokens (add_while n self tokens fuel (tmp ++ (s.0, d) ∷ []) (i + 1) (j + 1))
          ≡ some (behind (tmp ++ (s.0, d) ∷ []) (add_loop n rs rt)))
      (ahead : pushes self tokens (add_while n self tokens fuel (tmp ++ s ∷ []) (i + 1) j)
        ≡ some (behind (tmp ++ s ∷ []) (add_loop n rs (t ∷ rt))))
      (behind_it : pushes self tokens (add_while n self tokens fuel (tmp ++ t ∷ []) i (j + 1))
        ≡ some (behind (tmp ++ t ∷ []) (add_loop n (s ∷ rs) rt))) where
    -- What is pushed first stands first.
    behind_snoc :
        (x : Token) (r : StdResult Tokens)
        → behind (tmp ++ x ∷ []) r
          ≡ behind tmp (elim r [ ok pushed ↦ ok (x ∷ pushed) | err e ↦ err e | panic ↦ panic ])
    behind_snoc x (ok pushed) = ap ok (append_snoc tmp x pushed)
    behind_snoc x (err e) = refl
    behind_snoc x panic = refl

    add_round_of :
        (o : Option ℕ)
        → n.add s.1 t.1 ≡ o
        → pushes self tokens (add_while n self tokens (suc fuel) tmp i j)
          ≡ some (behind tmp (add_loop n (s ∷ rs) (t ∷ rt)))
    unfolding add_while add_loop
    add_round_of none e = ground (
      arith,
      in_bounds ps s rs self i es ei,
      get_here ps s rs self i es ei,
      in_bounds pt t rt tokens j et ej,
      get_here pt t rt tokens j et ej,
      ahead,
      behind_it,
      behind_snoc s (add_loop n rs (t ∷ rt)),
      behind_snoc t (add_loop n (s ∷ rs) rt),
    )
    add_round_of (some d) e = ground (
      arith,
      in_bounds ps s rs self i es ei,
      get_here ps s rs self i es ei,
      in_bounds pt t rt tokens j et ej,
      get_here pt t rt tokens j et ej,
      ahead,
      behind_it,
      matched d,
      behind_snoc s (add_loop n rs (t ∷ rt)),
      behind_snoc t (add_loop n (s ∷ rs) rt),
      behind_snoc (s.0, d) (add_loop n rs rt),
    )

  add_whiles-add_loop :
      (fuel i j : ℕ) (tmp ps pt rs rt : Tokens)
      → self ≡ ps ++ rs
      → tokens ≡ pt ++ rt
      → i ≡ length ps
      → j ≡ length pt
      → length rs + length rt < fuel
      → pushes self tokens (add_while n self tokens fuel tmp i j)
        ≡ some (behind tmp (add_loop n rs rt))
  unfolding add_while add_loop
  add_whiles-add_loop zero i j tmp ps pt rs rt es et ei ej h = absurd (omega arith)
  add_whiles-add_loop (suc fuel) i j tmp ps pt [] rt es et ei ej h = ground (
    arith,
    out_of_bounds ps self i es ei,
    length-append pt rt,
    push_while-append (length tokens + 1) tokens tmp j pt rt et ej
        (omega (arith, length-append pt rt, ap length et)),
    push_while-append (length self + 1) self (tmp ++ rt) i ps [] es ei (omega arith),
    append-nil (tmp ++ rt),
  )
  add_whiles-add_loop (suc fuel) i j tmp ps pt (s ∷ rs) [] es et ei ej h = ground (
    arith,
    out_of_bounds pt tokens j et ej,
    push_while-append (length tokens + 1) tokens tmp j pt [] et ej (omega arith),
    append-nil tmp,
    push_while-append (length self + 1) self tmp i ps (s ∷ rs) es ei
        (omega (arith, length-append ps (s ∷ rs), ap length es)),
  )
  add_whiles-add_loop (suc fuel) i j tmp ps pt (s ∷ rs) (t ∷ rt) es et ei ej h =
      add_round_of fuel i j tmp ps pt s rs t rt es et ei ej
        (λ d.
          add_whiles-add_loop fuel (i + 1) (j + 1) (tmp ++ (s.0, d) ∷ []) (ps ++ s ∷ [])
            (pt ++ t ∷ []) rs rt (rest_snoc ps s rs self i es ei) (rest_snoc pt t rt tokens j et ej)
            (length_snoc ps s rs self i es ei) (length_snoc pt t rt tokens j et ej) (omega arith))
        (add_whiles-add_loop fuel (i + 1) j (tmp ++ s ∷ []) (ps ++ s ∷ []) pt rs (t ∷ rt)
          (rest_snoc ps s rs self i es ei) et (length_snoc ps s rs self i es ei) ej (omega arith))
        (add_whiles-add_loop fuel i (j + 1) (tmp ++ t ∷ []) ps (pt ++ t ∷ []) (s ∷ rs) rt es
          (rest_snoc pt t rt tokens j et ej) ei (length_snoc pt t rt tokens j et ej) (omega arith))
        (n.add s.1 t.1) refl

behind_nil : (r : StdResult Tokens) → behind [] r ≡ r
behind_nil (ok pushed) = refl
behind_nil (err e) = refl
behind_nil panic = refl

-- The loops of `add` end, for any two lists and any arithmetic: of `assert_duplicate_token` within
-- as many rounds as the list has entries, the loop over both lists within one more than they have
-- together, and each loop that pushes the rest of a list within one more than the list has. No read
-- is out of bounds: written on indices, `add` ends in what the model on the suffixes of the lists
-- ends in, and leaves the same list.
pub add_by_index-add :
    (n : BigNumber) (self tokens : Tokens) → add_by_index n self tokens ≡ some (add n self tokens)
unfolding add_by_index add add_whiles
add_by_index-add n self tokens = ground (
  arith,
  assert_by_index-assert (sort_tokens self),
  assert_by_index-assert (sort_tokens tokens),
  add_whiles-add_loop n (sort_tokens self) (sort_tokens tokens)
      (length (sort_tokens self) + length (sort_tokens tokens) + 1) 0 0 [] [] [] (sort_tokens self)
      (sort_tokens tokens) refl refl refl refl (omega arith),
  behind_nil (add_loop n (sort_tokens self) (sort_tokens tokens)),
)
