-- ===== src/Tokens/Sub.antt =====
-- `TokensMath::sub`: when it succeeds, and what it leaves.
pub mod Laws
use anchor_staking_relayer.Prelude.{
  ◌-◌, ◌≤◌, ◌≡◌, refl, Bool, true, false, [], ◌∷◌, if◌then◌else◌, leb, arith,
}
use anchor_staking_relayer.Bytes.{Bytes, bytes_eq, cmp}
use anchor_staking_relayer.Bytes.Order.{
  bytes_eq-cmp, bytes_eq→eq, bytes_eq_refl, cmp_gt→Before, Before→cmp_gt,
}
use anchor_staking_relayer.Outcome.{ok, err, panic}
use anchor_staking_relayer.BigNumber.{BigNumber, IsExact}
use anchor_staking_relayer.Platform.{StdResult}
use anchor_staking_relayer.Tokens.{Token, Tokens, underflow, sub_loop, sub_finish}
use anchor_staking_relayer.Tokens.Amounts.{amount_of, contains, covers, covered}
use anchor_staking_relayer.Tokens.Sorted.{IsBefore, IsAscending, IsBefore-weaken}
use anchor_staking_relayer.Tokens.Duplicates.{contains-IsBefore, amount_of-IsBefore}

-- What `sub` returns when its loop has ended this way.
abbrev pub verdict : StdResult Tokens → StdResult (Unit {0})
verdict (ok []) = ok tt
verdict (ok (t ∷ tokens)) = err underflow
verdict (err e) = err e
verdict panic = panic

pub sub_finish-verdict : (p : Tokens × StdResult Tokens) → (sub_finish p).1 ≡ verdict p.1
unfolding sub_finish
sub_finish-verdict (self, ok []) = refl
sub_finish-verdict (self, ok (t ∷ tokens)) = refl
sub_finish-verdict (self, err e) = refl
sub_finish-verdict (self, panic) = refl

-- An entry in front of all the tokens is none that they ask for.
covers-skip :
    (s t : Token) (self : Tokens) → bytes_eq t.0 s.0 ≡ false → covers (s ∷ self) t ≡ covers self t
covers-skip s t self h = rw h

covered-skip :
    (s : Token) (self tokens : Tokens)
    → IsBefore s.0 tokens
    → covered (s ∷ self) tokens ≡ covered self tokens
covered-skip s self [] h = refl
covered-skip s self (t ∷ tokens) (h, hs) =
    ground (arith, bytes_eq-cmp t.0 s.0, Before→cmp_gt s.0 t.0, covered-skip s self tokens hs)

module _ (n : BigNumber) where
  -- The loop changes amounts only.
  IsBefore-sub_loop :
      (a : Bytes) (self tokens : Tokens) → IsBefore a self → IsBefore a (sub_loop n self tokens).0
  unfolding sub_loop
  IsBefore-sub_loop a [] tokens h = tt
  IsBefore-sub_loop a (s ∷ self) [] h = h
  IsBefore-sub_loop a (s ∷ self) (t ∷ tokens) (h, hs) =
      ground (arith, IsBefore-sub_loop a self tokens hs, IsBefore-sub_loop a self (t ∷ tokens) hs)

  pub IsAscending-sub_loop :
      (self tokens : Tokens) → IsAscending self → IsAscending (sub_loop n self tokens).0
  unfolding sub_loop
  IsAscending-sub_loop [] tokens h = tt
  IsAscending-sub_loop (s ∷ self) [] h = h
  IsAscending-sub_loop (s ∷ self) (t ∷ tokens) (h, hs) = ground (
    arith,
    IsAscending-sub_loop self tokens hs,
    IsAscending-sub_loop self (t ∷ tokens) hs,
    IsBefore-sub_loop s.0 self tokens h,
    IsBefore-sub_loop s.0 self (t ∷ tokens) h,
  )

  module _ (exact : IsExact n) where
    -- On ascending lists the loop decides `covered`.
    pub verdict-sub_loop :
        (self tokens : Tokens)
        → IsAscending self
        → IsAscending tokens
        → verdict (sub_loop n self tokens).1
          ≡ (if covered self tokens then ok tt else err underflow)
    unfolding sub_loop
    verdict-sub_loop [] [] hs ht = refl
    verdict-sub_loop [] (t ∷ tokens) hs ht = refl
    verdict-sub_loop (s ∷ self) [] hs ht = refl
    verdict-sub_loop (s ∷ self) (t ∷ tokens) (h, hs) (k, ks) = ground (
      arith,
      bytes_eq-cmp s.0 t.0,
      bytes_eq-cmp t.0 s.0,
      bytes_eq→eq s.0 t.0,
      cmp_gt→Before s.0 t.0,
      Before→cmp_gt s.0 t.0,
      exact.sub_exact s.1 t.1,
      covered-skip s self tokens,
      covered-skip s self (t ∷ tokens),
      IsBefore-weaken s.0 t.0 tokens,
      IsBefore-weaken t.0 s.0 self,
      contains-IsBefore t.0 self,
      verdict-sub_loop self tokens hs ks,
      verdict-sub_loop self (t ∷ tokens) hs (k, ks),
    )

    -- What is left of each address, once all the tokens are covered.
    pub amount_of-sub_loop :
        (k : Bytes) (self tokens : Tokens)
        → IsAscending self
        → IsAscending tokens
        → covered self tokens ≡ true
        → amount_of k (sub_loop n self tokens).0 ≡ amount_of k self - amount_of k tokens
    unfolding sub_loop
    amount_of-sub_loop k [] [] hs ht c = refl
    amount_of-sub_loop k [] (t ∷ tokens) hs ht c = cc
    amount_of-sub_loop k (s ∷ self) [] hs ht c = omega arith
    amount_of-sub_loop k (s ∷ self) (t ∷ tokens) (h, hs) (p, ps) c = ground (
      arith,
      bytes_eq-cmp s.0 t.0,
      bytes_eq-cmp t.0 s.0,
      bytes_eq→eq s.0 t.0,
      bytes_eq→eq k s.0,
      bytes_eq→eq k t.0,
      cmp_gt→Before s.0 t.0,
      Before→cmp_gt s.0 t.0,
      exact.sub_exact s.1 t.1,
      covered-skip s self tokens,
      covered-skip s self (t ∷ tokens),
      IsBefore-weaken s.0 t.0 tokens,
      IsBefore-weaken t.0 s.0 self,
      contains-IsBefore t.0 self,
      amount_of-IsBefore s.0 tokens,
      amount_of-sub_loop k self tokens hs ps,
      amount_of-sub_loop k self (t ∷ tokens) hs (p, ps),
    )
