-- ===== src/Tokens/Bag.antt =====
-- Lists of tokens up to the order of their entries, and `add` of packages/moneymarket/src/tokens.rs
-- on them.
use mathlib.Core.Equiv.{IsContr}
use mathlib.Core.HLevel.{Σ_prop_path, Π_prop}
use mathlib.Core.List.{Perm}
use mathlib.Core.List.Perm
use mathlib.Core.Quot
use mathlib.Core.Quot.{Quot, Quot-set}
use native.Mathlib.Nat.{ℕ_set}
use anchor_staking_relayer.Prelude.{◌≡◌, refl, sym, ◌∙◌}
use anchor_staking_relayer.BigNumber.{BigNumber}
use anchor_staking_relayer.Platform.{StdResult}
use anchor_staking_relayer.Tokens.{Tokens, add}
use anchor_staking_relayer.Tokens.Order.{add-Perm}

abbrev pub Bag : Type 0
Bag = Quot {α = Tokens} Perm

result_set : IsSet (StdResult Tokens)
result_set = hlevel ℕ_set

module _ (n : BigNumber) where
  -- A function on bags gives for two lists what `add` gives.
  abbrev pub Adds : (Bag → Bag → StdResult Tokens) → Type 0
  Adds f = (ts us : Tokens) → f (Quot.mk ts) (Quot.mk us) ≡ add n ts us

  add_to : Tokens → Bag → StdResult Tokens
  add_to ts = Quot.lift result_set (add n ts) (λ us us' p. add-Perm n (Perm.refl ts) p)

  add_to-Perm : (ts ts' : Tokens) → Perm ts ts' → (b : Bag) → add_to ts b ≡ add_to ts' b
  unfolding add_to
  add_to-Perm ts ts' p = Quot.ind (λ b. result_set _ _) (λ us. add-Perm n p (Perm.refl us))

  -- `add` on two bags.
  add_bags : Bag → Bag → StdResult Tokens
  add_bags b c = Quot.lift result_set (λ ts. add_to ts c) (λ ts ts' p. add_to-Perm ts ts' p c) b

  add_bags-Adds : Adds add_bags
  unfolding add_bags add_to
  add_bags-Adds ts us = refl

  Adds-unique : (f g : Bag → Bag → StdResult Tokens) → Adds f → Adds g → f ≡ g
  Adds-unique f g hf hg =
      let same : (b c : Bag) → f b c ≡ g b c =
        Quot.ind (λ b. Π_prop (λ c. result_set _ _))
          (λ ts. Quot.ind (λ c. result_set _ _) (λ us. hf ts us ∙ sym (hg ts us))) in
      λ i b c. same b c i

  -- `add` is a function of bags: exactly one function on lists up to the order of their entries gives
  -- for any two lists what `add` gives.
  pub add-IsContr : IsContr ((f : Bag → Bag → StdResult Tokens) × Adds f)
  add-IsContr = (
    (add_bags, add_bags-Adds),
    λ x.
        Σ_prop_path (λ f. Π_prop (λ ts. Π_prop (λ us. result_set _ _)))
          (Adds-unique x.0 add_bags x.1 add_bags-Adds),
  )
