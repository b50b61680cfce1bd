-- ===== src/Handler/Keeps.antt =====
-- What a handler leaves as it was, whatever it ends in.
use anchor_staking_relayer.Prelude.{◌≡◌, refl, ◌∙◌, arith}
use anchor_staking_relayer.Outcome.{Outcome, ok, err, panic}
use anchor_staking_relayer.Platform.{StdResult}
use anchor_staking_relayer.MarketState.{ContractError}
use anchor_staking_relayer.Handler.{Handler, ◌>>=◌, writes}

-- What is read off the storage by `view` is the same after `m` as before.
abbrev pub Keeps : {S O A : Type 0} → (S → O) → Handler S A → Type 0
Keeps view m = (s : _) → view (m s).1 ≡ view s

module _ {S O : Type 0} (view : S → O) where
  pub Keeps-bind :
      {A B : Type 0}
      → (m : Handler S A) (f : A → Handler S B) → Keeps view m
      → ((a : A) → Keeps view (f a))
      → Keeps view (m >>= f)
  Keeps-bind {A = A} m f first next s = Keeps-rest (m s) (first s)
    where
      Keeps-rest :
          (r : Outcome ContractError A × S)
          → view r.1 ≡ view s
          → view (((λ t. r) >>= f) s).1 ≡ view s
      Keeps-rest (ok a, s') same = next a s' ∙ same
      Keeps-rest (err e, s') same = same
      Keeps-rest (panic, s') same = same

  pub Keeps-writes :
      (f : S → StdResult S) → ((s s' : S) → f s ≡ ok s' → view s' ≡ view s) → Keeps view (writes f)
  Keeps-writes f kept s = Keeps-written (f s) refl
    where
      Keeps-written : (r : StdResult S) → f s ≡ r → view (writes f s).1 ≡ view s
      Keeps-written (ok s') e = ground (arith, e, kept s s' e)
      Keeps-written (err x) e = ground (arith, e)
      Keeps-written panic e = ground (arith, e)

-- A step that only reads.
pub step-Keeps :
    {S O A B : Type 0} (view : S → O) (s : S) (r : Outcome ContractError A)
    (rest : A → Outcome ContractError B × S)
    → ((a : A) → view (rest a).1 ≡ view s)
    → view (((λ t. (r, t)) >>= λ a t. rest a) s).1 ≡ view s
step-Keeps view s (ok a) rest kept = kept a
step-Keeps view s (err e) rest kept = refl
step-Keeps view s panic rest kept = refl

-- A call that succeeded went on where its first step ended.
pub bind_succeeds :
    {S A B : Type 0}
    → (m : Handler S A) (f : A → Handler S B) (s s' : S) (b : B) → (m >>= f) s ≡ (ok b, s')
    → (a : A) × (s1 : S) × (m s ≡ (ok a, s1)) × (f a s1 ≡ (ok b, s'))
bind_succeeds m f s s' b done = went_on (m s) refl
  where
    went_on : (r : _) → m s ≡ r → (a : _) × (s1 : _) × (m s ≡ (ok a, s1)) × (f a s1 ≡ (ok b, s'))
    went_on (ok a, s1) e = (a, s1, e, ground (arith, e, done))
    went_on (err x, s1) e = absurd (ground (arith, e, done))
    went_on (panic, s1) e = absurd (ground (arith, e, done))
