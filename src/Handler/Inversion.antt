-- ===== src/Handler/Inversion.antt =====
-- Where a call that succeeded went on, step by step.
use anchor_staking_relayer.Prelude.{◌≡◌, refl, Bool, true, false, Option, none, some, arith}
use anchor_staking_relayer.Outcome.{Outcome, ok, err, panic, or_panic}
use anchor_staking_relayer.Platform.{StdResult}
use anchor_staking_relayer.MarketState.{ContractError}
use anchor_staking_relayer.Handler.{lift, ◌>>=◌, raise_if, writes}

-- Where a call went on: after a `?`, after the test of a condition, and after a write.
module _ {S B : Type 0} (s s' : S) {b : B} where
  pub lift_inv :
      {A : Type 0} (r : StdResult A) (rest : A → Outcome ContractError B × S)
      → (lift r >>= λ a t. rest a) s ≡ (ok b, s')
      → (a : A) × (r ≡ ok a) × (rest a ≡ (ok b, s'))
  lift_inv (ok a) rest done = (a, refl, done)
  lift_inv (err e) rest done = absurd (ground arith)
  lift_inv panic rest done = absurd (ground arith)

  pub known_inv :
      {A : Type 0} (r : StdResult A) (a : A) (rest : A → Outcome ContractError B × S)
      → r ≡ ok a
      → (lift r >>= λ x t. rest x) s ≡ (ok b, s')
      → rest a ≡ (ok b, s')
  known_inv r a rest e done = ground (arith, e, done)

  pub panic_inv :
      {A : Type 0} (r : Option A) (rest : A → Outcome ContractError B × S)
      → (lift (or_panic r) >>= λ a t. rest a) s ≡ (ok b, s')
      → (a : A) × (r ≡ some a) × (rest a ≡ (ok b, s'))
  panic_inv (some a) rest done = (a, refl, done)
  panic_inv none rest done = absurd (ground arith)

  pub raise_inv :
      (c : Bool) (e : ContractError) (rest : Unit {0} → Outcome ContractError B × S)
      → (raise_if c e >>= λ a t. rest a) s ≡ (ok b, s')
      → (c ≡ false) × (rest tt ≡ (ok b, s'))
  raise_inv false e rest done = (refl, done)
  raise_inv true e rest done = absurd (ground arith)

  pub check_inv :
      (r : Outcome ContractError (Unit {0})) (rest : Unit {0} → Outcome ContractError B × S)
      → ((λ t. (r, t)) >>= λ a t. rest a) s ≡ (ok b, s')
      → (r ≡ ok tt) × (rest tt ≡ (ok b, s'))
  check_inv (ok tt) rest done = (refl, done)
  check_inv (err e) rest done = absurd (ground arith)
  check_inv panic rest done = absurd (ground arith)

  -- The last step of a call.
  pub last_inv : (r : Option B) → lift (or_panic r) s ≡ (ok b, s') → (r ≡ some b) × (s' ≡ s)
  last_inv (some a) done = (ground (arith, done), ground (arith, done))
  last_inv none done = absurd (ground arith)

pub writes_inv :
    {S : Type 0} (f : S → StdResult S) (s s' : S) → writes f s ≡ (ok tt, s') → f s ≡ ok s'
writes_inv f s s' done = written (f s) refl
  where
    written : (r : StdResult _) → f s ≡ r → f s ≡ ok s'
    written (ok t) e = ground (arith, e, done)
    written (err x) e = absurd (ground (arith, e, done))
    written panic e = absurd (ground (arith, e, done))
