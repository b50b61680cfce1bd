-- ===== src/Outcome.antt =====
-- What a Rust call ends in: a value, an error value (`Result::Err`), or a panic, which aborts the
-- contract call. `?` is the bind.
use anchor_staking_relayer.Prelude.{◌≡◌, refl, Option, none, some}

pub data Outcome {ℓ κ} (E : Type ℓ) (A : Type κ) : Type (ℓ ⊔ κ) where
  ok : A → Outcome E A
  err : E → Outcome E A
  panic : Outcome E A

module _ {ℓ κ μ} {E : Type ℓ} {A : Type κ} {B : Type μ} where
  infixl 5 ◌>>=◌
  abbrev pub ◌>>=◌ : Outcome E A → (A → Outcome E B) → Outcome E B
  ◌>>=◌ (ok value) next = next value
  ◌>>=◌ (err e) next = err e
  ◌>>=◌ panic next = panic

  -- A `?` that let the call go on had a value, and the rest of the call ended as the whole did.
  pub question_mark :
      (r : Outcome E A) (rest : A → Outcome E B) {result : B}
      → (r >>= rest) ≡ ok result
      → (value : A) × (r ≡ ok value) × (rest value ≡ ok result)
  question_mark (ok value) rest done = (value, refl, done)
  question_mark (err e) rest done = cc
  question_mark panic rest done = cc

-- A call for its effect alone: it can only stop what follows.
infixl 5 ◌>>◌
abbrev pub ◌>>◌ {ℓ κ} : {E : Type ℓ} {B : Type κ} → Outcome E (Unit {0}) → Outcome E B → Outcome E B
◌>>◌ (ok done) next = next
◌>>◌ (err e) next = err e
◌>>◌ panic next = panic

-- An operation of a numeric type that may panic.
abbrev pub or_panic {ℓ κ} : {E : Type ℓ} {A : Type κ} → Option A → Outcome E A
or_panic none = panic
or_panic (some a) = ok a
