-- ===== src/Handler.antt =====
-- A call of the contract: it may write to its storage, and returns a value or an error, or panics.
-- What was written before an error stays written until the platform drops it.
pub mod Keeps
pub mod Inversion
use anchor_staking_relayer.Prelude.{Bool, if◌then◌else◌}
use anchor_staking_relayer.Outcome.{Outcome, ok, err, panic}
use anchor_staking_relayer.Platform.{StdResult}
use anchor_staking_relayer.MarketState.{ContractError, std}

abbrev pub Handler : Type 0 → Type 0 → Type 0
Handler S A = S → Outcome ContractError A × S

-- `?` on a `StdResult`.
abbrev pub from_std : {A : Type 0} → StdResult A → Outcome ContractError A
from_std (ok a) = ok a
from_std (err e) = err (std e)
from_std panic = panic

module _ {S A : Type 0} where
  abbrev pub pure : A → Handler S A
  pure a s = (ok a, s)

  abbrev pub fail : ContractError → Handler S A
  fail e s = (err e, s)

  abbrev pub lift : StdResult A → Handler S A
  lift r s = (from_std r, s)

  -- A step that reads the storage.
  abbrev pub reads : (S → StdResult A) → Handler S A
  reads f s = (from_std (f s), s)

infixl 5 ◌>>=◌ ◌>>◌
abbrev pub ◌>>=◌ : {S A B : Type 0} → Handler S A → (A → Handler S B) → Handler S B
◌>>=◌ m f s =
    let (r, s') = m s in elim r [ ok a ↦ f a s' | err e ↦ (err e, s') | panic ↦ (panic, s') ]

abbrev pub ◌>>◌ : {S B : Type 0} → Handler S (Unit {0}) → Handler S B → Handler S B
m >> k = m >>= λ _. k

abbrev pub raise_if : {S : Type 0} → Bool → ContractError → Handler S (Unit {0})
raise_if c e s = (if c then err e else ok tt, s)

-- A write to the storage, which stays as it was if the write fails.
abbrev pub writes : {S : Type 0} → (S → StdResult S) → Handler S (Unit {0})
writes f s = elim (f s) [ ok s' ↦ (ok tt, s') | err e ↦ (err (std e), s) | panic ↦ (panic, s) ]
