-- ===== src/Deposit/Accrual.antt =====
-- How the state accrued in a call of src/deposit.rs that went on.
use anchor_staking_relayer.Prelude.{ℕ, ◌≡◌, sym, ◌∙◌, ap, Option}
use anchor_staking_relayer.Outcome.{ok}
use anchor_staking_relayer.BigNumber.{BigNumber}
use anchor_staking_relayer.Platform.{Response, Env}
use anchor_staking_relayer.Deps.{Deps}
use anchor_staking_relayer.MarketState.{Config, State, Store, Borrow}
use anchor_staking_relayer.Deposit.{accrued}
use anchor_staking_relayer.Handler.{Handler, ◌>>=◌}
use anchor_staking_relayer.Handler.Keeps.{bind_succeeds}
use anchor_staking_relayer.Handler.Inversion.{lift_inv, last_inv}

module _ {S : Type 0} (n : BigNumber) (d : Deps) (store : Store S) (borrow : Borrow S) (env : Env)
    (config : Config) (s : S) where
  accrued_keeps :
      (amount : Option ℕ) (state : State) (s' : S)
      → accrued n d store borrow env config amount s ≡ (ok state, s')
      → s' ≡ s
  unfolding accrued
  accrued_keeps amount state s' done =
      let (before, e1, d1) = lift_inv s s' (store.read_state s) _ done in
      let (interest, e2, d2) =
        lift_inv s s' (borrow.compute_interest d s config before env.block_height amount) _ d1 in
      (last_inv s s' (borrow.compute_reward interest env.block_height) d2).1

  -- A call that went on had an accrued state, and nothing was written before that.
  pub accrued_inv :
      (amount : Option ℕ) (next : State → Handler S Response) (resp : Response) (s' : S)
      → (accrued n d store borrow env config amount >>= next) s ≡ (ok resp, s')
      → (state : State) × (accrued n d store borrow env config amount s ≡ (ok state, s))
        × (next state s ≡ (ok resp, s'))
  accrued_inv amount next resp s' done =
      let (state, s1, acc, rest) =
        bind_succeeds (accrued n d store borrow env config amount) next s s' resp done in
      let same = accrued_keeps amount state s1 acc in
      (state, acc ∙ ap (λ (t : S). (ok state, t)) same, ap (next state) (sym same) ∙ rest)
