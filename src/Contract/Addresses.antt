-- ===== src/Contract/Addresses.antt =====
-- The addresses in the messages of `execute`, and what the platform says of them.
use anchor_staking_relayer.Prelude.{◌≡◌, refl, Option, none, some, arith}
use anchor_staking_relayer.Bytes.{Text}
use anchor_staking_relayer.Outcome.{Outcome, ok, err, panic}
use anchor_staking_relayer.BigNumber.{BigNumber}
use anchor_staking_relayer.Platform.{StdResult, Api, Response, Env, MessageInfo}
use anchor_staking_relayer.Deps.{Deps}
use anchor_staking_relayer.Market.{
  ExecuteMsg, register_contracts, update_config, repay_stable_from_liquidation,
}
use anchor_staking_relayer.MarketState.{ContractError, Store, Borrow}
use anchor_staking_relayer.Common.{optional_addr_validate}
use anchor_staking_relayer.Handler.{lift, ◌>>=◌}
use anchor_staking_relayer.Contract.{Handlers, HasArm, execute}

-- The platform takes the text for an address.
abbrev pub IsAddress : Api → Text → Type 0
IsAddress api t = (a : Text) × (api.addr_validate t ≡ ok a)

abbrev pub IsOptionalAddress : Api → Option Text → Type 0
IsOptionalAddress api none = Unit
IsOptionalAddress api (some t) = IsAddress api t

-- A call that went on after a `?` had a value there.
lift_succeeds :
    {S A B : Type 0}
    → (r : StdResult A) (rest : A → Outcome ContractError B × S) (s : S) {b : B}
    → ((lift r >>= λ a t. rest a) s).0 ≡ ok b
    → (a : A) × (r ≡ ok a) × ((rest a).0 ≡ ok b)
lift_succeeds (ok a) rest s done = (a, refl, done)
lift_succeeds (err e) rest s done = absurd (ground arith)
lift_succeeds panic rest s done = absurd (ground arith)

valid_option :
    (api : Api) (o : Option Text) {a : Option Text}
    → optional_addr_validate api o ≡ ok a
    → IsOptionalAddress api o
unfolding optional_addr_validate
valid_option api none e = tt
valid_option api (some t) e = valid_text (api.addr_validate t) refl
  where
    valid_text : (r : StdResult Text) → api.addr_validate t ≡ r → IsAddress api t
    valid_text (ok a) known = (a, known)
    valid_text (err x) known = absurd (ground (arith, known, e))
    valid_text panic known = absurd (ground (arith, known, e))

-- What `execute` checks of the addresses in a message.
abbrev pub HasAddresses : Api → ExecuteMsg → Type 0
HasAddresses api (register_contracts m) =
    IsAddress api m.overseer_contract
    × IsAddress api m.interest_model
    × IsAddress api m.distribution_model
    × IsAddress api m.collector_contract
    × IsAddress api m.distributor_contract
HasAddresses api (update_config m) =
    IsOptionalAddress api m.owner_addr
    × IsOptionalAddress api m.interest_model
    × IsOptionalAddress api m.distribution_model
HasAddresses api (repay_stable_from_liquidation borrower prev_balance) = IsAddress api borrower
HasAddresses api m = Unit

module _ {S : Type 0} (n : BigNumber) (d : Deps) (store : Store S) (borrow : Borrow S)
    (h : Handlers S) (env : Env) (info : MessageInfo) (s : S) where
  -- A call of `execute` that succeeds, with any message that has an arm, had valid addresses: all
  -- five that `RegisterContracts` names, those that `UpdateConfig` gives, and the borrower of
  -- `RepayStableFromLiquidation`.
  pub execute_validates :
      (m : ExecuteMsg) (arm : HasArm m) {resp : Response}
      → (execute n d store borrow h env info m arm s).0 ≡ ok resp
      → HasAddresses d.api m
  unfolding execute
  execute_validates (register_contracts m) arm done =
      let (a, ea, done_a) = lift_succeeds (d.api.addr_validate m.overseer_contract) _ s done in
      let (b, eb, done_b) = lift_succeeds (d.api.addr_validate m.interest_model) _ s done_a in
      let (c, ec, done_c) = lift_succeeds (d.api.addr_validate m.distribution_model) _ s done_b in
      let (e, ee, done_e) = lift_succeeds (d.api.addr_validate m.collector_contract) _ s done_c in
      let (f, ef, done_f) = lift_succeeds (d.api.addr_validate m.distributor_contract) _ s done_e in
      ((a, ea), (b, eb), (c, ec), (e, ee), (f, ef))
  execute_validates (update_config m) arm done =
      let (a, ea, done_a) = lift_succeeds (optional_addr_validate d.api m.owner_addr) _ s done in
      let (b, eb, done_b) =
        lift_succeeds (optional_addr_validate d.api m.interest_model) _ s done_a in
      let (c, ec, done_c) =
        lift_succeeds (optional_addr_validate d.api m.distribution_model) _ s done_b in
      (valid_option d.api _ ea, valid_option d.api _ eb, valid_option d.api _ ec)
  execute_validates (repay_stable_from_liquidation borrower prev_balance) arm done =
      let (a, ea, done_a) = lift_succeeds (d.api.addr_validate borrower) _ s done in (a, ea)
  execute_validates m arm done = tt
