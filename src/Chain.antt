-- ===== src/Chain.antt =====
-- The contract on the chain: the entry point `execute` of src/contract.rs with the platform around
-- it, which answers its queries and carries out the messages of its responses. The platform is a
-- parameter.
pub mod Effects
pub mod Deposits
pub mod Redemptions
mod Tests
use anchor_staking_relayer.Prelude.{
  ℕ, ◌+◌, ◌<◌, ◌≡◌, ◌≢◌, refl, arith, Option, none, some, List, [], ◌∷◌,
}
use anchor_staking_relayer.Bytes.{Text}
use anchor_staking_relayer.Outcome.{ok}
use anchor_staking_relayer.BigNumber.{BigNumber, uint128_values}
use anchor_staking_relayer.Platform.{
  StdResult, Binary, Coin, CosmosMsg, wasm_execute, bank_send, mint, burn, RoundTrips,
}
use anchor_staking_relayer.Deps.{Deps, QueryRequest}
use anchor_staking_relayer.MarketState.{Config}
use anchor_staking_relayer.Querier.{query_balance, query_supply}
use anchor_staking_relayer.Querier.Tax.{chain_tax}

-- The messages of a response, carried out one after the other, on the supply of aTerra and on what
-- the contract holds of the stable coin; `none` is a failure of one.
abbrev pub deliver_all :
    (CosmosMsg → ℕ × ℕ → Option (ℕ × ℕ)) → List CosmosMsg → ℕ × ℕ → Option (ℕ × ℕ)
deliver_all deliver [] amounts = some amounts
deliver_all deliver (m ∷ ms) amounts = elim (deliver m amounts) [
  | none ↦ none
  | some amounts' ↦ deliver_all deliver ms amounts'
]

-- A conversion to 128 bits panics or keeps the number, which then is of 128 bits.
pub record IsNarrowing (n : BigNumber) : Type 0 where
  pub kept : (a b : ℕ) → n.into_uint128 a ≡ some b → (b ≡ a) × (b < uint128_values)

-- The platform with a supply of aTerra and a balance of the contract.
abbrev pub deps_at : Deps → (ℕ → ℕ → QueryRequest → StdResult Binary) → ℕ → ℕ → Deps
deps_at d chain supply held = record d { raw_query = chain supply held }

pub deliver_one :
    (deliver : CosmosMsg → ℕ × ℕ → Option (ℕ × ℕ)) (m : CosmosMsg) (a b : ℕ × ℕ)
    → deliver_all deliver (m ∷ []) a ≡ some b
    → deliver m a ≡ some b
deliver_one deliver m a b h = delivered (deliver m a) refl
  where
    delivered : (r : Option (ℕ × ℕ)) → deliver m a ≡ r → deliver m a ≡ some b
    delivered none e = absurd (ground (arith, e, h))
    delivered (some c) e = ground (arith, e, h)

-- Of two messages the first is carried out and then the second.
pub deliver_two :
    (deliver : CosmosMsg → ℕ × ℕ → Option (ℕ × ℕ)) (m m' : CosmosMsg) (a b : ℕ × ℕ)
    → deliver_all deliver (m ∷ m' ∷ []) a ≡ some b
    → (c : ℕ × ℕ) × (deliver m a ≡ some c) × (deliver m' c ≡ some b)
deliver_two deliver m m' a b h = first (deliver m a) refl
  where
    first :
        (r : Option (ℕ × ℕ))
        → deliver m a ≡ r
        → (c : ℕ × ℕ) × (deliver m a ≡ some c) × (deliver m' c ≡ some b)
    first none e = absurd (ground (arith, e, h))
    first (some c) e = (c, e, deliver_one deliver m' c b (ground (arith, e, h)))

module _ (d : Deps) (chain : ℕ → ℕ → QueryRequest → StdResult Binary)
    (deliver : CosmosMsg → ℕ × ℕ → Option (ℕ × ℕ)) (config : Config) (contract : Text) where
  -- What the platform is relied upon for: it knows the addresses of the config, reports the supply
  -- and the balance, mints and burns what the messages to the aTerra token say, and takes a payment
  -- to someone else and its tax off the balance.
  pub record IsPlatform (aterra : Text) (tax limit : ℕ) : Type 0 where
    pub aterra_known : d.api.addr_humanize config.aterra_contract ≡ ok aterra
    pub contract_known : d.api.addr_humanize config.contract_addr ≡ ok contract
    pub trips : RoundTrips d.cw20_execute_msg
    pub supplied : (supply held : ℕ) → query_supply (deps_at d chain supply held) aterra ≡ ok supply
    pub holds :
        (supply held : ℕ)
        → query_balance (deps_at d chain supply held) contract config.stable_denom ≡ ok held
    pub taxed : d.tax_rate ≡ ok tax
    pub capped : d.tax_cap config.stable_denom ≡ ok limit
    pub tax_fits : tax < uint128_values
    pub mints :
        (msg : Binary) (recipient : Text) (amount supply held : ℕ) (after : ℕ × ℕ)
        → d.cw20_execute_msg.from_binary msg ≡ ok (mint recipient amount)
        → deliver (wasm_execute aterra [] msg) (supply, held) ≡ some after
        → (after.0 ≡ supply + amount) × (after.1 ≡ held)
    pub burns :
        (msg : Binary) (amount supply held : ℕ) (after : ℕ × ℕ)
        → d.cw20_execute_msg.from_binary msg ≡ ok (burn amount)
        → deliver (wasm_execute aterra [] msg) (supply, held) ≡ some after
        → (after.0 + amount ≡ supply) × (after.1 ≡ held)
    pub pays :
        (to : Text) (coin : Coin) (supply held : ℕ) (after : ℕ × ℕ)
        → to ≢ contract
        → coin.denom ≡ config.stable_denom
        → deliver (bank_send to (coin ∷ [])) (supply, held) ≡ some after
        → (after.0 ≡ supply) × (after.1 + (coin.amount + chain_tax tax limit coin.amount) ≡ held)
