-- ===== src/Contract/Init/Balances.antt =====
-- The loop of `init` over the initial balances.
use anchor_staking_relayer.Prelude.{ℕ, ◌≡◌, refl, List, [], ◌∷◌, if◌then◌else◌, arith, ap, sym, ◌∙◌}
use anchor_staking_relayer.Bytes.{Bytes, bytes_eq}
use anchor_staking_relayer.Outcome.{ok, err, panic}
use anchor_staking_relayer.Platform.{StdResult, Api, Codec, Env, Response, TokenInstantiateMsg}
use anchor_staking_relayer.TokenMsg.{InitialBalance, InitMsg}
use anchor_staking_relayer.TokenState
use anchor_staking_relayer.TokenState.{
  Storage, IsStorage, balance_key, config_set, balance_set, balance_get,
}
use anchor_staking_relayer.TokenState.Laws.{balance_get-balance_set, balance_get-config_set}
use anchor_staking_relayer.Contract.Init.{
  set_balances, initial_state, initial_config, begin_market, set_up_market, set_up,
  instantiate_aterra, init,
}
use anchor_staking_relayer.MarketState
use anchor_staking_relayer.MarketState.{Config, State, Store}
use anchor_staking_relayer.Market.{InstantiateMsg}
use anchor_staking_relayer.Handler.{◌>>◌, writes, lift}
use anchor_staking_relayer.Handler.Keeps.{Keeps, Keeps-bind, Keeps-writes, bind_succeeds}

-- The amount of the last row for an address, and what it had before without one.
abbrev pub listed : Api → Bytes → List InitialBalance → StdResult ℕ → StdResult ℕ
listed api k [] before = before
listed api k (row ∷ rows) before = listed api k rows (elim (api.canonical_address row.address) [
  | ok a ↦ if bytes_eq k a then ok row.amount else before
  | err e ↦ before
  | panic ↦ before
])

module _ {S : Type 0} (api : Api) (storage : Storage S) where
  unchanged : (s s' : S) → set_balances api storage [] s ≡ (ok tt, s') → s' ≡ s
  unfolding set_balances
  unchanged s s' done = ground arith

  -- The round of one row, if the loop ends well.
  saved_row :
      (row : InitialBalance) (rows : List InitialBalance) (s s' : S) (a : Bytes) (w : StdResult S)
      → api.canonical_address row.address ≡ ok a
      → balance_set storage a row.amount s ≡ w
      → set_balances api storage (row ∷ rows) s ≡ (ok tt, s')
      → (s1 : S) × (w ≡ ok s1) × (set_balances api storage rows s1 ≡ (ok tt, s'))
  unfolding set_balances
  saved_row row rows s s' a (ok s1) c b done = (s1, refl, ground (arith, c, b, done))
  saved_row row rows s s' a (err e) c b done = absurd (ground arith)
  saved_row row rows s s' a panic c b done = absurd (ground arith)

  converted_row :
      (row : InitialBalance) (rows : List InitialBalance) (s s' : S) (c : StdResult Bytes)
      → api.canonical_address row.address ≡ c
      → set_balances api storage (row ∷ rows) s ≡ (ok tt, s')
      → (a : Bytes) × (c ≡ ok a)
  unfolding set_balances
  converted_row row rows s s' (ok a) c done = (a, refl)
  converted_row row rows s s' (err e) c done = absurd (ground arith)
  converted_row row rows s s' panic c done = absurd (ground arith)

  module _ (laws : IsStorage storage) (k : Bytes) where
    pub balance_get-set_balances :
        (rows : List InitialBalance) (s s' : S)
        → set_balances api storage rows s ≡ (ok tt, s')
        → balance_get storage k s' ≡ listed api k rows (balance_get storage k s)
    balance_get-set_balances [] s s' done = ap (balance_get storage k) (unchanged s s' done)
    balance_get-set_balances (row ∷ rows) s s' done =
        let (a, c) = converted_row row rows s s' _ refl done in
        let (s1, b, rest) = saved_row row rows s s' a _ c refl done in
        balance_get-set_balances rows s1 s' rest
        ∙ rw (balance_get-balance_set storage laws s s1 a k row.amount b, c) refl

-- The items of the market are not under the keys of a bucket.
pub record IsApart {S : Type 0} (storage : Storage S) (store : Store S) : Type 0 where
  pub may_load-store_config :
      (b k : Bytes) (c : Config) (s s' : S)
      → store.store_config c s ≡ ok s'
      → storage.bucket_may_load b k s' ≡ storage.bucket_may_load b k s
  pub may_load-store_state :
      (b k : Bytes) (st : State) (s s' : S)
      → store.store_state st s ≡ ok s'
      → storage.bucket_may_load b k s' ≡ storage.bucket_may_load b k s

module _ {S : Type 0} (api : Api) (storage : Storage S) (laws : IsStorage storage) (store : Store S)
    (apart : IsApart storage store) (token_msg : Codec TokenInstantiateMsg)
    (initial_deposit_amount : ℕ) (env : Env) (message_sender : Bytes) (msg : InitMsg)
    (market_msg : InstantiateMsg) (k : Bytes) where
  market_config_keeps :
      (c : MarketState.Config) (s s' : S)
      → store.store_config c s ≡ ok s'
      → balance_get storage k s' ≡ balance_get storage k s
  unfolding balance_get
  market_config_keeps c s s' e = ground (arith, apart.may_load-store_config balance_key k c s s' e)

  market_state_keeps :
      (st : State) (s s' : S)
      → store.store_state st s ≡ ok s'
      → balance_get storage k s' ≡ balance_get storage k s
  unfolding balance_get
  market_state_keeps st s s' e = ground (arith, apart.may_load-store_state balance_key k st s s' e)

  token_config_keeps :
      (c : TokenState.Config) (s s' : S)
      → config_set storage c s ≡ ok s'
      → balance_get storage k s' ≡ balance_get storage k s
  token_config_keeps c s s' e = balance_get-config_set storage laws s s' c k e

  begin_market-Keeps :
      (contract_addr owner_addr : Bytes)
      → Keeps (balance_get storage k) (
          begin_market api storage store token_msg initial_deposit_amount contract_addr owner_addr
            env market_msg)
  unfolding begin_market instantiate_aterra
  begin_market-Keeps contract_addr owner_addr =
      Keeps-bind (balance_get storage k)
        (writes (
          store.store_config (
            initial_config contract_addr owner_addr market_msg.stable_denom
              market_msg.max_borrow_factor)))
        (λ done.
          writes (store.store_state (initial_state env.block_height market_msg.anc_emission_rate))
          >> instantiate_aterra api storage store token_msg initial_deposit_amount env market_msg)
        (Keeps-writes _ _ (market_config_keeps _))
        (λ done.
          Keeps-bind (balance_get storage k)
            (writes
              (store.store_state (initial_state env.block_height market_msg.anc_emission_rate)))
            (λ done.
              instantiate_aterra api storage store token_msg initial_deposit_amount env market_msg)
            (Keeps-writes _ _ (market_state_keeps _)) (λ done s. ground arith))

  set_up_market-Keeps :
      Keeps
        (balance_get storage k)
        (set_up_market api storage store token_msg initial_deposit_amount env market_msg)
  unfolding set_up_market
  set_up_market-Keeps =
      Keeps-bind (balance_get storage k) (lift (api.addr_canonicalize env.contract_address)) _
        (λ s. refl)
        (λ contract_addr.
          Keeps-bind (balance_get storage k) (lift (api.addr_canonicalize market_msg.owner_addr)) _
            (λ s. refl) (λ owner_addr. begin_market-Keeps contract_addr owner_addr))

  set_up-Keeps :
      Keeps (balance_get storage k) (
        set_up api storage store token_msg initial_deposit_amount env message_sender msg market_msg)
  unfolding set_up
  set_up-Keeps =
      Keeps-bind (balance_get storage k) _
        (λ done. set_up_market api storage store token_msg initial_deposit_amount env market_msg)
        (Keeps-writes _ _ (token_config_keeps _)) (λ done. set_up_market-Keeps)

  -- After an `init` that succeeded every address has the amount of its last row among the initial
  -- balances, and without a row what it had before.
  pub balance_get-init :
      (s s' : S) (resp : Response)
      → init api storage store token_msg initial_deposit_amount env message_sender msg market_msg s
        ≡ (ok resp, s')
      → balance_get storage k s' ≡ listed api k msg.initial_balances (balance_get storage k s)
  unfolding init
  balance_get-init s s' resp done =
      let (a, s1, loop, rest) =
        bind_succeeds (set_balances api storage msg.initial_balances)
          (λ a.
            set_up api storage store token_msg initial_deposit_amount env message_sender msg
              market_msg)
          s s' resp done in
      sym (ap (λ r. balance_get storage k r.1) rest)
      ∙ set_up-Keeps s1
      ∙ balance_get-set_balances api storage laws k msg.initial_balances s s1 loop
