-- ===== src/Lib.antt =====
-- The money market part of a CosmWasm contract, and the library packages/moneymarket of its
-- messages, queries and token arithmetic.
--
-- Tokens (packages/moneymarket/src/tokens.rs) models the lists of token amounts: `sort_tokens` is
-- the `sort_by` of the methods, `assert_duplicate_token`, `sub`, `add`, `to_human` and `to_raw`
-- are the methods. A list is walked by an index in the source and by the suffix that is left here,
-- so the loops end by structural recursion and need no fuel. Tokens.While has the loops as they
-- are written, on indices with reads that panic out of bounds, and on fuel: a round for each entry
-- of the lists that a loop reads and one for its last test, which is enough since each round but
-- the last moves an index. It relates them to the loops on suffixes. `sub` returns the list that
-- it leaves beside its result, since an error leaves what was written. Tokens.Amounts has the
-- abstract view, the amount of each address; Tokens.Sorted, Duplicates, Canonical, Sub, Add,
-- Algebra, Order and Bag relate the methods to it, and to the order of the entries.
--
-- Querier (packages/moneymarket/src/querier.rs) models every query, the tax and the age check of
-- prices. MockQuerier (packages/moneymarket/src/mock_querier.rs) is the mock of the unit tests,
-- over HashMap. Common is packages/moneymarket/src/common.rs, Market and Oracle hold the messages
-- of market.rs and oracle.rs beside it, and Custody, Overseer, Liquidation, LiquidationQueue,
-- InterestModel and DistributionModel those of the contracts whose handlers are elsewhere; a
-- variant of four fields or more has them in a record of its name.
--
-- Deposit (src/deposit.rs) models `deposit_stable` and `redeem_stable`, and Deposit.Rate the
-- exchange rate and `assert_redeem_amount`. Deposit.Rate.Vault is the abstract view, the supply,
-- the balance and the rate between them with steps for what changes them, and Deposit.Refinement
-- relates the handlers to it; Deposit.Accrual, Deposited and Redeemed say what a call that
-- succeeded has gone through. Chain puts the contract on a chain, which has the supply of aTerra
-- and the balance of the contract: a call runs `execute` and has the messages of its response
-- carried out. Chain.Effects says what a deposit and a redemption then change. A handler (Handler)
-- takes the storage and returns its result with the storage that it leaves. Contract
-- (src/contract.rs) models `execute`, for the messages that its `match` has an arm for, and
-- `receive_cw20`, Contract.Init `init` and Contract.Query `query`. TokenState (src/state.rs) has
-- the configuration and the balances of the token, and TokenMsg (src/msg.rs) its messages.
-- MarketState has the config and the state of the market, with the fields that `init` in
-- src/contract.rs gives them.
--
-- Texts and addresses are the lists of their bytes (Bytes), and a call ends in a value, an error
-- or a panic (Outcome). A `u64`, a `Uint128` and a `Uint256` are their numbers, and a `Decimal256`
-- its number of 10^-18ths. The checked subtraction of `u64` in `query_price` is written out. The
-- slices of a denomination panic within a character; `to_uppercase` is that of ASCII texts, and
-- theorems that rest on it are about these.
--
-- `init` in src/contract.rs is written against two messages: its fields are those of `InitMsg` and
-- of the `InstantiateMsg` of the market, and the model takes both. `env.message.sender` and the
-- undeclared `INITIAL_DEPOSIT_AMOUNT` are arguments.
--
-- What is not in the repository is a parameter. BigNumber has the operations of
-- cosmwasm_bignumber, which are assumed exact where their results fit; elsewhere nothing is
-- assumed of them, but that a conversion to 128 bits panics or keeps the number (Chain), that a
-- sum that does not fit panics (Tokens.Add.Overflow), and that a division by zero panics
-- (Deposit.FirstDeposit and Chain.Deposits); BigNumber.Checked is a value for it. Platform and
-- Deps have the platform: address conversion, queries, encodings. Chain takes the answers to
-- queries and the execution of messages as functions, with what is relied upon of them. TokenState
-- has the storage of cosmwasm_storage, MarketState that of the market and the modules `borrow` and
-- `error` that src/deposit.rs imports and that no file declares, and Contract.Handlers the
-- handlers that `execute` calls and that no file defines. Each has a sample value, with which the
-- tests run.
--
-- Testing (packages/moneymarket/src/testing.rs) has the unit tests, which end in a value or in the
-- panic of an assertion; the mocks of `cosmwasm_std` that they run on are parameters.
--
-- Not modelled: the wasm glue of src/lib.rs, the lists of modules and the export of the schemas,
-- which hold no logic, and `reply` and the handlers of `execute` that no file defines.
pub mod Prelude
pub mod Outcome
pub mod Bytes
pub mod BigNumber
pub mod Platform
pub mod TokenMsg
pub mod TokenState
pub mod Oracle
pub mod Market
pub mod Deps
pub mod MarketState
pub mod Handler
pub mod HashMap
pub mod Tokens
pub mod Querier
pub mod MockQuerier
pub mod Custody
pub mod Overseer
pub mod Liquidation
pub mod LiquidationQueue
pub mod InterestModel
pub mod DistributionModel
pub mod Deposit
pub mod Common
pub mod Contract
pub mod Chain
pub mod Testing
