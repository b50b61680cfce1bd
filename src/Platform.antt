-- ===== src/Platform.antt =====
-- What the code takes from `cosmwasm_std`, `cw20`, `terra_cosmwasm` and `serde`: none of it is under
-- the repository, so it is a parameter. The data types repeat the variants that the code writes.
pub mod Sample
use anchor_staking_relayer.Prelude.{ℕ, ◌≡◌, List}
use anchor_staking_relayer.Bytes.{Bytes, Text}
use anchor_staking_relayer.Outcome.{Outcome, ok}

-- `StdError`: the variant that the code makes, and any that the platform returns.
pub data StdError : Type 0 where
  generic_err : Text → StdError
  other : Text → StdError

abbrev pub StdResult : Type 0 → Type 0
StdResult A = Outcome StdError A

-- `Binary`: the bytes of a message.
abbrev pub Binary : Type 0
Binary = Bytes

-- `to_binary` and `from_binary` at one type of messages.
pub record Codec (A : Type 0) : Type 0 where
  pub to_binary : A → StdResult Binary
  pub from_binary : Binary → StdResult A

-- `serde` reads back what it has written.
pub record RoundTrips {A : Type 0} (codec : Codec A) : Type 0 where
  pub from-to : (a : A) (b : Binary) → codec.to_binary a ≡ ok b → codec.from_binary b ≡ ok a

-- `deps.api`
pub record Api : Type 0 where
  pub addr_validate : Text → StdResult Text
  pub addr_canonicalize : Text → StdResult Bytes
  pub addr_humanize : Bytes → StdResult Text
  -- the same conversions under their names in the older `cosmwasm_std`
  pub canonical_address : Text → StdResult Bytes
  pub human_address : Bytes → StdResult Text

-- `addr_humanize` gives back the address that was canonicalized.
pub record IsInverse (api : Api) : Type 0 where
  pub humanize_canonicalize :
      (human : Text) (raw : Bytes)
      → api.addr_canonicalize human ≡ ok raw
      → api.addr_humanize raw ≡ ok human

pub record Coin : Type 0 where
  pub denom : Text
  pub amount : ℕ

-- `cw20::Cw20ReceiveMsg`
pub record Cw20ReceiveMsg : Type 0 where
  pub sender : Text
  pub amount : ℕ
  pub msg : Binary

-- `cw20::Cw20ExecuteMsg`, in the variants that the code makes.
pub data Cw20ExecuteMsg : Type 0 where
  -- recipient and amount
  mint : Text → ℕ → Cw20ExecuteMsg
  burn : ℕ → Cw20ExecuteMsg

-- `CosmosMsg`, in the variants that the code makes.
pub data CosmosMsg : Type 0 where
  -- `WasmMsg::Execute`: contract_addr, funds and msg
  wasm_execute : Text → List Coin → Binary → CosmosMsg
  -- `BankMsg::Send`: to_address and amount
  bank_send : Text → List Coin → CosmosMsg

-- The value of an attribute, before it is displayed.
pub data AttrValue : Type 0 where
  shown : Text → AttrValue
  number : ℕ → AttrValue

pub record Attribute : Type 0 where
  pub key : Text
  pub value : AttrValue

-- `attr`
abbrev pub attr : Text → AttrValue → Attribute
attr k v = record { key = k; value = v }

-- `SubMsg::reply_on_success` of a `WasmMsg::Instantiate` with no admin and no funds.
pub record SubMsg : Type 0 where
  pub code_id : ℕ
  pub label : Text
  pub msg : Binary
  pub reply_id : ℕ

pub record Response : Type 0 where
  pub submessages : List SubMsg
  pub messages : List CosmosMsg
  pub attributes : List Attribute

-- The parts of `Env` and `MessageInfo` that the code reads.
pub record Env : Type 0 where
  pub contract_address : Text
  pub block_height : ℕ

pub record MessageInfo : Type 0 where
  pub sender : Text
  pub funds : List Coin

-- `TokenInstantiateMsg`, the instantiation of a `cw20` token, with its minter.
pub record TokenInstantiateMsg : Type 0 where
  pub name : Text
  pub symbol : Text
  pub decimals : ℕ
  pub initial_balances : List (Text × ℕ)
  pub minter : Text
