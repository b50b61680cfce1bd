-- ===== src/Contract/Init/Laws.antt =====
-- `init`: the names of the aTerra token, and what a successful call writes and returns.
use anchor_staking_relayer.Prelude.{
  ℕ, ◌<◌, ◌≡◌, refl, none, some, [], ◌∷◌, ◌++◌, length, arith, ap, ◌∙◌, subst,
}
use anchor_staking_relayer.Bytes.{Bytes, Text, text}
use anchor_staking_relayer.Outcome.{ok, panic}
use anchor_staking_relayer.Platform.{Api, Codec, Binary, Env, Response, TokenInstantiateMsg}
use anchor_staking_relayer.TokenMsg.{InitMsg}
use anchor_staking_relayer.TokenState.{Storage, config_set}
use anchor_staking_relayer.Market.{InstantiateMsg}
use anchor_staking_relayer.MarketState.{Store, IsStore}
use anchor_staking_relayer.Contract.Init.{
  to_uppercase, is_char_boundary, skip_first, drop_last, inner, aterra_name, aterra_symbol,
  initial_state, initial_config, aterra_token, set_balances, instantiate_aterra, begin_market,
  set_up_market, set_up, init,
}

-- A text of ASCII characters only.
abbrev pub IsAscii : Text → Type 0
IsAscii [] = Unit
IsAscii (b ∷ bs) = (b < 128) × IsAscii bs

drop_last-append :
    (middle : Text) (last : ℕ)
    → IsAscii (middle ++ last ∷ [])
    → drop_last (middle ++ last ∷ []) ≡ some middle
unfolding drop_last is_char_boundary
drop_last-append [] last (small, others) = ground (arith, small)
drop_last-append (b ∷ []) last (small, others) = ground (arith, others.0)
drop_last-append (b ∷ c ∷ bs) last (small, others) = rw (drop_last-append (c ∷ bs) last others) refl

-- The two slices of an ASCII text of at least two bytes.
slices :
    (first : ℕ) (middle : Text) (last : ℕ)
    → IsAscii (middle ++ last ∷ [])
    → (skip_first (first ∷ (middle ++ last ∷ [])) ≡ some (middle ++ last ∷ []))
      × (inner (first ∷ (middle ++ last ∷ [])) ≡ some middle)
unfolding skip_first inner is_char_boundary
slices first [] last (small, others) =
    (ground (arith, small), ground (arith, small, drop_last-append [] last (small, others)))
slices first (b ∷ bs) last (small, others) =
    (ground (arith, small), ground (arith, small, drop_last-append (b ∷ bs) last (small, others)))

-- Of an ASCII denomination of at least two bytes the name of the aTerra token has all but the
-- first, and its symbol all but the first and the last, in upper case.
pub aterra_names :
    (first : ℕ) (middle : Text) (last : ℕ)
    → IsAscii (first ∷ (middle ++ last ∷ []))
    → (aterra_name (first ∷ (middle ++ last ∷ []))
        ≡ some (text "Anchor Terra " ++ to_uppercase (middle ++ last ∷ [])))
      × (aterra_symbol (first ∷ (middle ++ last ∷ []))
          ≡ some (text "a" ++ (to_uppercase middle ++ text "T")))
unfolding aterra_name aterra_symbol
aterra_names first middle last (small, others) =
    let (rest, within) = slices first middle last others in
    (ground (arith, rest), ground (arith, within))

short_symbol : (denom : Text) → length denom < 2 → aterra_symbol denom ≡ none
unfolding aterra_symbol
short_symbol [] h = refl
short_symbol (b ∷ []) h = refl
short_symbol (b ∷ c ∷ bs) h = absurd (omega arith)

module _ {S : Type 0} (api : Api) (storage : Storage S) (store : Store S)
    (token_msg : Codec TokenInstantiateMsg) (initial_deposit_amount : ℕ) (env : Env)
    (message_sender : Bytes) (msg : InitMsg) (market_msg : InstantiateMsg) (s s1 s2 s3 s4 : S)
    (contract_addr owner_addr : Bytes)
    (balances : set_balances api storage msg.initial_balances s ≡ (ok tt, s1))
    (token_config : config_set storage
        (record { name = msg.name; symbol = msg.symbol; owner = message_sender })
        s1
      ≡ ok s2)
    (contract_known : api.addr_canonicalize env.contract_address ≡ ok contract_addr)
    (owner_known : api.addr_canonicalize market_msg.owner_addr ≡ ok owner_addr)
    (configured : store.store_config
        (initial_config contract_addr owner_addr market_msg.stable_denom
          market_msg.max_borrow_factor)
        s2
      ≡ ok s3)
    (stored : store.store_state (initial_state env.block_height market_msg.anc_emission_rate) s3
      ≡ ok s4) where
  -- Once the balances are set and the platform stores and converts, `init` panics on a stable
  -- denomination of less than two bytes: it slices off the first byte for the name of the aTerra
  -- token, and the first and the last for its symbol.
  pub init_short_denom :
      length market_msg.stable_denom < 2
      → (init api storage store token_msg initial_deposit_amount env message_sender msg market_msg
          s).0
        ≡ panic
  unfolding init set_up set_up_market begin_market instantiate_aterra
  init_short_denom short = ground (arith, short_symbol market_msg.stable_denom short)

  module _ (is_store : IsStore store) (first : ℕ) (middle : Text) (last : ℕ) (aterra : Binary)
      (ascii : IsAscii market_msg.stable_denom)
      (denom : market_msg.stable_denom ≡ first ∷ (middle ++ last ∷ []))
      (encoded : token_msg.to_binary (
          aterra_token env.contract_address initial_deposit_amount
            (text "Anchor Terra " ++ to_uppercase (middle ++ last ∷ []))
            (text "a" ++ (to_uppercase middle ++ text "T")))
        ≡ ok aterra) where
    names : IsAscii (first ∷ (middle ++ last ∷ []))
    names = subst IsAscii denom ascii

    -- The whole run, on an ASCII stable denomination of at least two bytes.
    pub init_instantiates :
        (resp : Response) × (init api storage store token_msg initial_deposit_amount env
            message_sender msg market_msg s
          ≡ (ok resp, s4))
        × (store.read_state s4 ≡ ok (initial_state env.block_height market_msg.anc_emission_rate))
        × (store.read_config s4
            ≡ ok (
                initial_config contract_addr owner_addr market_msg.stable_denom
                  market_msg.max_borrow_factor))
        × (resp.submessages
            ≡ record { code_id = market_msg.aterra_code_id; label = []; msg = aterra; reply_id = 1 }
              ∷ [])
    unfolding init set_up set_up_market begin_market instantiate_aterra
    init_instantiates = (
      record {
        submessages =
            record { code_id = market_msg.aterra_code_id; label = []; msg = aterra; reply_id = 1 }
            ∷ [];
        messages = [];
        attributes = [];
      },
      ground (
        arith,
        ap aterra_name denom ∙ (aterra_names first middle last names).0,
        ap aterra_symbol denom ∙ (aterra_names first middle last names).1,
      ),
      is_store.read_state-store_state _ s3 s4 stored,
      is_store.read_config-store_state _ s3 s4 stored
          ∙ is_store.read_config-store_config _ s2 s3 configured,
      refl,
    )
