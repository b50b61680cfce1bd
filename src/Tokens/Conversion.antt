-- ===== src/Tokens/Conversion.antt =====
-- `to_raw` and `to_human`, over the platform's conversion of addresses.
use anchor_staking_relayer.Prelude.{◌≡◌, [], ◌∷◌, arith}
use anchor_staking_relayer.Outcome.{ok, question_mark}
use anchor_staking_relayer.Platform.{Api, IsInverse}
use anchor_staking_relayer.Tokens.{Tokens, TokensHuman, to_human, to_raw}

module _ (api : Api) (inverse : IsInverse api) where
  -- Tokens that were read from their readable form are written back as they were: the same
  -- addresses with the same amounts, in the same order.
  pub to_human-to_raw :
      (collaterals : TokensHuman) (raw : Tokens)
      → to_raw api collaterals ≡ ok raw
      → to_human api raw ≡ ok collaterals
  unfolding to_raw to_human
  to_human-to_raw [] raw h = ground arith
  to_human-to_raw (c ∷ cs) raw h =
      let (address, converted, rest) = question_mark (api.addr_canonicalize c.0) _ h in
      let (tail, tail_converted, made) = question_mark (to_raw api cs) _ rest in
      ground (
        arith,
        inverse.humanize_canonicalize c.0 address converted,
        to_human-to_raw cs tail tail_converted,
      )
