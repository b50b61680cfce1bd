-- ===== src/Common.antt =====
-- packages/moneymarket/src/common.rs
use anchor_staking_relayer.Prelude.{Option, none, some}
use anchor_staking_relayer.Bytes.{Text}
use anchor_staking_relayer.Outcome.{ok, ◌>>=◌}
use anchor_staking_relayer.Platform.{StdResult, Api}

unfoldable pub optional_addr_validate : Api → Option Text → StdResult (Option Text)
optional_addr_validate api none = ok none
optional_addr_validate api (some addr) = do valid ← api.addr_validate addr; ok (some valid)
