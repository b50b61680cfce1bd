-- ===== src/Tokens/Amounts.antt =====
-- The abstract view of a list of tokens: the amount that it holds of each address.
use anchor_staking_relayer.Prelude.{ℕ, Bool, true, false, [], ◌∷◌, leb, if◌then◌else◌, all}
use anchor_staking_relayer.Bytes.{Bytes, bytes_eq}
use anchor_staking_relayer.Tokens.{Tokens, Token}

-- The amount that the first entry of an address holds, and 0 without an entry.
abbrev pub amount_of : Bytes → Tokens → ℕ
amount_of k [] = 0
amount_of k (t ∷ ts) = if bytes_eq k t.0 then t.1 else amount_of k ts

abbrev pub contains : Bytes → Tokens → Bool
contains k [] = false
contains k (t ∷ ts) = if bytes_eq k t.0 then true else contains k ts

-- No address has two entries.
abbrev pub distinct : Tokens → Bool
distinct [] = true
distinct (t ∷ ts) = if contains t.0 ts then false else distinct ts

-- Every entry of `tokens` has one in `self` that holds as much.
abbrev pub covers : Tokens → Token → Bool
covers self t = if contains t.0 self then leb t.1 (amount_of t.0 self) else false

abbrev pub covered : Tokens → Tokens → Bool
covered self tokens = all (covers self) tokens
