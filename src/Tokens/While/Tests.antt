-- ===== src/Tokens/While/Tests.antt =====
-- Runs of the token arithmetic on indices, and its theorems at concrete lists.
use anchor_staking_relayer.Prelude.{◌≡◌, refl, [], ◌∷◌, some}
use anchor_staking_relayer.Bytes.{Bytes, bytes_eq, cmp}
use anchor_staking_relayer.Outcome.{ok, err, panic}
use anchor_staking_relayer.BigNumber.Checked.{checked}
use anchor_staking_relayer.Tokens.{Tokens, underflow, sub, add}
use anchor_staking_relayer.Tokens.While.{sub_by_index, add_by_index}
use anchor_staking_relayer.Tokens.While.SubLaws.{sub_by_index-sub}
use anchor_staking_relayer.Tokens.While.AddLaws.{add_by_index-add}

abbrev token1 : Bytes
token1 = 1 ∷ 7 ∷ []

abbrev token3 : Bytes
token3 = 2 ∷ 5 ∷ []

abbrev wallet : Tokens
wallet = (token3, 30) ∷ (token1, 1000) ∷ []

abbrev payment : Tokens
payment = (token3, 30) ∷ (token1, 400) ∷ []

sub_by_index-sub_example : sub_by_index checked wallet payment ≡ some (sub checked wallet payment)
sub_by_index-sub_example = sub_by_index-sub checked wallet payment

add_by_index-add_example : add_by_index checked wallet payment ≡ some (add checked wallet payment)
add_by_index-add_example = add_by_index-add checked wallet payment

sub_by_index_test : sub_by_index checked wallet payment ≡ some ((token1, 600) ∷ [], ok tt)
unfolding sub_by_index checked bytes_eq cmp
sub_by_index_test = refl

sub_by_index_short :
    sub_by_index checked payment wallet ≡ some ((token1, 400) ∷ (token3, 30) ∷ [], err underflow)
unfolding sub_by_index checked bytes_eq cmp
sub_by_index_short = refl

add_by_index_test :
    add_by_index checked wallet payment ≡ some (ok ((token1, 1400) ∷ (token3, 60) ∷ []))
unfolding add_by_index checked bytes_eq cmp
add_by_index_test = refl

add_by_index_twice : add_by_index checked wallet ((token1, 1) ∷ (token1, 2) ∷ []) ≡ some panic
unfolding add_by_index bytes_eq cmp
add_by_index_twice = refl
