-- ===== src/Lend.antt =====
-- The supply side of the lending pool (ghoststake-frontend/src/lib/lend.ts). Balances, cash and
-- rates are unsigned; the change that a field previews is signed.
pub mod Laws
use ghoststake.Prelude.{
  ℕ, ◌+◌, ◌*◌, ◌/◌, Bool, ◌&&◌, Option, none, some, List, [], ◌∷◌, ◌++◌, ltb, ◌==◌, if◌then◌else◌,
}
use ghoststake.Prelude.Int.{ℤ, pos, ◌+ℤ◌, pos_part}
use ghoststake.Rounds.{wad}

unfoldable pub max_withdraw : ℕ → ℕ → ℕ
max_withdraw balance available = if ltb balance available then balance else available

unfoldable pub share_of_pool : ℕ → ℕ → ℕ
share_of_pool balance total_supplied =
    if total_supplied == 0 then 0 else (balance * wad) / total_supplied

-- `pos_part` is the clamp `cash < 0n ? 0n : cash`.
unfoldable pub utilization_after : ℕ → ℕ → ℤ → ℕ
utilization_after borrowed available delta =
    let denominator = pos_part (pos available +ℤ delta) + borrowed in
    if borrowed == 0 then 0 else if denominator == 0 then 0 else (borrowed * wad) / denominator

pub data LendWarning : Type 0 where
  exit_blocked exit_limited past_kink : LendWarning

abbrev exit_warning : ℕ → ℕ → List LendWarning
exit_warning balance available =
    if ltb 0 balance && available == 0
    then exit_blocked ∷ []
    else if ltb available balance
    then exit_limited ∷ []
    else []

unfoldable pub lend_warnings : ℕ → ℕ → ℕ → ℕ → List LendWarning
lend_warnings balance available utilization kink =
    exit_warning balance available ++ (if ltb kink utilization then past_kink ∷ [] else [])

pub data WithdrawProblem : Type 0 where
  over_balance over_liquidity : WithdrawProblem

unfoldable pub withdraw_problem : ℕ → ℕ → ℕ → Option WithdrawProblem
withdraw_problem amount balance available =
    if ltb balance amount
    then some over_balance
    else if ltb available amount
    then some over_liquidity
    else none
