-- ===== src/Scripts/Fees.antt =====
-- Retryable fees in the decimals of a fee token: `_getScaledAmount` of
-- scripts/local-deployment/localDeploymentLib.ts and `_getPrescaledAmount` of
-- scripts/usdc-bridge-deployment/deployUsdcBridge.ts. `decimals` is the token's answer.
pub mod Rounding
use token_bridge_contracts.Base.{ℕ, ◌+◌, ◌-◌, ◌*◌, ◌/◌, ◌^◌, ◌==◌, ltb, if◌then◌else◌}

-- the quotient, and one more where the product falls short of the amount
abbrev pub round_up : ℕ → ℕ → ℕ
round_up amount factor =
    let scaled = amount / factor in if ltb (scaled * factor) amount then scaled + 1 else scaled

unfoldable pub get_scaled_amount : (decimals amount : ℕ) → ℕ
get_scaled_amount decimals amount =
    if decimals == 18
    then amount
    else if ltb decimals 18
    then round_up amount (10 ^ (18 - decimals))
    else amount * 10 ^ (decimals - 18)

unfoldable pub get_prescaled_amount : (decimals amount : ℕ) → ℕ
get_prescaled_amount decimals amount =
    if ltb decimals 18
    then round_up amount (10 ^ (18 - decimals))
    else if ltb 18 decimals
    then amount * 10 ^ (decimals - 18)
    else amount
