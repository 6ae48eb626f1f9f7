-- ===== src/Money/Laws.antt =====
-- Rounding of amounts, and the bond that a pool of a given prize budget locks.
use lucky_scratch.Prelude.{ℕ, ◌+◌, ◌*◌, ◌/◌, ◌≤◌, ◌<◌, ◌≡◌, some, arith}
use lucky_scratch.Money.{
  round_div, to_micro_usdc, from_micro_usdc, compute_bond_requirement_micro, nano,
}
use lucky_scratch.Contract.{compute_bond_requirement}

-- An amount of micro-USDC that is shown in USDC and read back is the same amount.
pub to_micro_usdc-from_micro_usdc :
    (micro : ℕ) → to_micro_usdc (from_micro_usdc (some micro)) ≡ micro
unfolding to_micro_usdc from_micro_usdc
to_micro_usdc-from_micro_usdc micro = omega arith

-- Rounding an amount to micro-USDC moves it by at most half a micro-USDC, and a half is rounded
-- up.
pub to_micro_usdc_bounds :
    (value : ℕ)
    → (to_micro_usdc value * 1000 ≤ value + 500) × (value + 500 < to_micro_usdc value * 1000 + 1000)
unfolding to_micro_usdc
to_micro_usdc_bounds value = omega arith

div_unique : (n d q : ℕ) → q * d ≤ n → n < q * d + d → n / d ≡ q
div_unique n d q h k = grind arith

div_bounds : (n d : ℕ) → 0 < d → (n / d * d ≤ n) × (n < n / d * d + d)
div_bounds n d h = grind arith

-- The rounding of the page and the rounding by integer division in the contract are one.
pub round_div-eq-half_up : (n d : ℕ) → 0 < d → round_div n d ≡ (n + d / 2) / d
unfolding round_div
round_div-eq-half_up n d h =
    let (below, above) = div_bounds (n + d / 2) d h in
    div_unique (2 * n + d) (2 * d) ((n + d / 2) / d) (omega arith) (omega arith)

-- Billionths on both sides cancel.
pub round_div-nano : (n d : ℕ) → 0 < d → round_div (n * nano) (d * nano) ≡ round_div n d
unfolding round_div
round_div-nano n d h =
    let (below, above) = div_bounds (2 * n + d) (2 * d) (omega arith) in
    div_unique (2 * (n * nano) + d * nano) (2 * (d * nano)) ((2 * n + d) / (2 * d)) (grind arith)
      (grind arith)

-- The bond that the page computes for a whole prize budget is the one that the contract computes.
pub compute_bond_requirement_micro-eq-contract :
    (budget : ℕ)
    → compute_bond_requirement_micro (budget * nano) ≡ compute_bond_requirement budget * nano
unfolding compute_bond_requirement_micro compute_bond_requirement
compute_bond_requirement_micro-eq-contract budget = ground arith
