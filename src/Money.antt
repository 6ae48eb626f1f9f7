-- ===== src/Money.antt =====
-- Amounts of cUSDC: packages/nextjs/services/luckyScratch/poolMath.ts.
-- A number that may have a fraction in the source is counted in billionths here (10^-9), so that
-- `Math.round` and `Math.floor` have something to round: a number of USDC is one of nano-USDC.
mod Tests
pub mod Laws
use lucky_scratch.Prelude.{
  ℕ, ◌+◌, ◌*◌, ◌/◌, ◌^◌, Bool, Option, none, some, List, [], ◌∷◌, leb, if◌then◌else◌,
}

abbrev pub micro_usdc : ℕ
micro_usdc = 1000000

abbrev pub nano_usdc : ℕ
nano_usdc = 1000000000

-- One, in billionths.
abbrev pub nano : ℕ
nano = 1000000000

abbrev pub platform_fee_bps : ℕ
platform_fee_bps = 800

abbrev pub max_tickets_per_round : ℕ
max_tickets_per_round = 256

abbrev pub min_total_prize_budget_usdc : ℕ
min_total_prize_budget_usdc = 50 * nano_usdc

abbrev pub max_total_prize_budget_usdc : ℕ
max_total_prize_budget_usdc = 2000 * nano_usdc

abbrev pub supported_ticket_prices_usdc : List ℕ
supported_ticket_prices_usdc =
    nano_usdc
    ∷ (2 * nano_usdc)
    ∷ (5 * nano_usdc)
    ∷ (10 * nano_usdc)
    ∷ (15 * nano_usdc)
    ∷ (20 * nano_usdc)
    ∷ []

-- `Math.round(n / d)` of a positive `d`: a half is rounded up.
unfoldable pub round_div : ℕ → ℕ → ℕ
round_div n d = (2 * n + d) / (2 * d)

-- `Math.round(value * MICRO_USDC)`
unfoldable pub to_micro_usdc : ℕ → ℕ
unfolding round_div
to_micro_usdc value = round_div value 1000

unfoldable pub from_micro_usdc : Option ℕ → ℕ
from_micro_usdc none = 0
from_micro_usdc (some micro) = micro * 1000

-- `Math.floor(n / d)` of a number in billionths, in billionths.
abbrev pub floor_div : ℕ → ℕ → ℕ
floor_div n d = n / (d * nano) * nano

-- The budget and the bond are in billionths of a micro-USDC.
unfoldable pub compute_bond_requirement_micro : ℕ → ℕ
compute_bond_requirement_micro budget =
    if leb budget (200 * micro_usdc * nano)
    then budget + floor_div (budget * 20) 100
    else if leb budget (500 * micro_usdc * nano)
    then budget + floor_div (budget * 15) 100
    else budget + floor_div budget 10
