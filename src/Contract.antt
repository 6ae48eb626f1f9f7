-- ===== src/Contract.antt =====
-- The checks that the contract makes of a new pool:
-- packages/hardhat/contracts/luckyScratch/libraries/PoolMathLib.sol and `_validatePoolCreation` of
-- LuckyScratchCore.sol. The arguments have widths, and a call with a number that does not fit its width
-- cannot be made. Sums are taken in uint256 and do not wrap: they are below 2 ^ 96 for each tier.
use lucky_scratch.Prelude.{
  ℕ, ◌+◌, ◌*◌, ◌/◌, ◌^◌, Bool, true, false, not, ◌&&◌, ◌||◌, Option, some, none, all, List, [], ◌∷◌,
  leb, ltb, ◌==◌, max, any, sum_by, if◌then◌else◌,
}

-- `PrizeTierInput`
pub record PrizeTier : Type 0 where
  pub prize_amount : ℕ
  pub count : ℕ

abbrev pub tier_budget : PrizeTier → ℕ
tier_budget t = t.prize_amount * t.count

abbrev pub positive_count : PrizeTier → ℕ
positive_count t = if ltb 0 t.prize_amount then t.count else 0

abbrev pub max_prize_of : List PrizeTier → ℕ
max_prize_of [] = 0
max_prize_of (t ∷ ts) = max t.prize_amount (max_prize_of ts)

-- The two results of `validatePrizeEconomics`.
pub record Verdict : Type 0 where
  pub budget_valid : Bool
  pub metrics_valid : Bool

-- Of a tier: `uint64 prizeAmount` and `uint32 count`.
abbrev pub fits_tier : PrizeTier → Bool
fits_tier t = ltb t.prize_amount (2 ^ 64) && ltb t.count (2 ^ 32)

-- The widths of the other arguments.
abbrev pub fits : ℕ → ℕ → ℕ → ℕ → ℕ → ℕ → Bool
fits tickets price budget hit_rate rtp max_prize =
    ltb tickets (2 ^ 32)
    && ltb price (2 ^ 64)
    && ltb budget (2 ^ 64)
    && ltb hit_rate (2 ^ 16)
    && ltb rtp (2 ^ 16)
    && ltb max_prize (2 ^ 64)

-- Of arguments that fit.
unfoldable pub checked : List PrizeTier → ℕ → ℕ → ℕ → ℕ → ℕ → ℕ → Verdict
checked tiers tickets price budget hit_rate rtp max_prize =
    let ticket_count = sum_by PrizeTier.count tiers in
    let total = sum_by tier_budget tiers in
    let winners = sum_by positive_count tiers in
    let gross = price * ticket_count in
    if any (λ t. t.count == 0) tiers
    then record { budget_valid = false; metrics_valid = false }
    else if not (ticket_count == tickets) || not (total == budget) || max_prize_of tiers == 0
    then record { budget_valid = false; metrics_valid = false }
    else if gross == 0
    then record { budget_valid = true; metrics_valid = false }
    else record {
      budget_valid = true;
      metrics_valid =
          (max_prize_of tiers == max_prize)
          && (((winners * 10000 + ticket_count / 2) / ticket_count) == hit_rate)
          && (((total * 10000 + gross / 2) / gross) == rtp);
    }

-- Nothing where an argument does not fit its width.
unfoldable pub validate_prize_economics : List PrizeTier → ℕ → ℕ → ℕ → ℕ → ℕ → ℕ → Option Verdict
validate_prize_economics tiers tickets price budget hit_rate rtp max_prize =
    if all fits_tier tiers && fits tickets price budget hit_rate rtp max_prize
    then some (checked tiers tickets price budget hit_rate rtp max_prize)
    else none

unfoldable pub compute_bond_requirement : ℕ → ℕ
compute_bond_requirement budget =
    if leb budget 200000000
    then budget + budget * 2 / 10
    else if leb budget 500000000
    then budget + budget * 15 / 100
    else budget + budget / 10
