-- ===== src/CreatePool/Economics.antt =====
-- What the page submits against what the contract checks: the tiers and figures of `handleCreatePool`
-- under `validatePrizeEconomics` of PoolMathLib.sol. The page's counts are in billionths, the
-- contract's are whole.
use lucky_scratch.Prelude.{
  ℕ, ◌+◌, ◌-◌, ◌*◌, ◌/◌, ◌%◌, ◌^◌, ◌≤◌, ◌<◌, ◌≡◌, true, false, Option, some, List, [], map, arith,
  ◌==◌, any, all, All, length, sum_by,
}
use lucky_scratch.Money.{nano, to_micro_usdc, max_tickets_per_round, round_div}
use lucky_scratch.Money.Laws.{round_div-eq-half_up, round_div-nano}
use lucky_scratch.Contract.{
  PrizeTier, Verdict, tier_budget, positive_count, max_prize_of, fits_tier, checked,
  validate_prize_economics,
}
use lucky_scratch.CreatePool.{
  Form, sanitized_tiers, max_amount, winning_ticket_count, remaining_ticket_count, prize_pool_micro,
  gross_revenue_micro, max_prize_micro, hit_rate_bps, target_rtp_bps, validation_errors,
  total_prize_budget_out_of_range,
}
use lucky_scratch.CreatePool.Sums.{
  IsPaying, IsWhole, whole_tier, submitted, count_of, cost_of, filter-quantity, quantity-whole,
  mul_nano, cost-whole, count-submitted, budget-submitted, positive-submitted, max-submitted,
  no_empty-submitted, whole-submitted, max_amount-pos, max_amount-le, fits-submitted,
}
use lucky_scratch.CreatePool.Sent.{TierArgument, final_prize_tiers, contract_tier}

-- What the validation of the page has established.
pub record IsValidated (f : Form) : Type 0 where
  pub tickets_whole : f.total_tickets % nano ≡ 0
  pub tickets_pos : nano ≤ f.total_tickets
  pub tickets_max : f.total_tickets ≤ max_tickets_per_round * nano
  pub price_pos : 0 < to_micro_usdc f.ticket_price_usdc
  pub price_max : to_micro_usdc f.ticket_price_usdc ≤ 20000000
  pub has_tier : 0 < length (sanitized_tiers f)
  pub fits : winning_ticket_count f ≤ f.total_tickets
  pub budget_min : 50000000 * nano ≤ prize_pool_micro f
  pub budget_max : prize_pool_micro f ≤ 2000000000 * nano

-- A form with no validation error has all of that.
pub validation_errors-IsValidated : (f : Form) → validation_errors f ≡ [] → IsValidated f
unfolding validation_errors total_prize_budget_out_of_range to_micro_usdc round_div
validation_errors-IsValidated f h = ground arith

-- The hit rate and the return of the page are what the contract derives.
hit_rate_bps-eq-contract :
    (f : Form) (w n : ℕ)
    → winning_ticket_count f ≡ w * nano
    → f.total_tickets ≡ n * nano
    → 0 < n
    → hit_rate_bps f ≡ (w * 10000 + n / 2) / n
unfolding hit_rate_bps
hit_rate_bps-eq-contract f w n e1 e2 h =
    let scaled : winning_ticket_count f * 10000 ≡ w * 10000 * nano = omega (arith, e1) in
    ground (arith, e2, scaled, round_div-nano (w * 10000) n h, round_div-eq-half_up (w * 10000) n h)

target_rtp_bps-eq-contract :
    (f : Form) (pool gross : ℕ)
    → prize_pool_micro f ≡ pool * nano
    → gross_revenue_micro f ≡ gross * nano
    → 0 < gross
    → target_rtp_bps f ≡ (pool * 10000 + gross / 2) / gross
unfolding target_rtp_bps
target_rtp_bps-eq-contract f pool gross e1 e2 h =
    let scaled : prize_pool_micro f * 10000 ≡ pool * 10000 * nano = omega (arith, e1) in
    ground (
      arith,
      e2,
      scaled,
      round_div-nano (pool * 10000) gross h,
      round_div-eq-half_up (pool * 10000) gross h,
    )

-- A hit rate is at most 10,000.
half_up-le : (w n : ℕ) → w ≤ n → 0 < n → (w * 10000 + n / 2) / n ≤ 10000
half_up-le w n h k = grind arith

abbrev pub accepted : Option Verdict
accepted = some (record { budget_valid = true; metrics_valid = true })

-- The contract accepts tiers whose sums are the figures that it is given, where all of them fit.
validate_prize_economics_of_sums :
    (tiers : List PrizeTier) (n price pool w top hit rtp : ℕ)
    → all fits_tier tiers ≡ true
    → n < 2 ^ 32
    → price < 2 ^ 64
    → pool < 2 ^ 64
    → top < 2 ^ 64
    → hit < 2 ^ 16
    → rtp < 2 ^ 16
    → any (λ t. t.count == 0) tiers ≡ false
    → sum_by PrizeTier.count tiers ≡ n
    → sum_by tier_budget tiers ≡ pool
    → sum_by positive_count tiers ≡ w
    → max_prize_of tiers ≡ top
    → 0 < top
    → 0 < price * n
    → hit ≡ (w * 10000 + n / 2) / n
    → rtp ≡ (pool * 10000 + price * n / 2) / (price * n)
    → validate_prize_economics tiers n price pool hit rtp top ≡ accepted
unfolding validate_prize_economics checked
validate_prize_economics_of_sums tiers n price pool w top hit rtp a1 a2 a3 a4 a5 a6 a7 e1 e2 e3 e4
      e5 p q e6 e7 =
    ground arith

-- The arguments that the page sends are whole, and the contract accepts them.
pub record IsValid (tiers : List TierArgument) (tickets price pool hit rtp top : ℕ) : Type 0 where
  pub counts_whole : All (λ t. t.count % nano ≡ 0) tiers
  pub tickets_whole : tickets % nano ≡ 0
  pub valid :
      validate_prize_economics (map whole_tier tiers) (tickets / nano) price pool hit rtp top
      ≡ accepted

-- For a form with no validation error whose winning tiers each have a quantity without a fraction
-- and round to one micro-USDC or more, and whose return is below 65,536 basis points, the prize
-- pool and all submitted counts are whole, and the contract's validatePrizeEconomics, in the
-- widths of its arguments, accepts the submitted tiers with the ticket count, price, budget, hit
-- rate, return and top prize that the page derives.
pub final_prize_tiers-IsValid :
    (f : Form)
    → validation_errors f ≡ []
    → All IsPaying (sanitized_tiers f)
    → All IsWhole (sanitized_tiers f)
    → target_rtp_bps f < 2 ^ 16
    → (prize_pool_micro f % nano ≡ 0)
      × IsValid
          (map contract_tier (final_prize_tiers f))
          f.total_tickets
          (to_micro_usdc f.ticket_price_usdc)
          (prize_pool_micro f / nano)
          (hit_rate_bps f)
          (target_rtp_bps f)
          (max_prize_micro f)
unfolding final_prize_tiers max_prize_micro prize_pool_micro gross_revenue_micro
    winning_ticket_count remaining_ticket_count
final_prize_tiers-IsValid f e paying whole rtp =
    let v = validation_errors-IsValidated f e in
    let ts = sanitized_tiers f in
    let counted = filter-quantity f.reward_tiers in
    let n = f.total_tickets / nano in
    let w = sum_by count_of ts in
    let pool = sum_by cost_of ts in
    let price = to_micro_usdc f.ticket_price_usdc in
    let r = f.total_tickets - winning_ticket_count f in
    let won : winning_ticket_count f ≡ w * nano = quantity-whole ts whole in
    let total : f.total_tickets ≡ n * nano = omega (arith, v.tickets_whole) in
    let budget : prize_pool_micro f ≡ pool * nano = cost-whole ts whole in
    let rest : r % nano ≡ 0 = omega (arith, won, total) in
    let fit : w ≤ n = omega (arith, won, total, v.fits) in
    let size : w + r / nano ≡ n = omega (arith, won, total, v.fits) in
    let some_ticket : 0 < n = omega (arith, v.tickets_pos) in
    let gross : 0 < price * n = grind (arith, v.price_pos, some_ticket) in
    let revenue : gross_revenue_micro f ≡ price * n * nano =
      mul_nano price f.total_tickets n total in
    let hit = hit_rate_bps-eq-contract f w n won total some_ticket in
    let return = target_rtp_bps-eq-contract f pool (price * n) budget revenue gross in
    let top = max_amount-le ts counted whole in
    let pool_max : pool ≤ 2000000000 = omega (arith, budget, v.budget_max) in
    let pooled : prize_pool_micro f / nano ≡ pool = omega (arith, budget) in
    let tickets_max : n ≤ 256 = omega (arith, v.tickets_max) in
    (
      omega (arith, budget),
      record {
        counts_whole = whole-submitted ts r whole rest;
        tickets_whole = v.tickets_whole;
        valid = rw pooled (
            validate_prize_economics_of_sums (map whole_tier (submitted ts r)) n price pool w
              (max_amount ts) (hit_rate_bps f) (target_rtp_bps f)
              (fits-submitted ts r (omega (arith, top, pool_max))
                (omega (arith, size, tickets_max)))
              (omega (arith, tickets_max)) (omega (arith, v.price_max)) (omega (arith, pool_max))
              (omega (arith, top, pool_max)) (omega (arith, hit, half_up-le w n fit some_ticket))
              rtp (no_empty-submitted ts r counted whole rest)
              (omega (arith, count-submitted ts r, size)) (budget-submitted ts r)
              (positive-submitted ts r paying) (max-submitted ts r)
              (max_amount-pos ts paying v.has_tier) gross hit return);
      },
    )
