-- ===== src/CreatePool.antt =====
-- The form of packages/nextjs/components/create-pool/CreatePoolPage.tsx: its prize tiers, the
-- figures derived from them and the validation. The fields for numbers keep what `Number` makes of a
-- text, which may have a fraction: counts and amounts are in billionths, of a ticket or of a USDC, and
-- sums of amounts times counts are in billionths of a micro-USDC.
mod Tests
pub mod Sent
pub mod Submit
pub mod Sums
pub mod Economics
pub mod Tiers
pub mod Runs
pub mod Authorize
use lucky_scratch.Prelude.{
  ℕ, ◌+◌, ◌-◌, ◌*◌, ◌/◌, ◌%◌, Bool, true, false, not, ◌&&◌, ◌||◌, Option, none, some, List, [], ◌∷◌,
  map, leb, ltb, ◌==◌, max, any, filter, length, sum_by, is_some, if◌then◌else◌,
}
use lucky_scratch.Prelude.Texts.{Text, text_eq, trim}
use lucky_scratch.Money.{
  platform_fee_bps, max_tickets_per_round, min_total_prize_budget_usdc, max_total_prize_budget_usdc,
  supported_ticket_prices_usdc, round_div, to_micro_usdc, nano, compute_bond_requirement_micro,
}

pub data PoolType : Type 0 where
  official community : PoolType

abbrev pub is_official : PoolType → Bool
is_official official = true
is_official community = false

pub record RewardTierDraft : Type 0 where
  pub id : Text
  pub amount_usdc : ℕ
  pub quantity : ℕ

pub record File : Type 0 where
  pub name : Text
  pub size : ℕ

-- The state of the form, and what the wallet says of its user.
pub record Form : Type 0 where
  pub address : Option Text
  pub pool_type : PoolType
  pub is_core_admin : Bool
  pub pool_name : Text
  pub description : Text
  pub ticket_price_usdc : ℕ
  pub total_tickets : ℕ
  pub loop_mode : Bool
  pub loop_subpool_count : ℕ
  pub reward_tiers : List RewardTierDraft
  pub cover_file : Option File
  pub ticket_art_file : Option File

abbrev pub is_positive_tier : RewardTierDraft → Bool
is_positive_tier t = ltb 0 t.amount_usdc && ltb 0 t.quantity

abbrev pub sanitized_tiers : Form → List RewardTierDraft
sanitized_tiers f = filter is_positive_tier f.reward_tiers

abbrev pub tier_cost : RewardTierDraft → ℕ
tier_cost t = to_micro_usdc t.amount_usdc * t.quantity

abbrev pub max_amount : List RewardTierDraft → ℕ
max_amount [] = 0
max_amount (t ∷ ts) = max (to_micro_usdc t.amount_usdc) (max_amount ts)

unfoldable pub winning_ticket_count : Form → ℕ
winning_ticket_count f = sum_by RewardTierDraft.quantity (sanitized_tiers f)

-- Read by the page only where it is positive; it stops at 0 here.
unfoldable pub remaining_ticket_count : Form → ℕ
unfolding winning_ticket_count
remaining_ticket_count f = f.total_tickets - winning_ticket_count f

unfoldable pub prize_pool_micro : Form → ℕ
prize_pool_micro f = sum_by tier_cost (sanitized_tiers f)

unfoldable pub gross_revenue_micro : Form → ℕ
gross_revenue_micro f = to_micro_usdc f.ticket_price_usdc * f.total_tickets

unfoldable pub max_prize_micro : Form → ℕ
max_prize_micro f = max_amount (sanitized_tiers f)

unfoldable pub hit_rate_bps : Form → ℕ
hit_rate_bps f =
    if ltb 0 f.total_tickets then round_div (winning_ticket_count f * 10000) f.total_tickets else 0

unfoldable pub target_rtp_bps : Form → ℕ
target_rtp_bps f =
    if ltb 0 (gross_revenue_micro f)
    then round_div (prize_pool_micro f * 10000) (gross_revenue_micro f)
    else 0

unfoldable pub max_prize_share_bps : Form → ℕ
max_prize_share_bps f =
    if ltb 0 (prize_pool_micro f)
    then round_div (max_prize_micro f * nano * 10000) (prize_pool_micro f)
    else 0

unfoldable pub estimated_bond_micro : Form → ℕ
estimated_bond_micro f = compute_bond_requirement_micro (prize_pool_micro f)

unfoldable pub platform_fee_micro : Form → ℕ
platform_fee_micro f = gross_revenue_micro f * platform_fee_bps / (10000 * nano)

pub data LotteryWinType : Type 0 where
  high_win_rate balanced high_multiplier : LotteryWinType

unfoldable pub derive_lottery_win_type : ℕ → ℕ → LotteryWinType
derive_lottery_win_type hit_rate share =
    if leb 5000 hit_rate && leb share 2000
    then high_win_rate
    else if ltb hit_rate 3000 || leb 2500 share
    then high_multiplier
    else balanced

unfoldable pub total_prize_budget_out_of_range : Form → Bool
total_prize_budget_out_of_range f =
    ltb (prize_pool_micro f) (to_micro_usdc min_total_prize_budget_usdc * nano)
    || ltb (to_micro_usdc max_total_prize_budget_usdc * nano) (prize_pool_micro f)

-- `Number.isInteger`
abbrev pub is_integer : ℕ → Bool
is_integer n = n % nano == 0

pub data ValidationError : Type 0 where
  no_wallet not_admin bad_name bad_description no_cover no_ticket_art : ValidationError
  bad_total_tickets bad_ticket_price no_winning_tier empty_tier : ValidationError
  too_many_winners budget_out_of_range : ValidationError

-- `condition ? message : null` behind `.filter(Boolean)`
abbrev pub report : Bool → ValidationError → List ValidationError → List ValidationError
report true e es = e ∷ es
report false e es = es

unfoldable pub validation_errors : Form → List ValidationError
validation_errors f = report (not (is_some f.address)) no_wallet (
    report (is_official f.pool_type && not f.is_core_admin) not_admin (
      report (ltb (length (trim f.pool_name)) 2 || ltb 48 (length (trim f.pool_name))) bad_name (
        report (ltb 280 (length (trim f.description))) bad_description (
          report (not (is_some f.cover_file)) no_cover (
            report (not (is_some f.ticket_art_file)) no_ticket_art (
              report
                (not (is_integer f.total_tickets)
                  || ltb f.total_tickets nano
                  || ltb (max_tickets_per_round * nano) f.total_tickets)
                bad_total_tickets
                (report (not (any (λ p. p == f.ticket_price_usdc) supported_ticket_prices_usdc))
                  bad_ticket_price
                  (report (length (sanitized_tiers f) == 0) no_winning_tier (
                    report (any (λ t. t.amount_usdc == 0 || t.quantity == 0) f.reward_tiers)
                      empty_tier
                      (report (ltb f.total_tickets (winning_ticket_count f)) too_many_winners (
                        report (total_prize_budget_out_of_range f) budget_out_of_range [])))))))))))
