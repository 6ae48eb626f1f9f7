-- ===== src/CreatePool/Tests.antt =====
-- `handleCreatePool` on a concrete form, with services that answer every call.
use lucky_scratch.Prelude.{◌≡◌, ◌<◌, ◌^◌, ◌%◌, ◌/◌, refl, Bool, true, some, [], map, arith, All}
use lucky_scratch.Prelude.Texts.{codes, trim}
use lucky_scratch.Money.{nano, to_micro_usdc, round_div}
use lucky_scratch.Samples.{sample_form}
use lucky_scratch.CreatePool.{
  Form, File, validation_errors, sanitized_tiers, prize_pool_micro, max_prize_micro, hit_rate_bps,
  target_rtp_bps, gross_revenue_micro,
}
use lucky_scratch.CreatePool.Sent.{final_prize_tiers, contract_tier}
use lucky_scratch.CreatePool.Submit.{Services, Page, Receipt, Outcome, failed}
use lucky_scratch.CreatePool.Sums.{IsPaying, IsWhole}
use lucky_scratch.CreatePool.Economics.{IsValid, final_prize_tiers-IsValid}

abbrev services : Bool → Services
services binds = record {
  upload_image = λ file address kind. some 7;
  create_pool_draft = λ input. some (record { draft_id = 3; theme_id = codes "theme" });
  write_create_pool = λ config tiers.
      some (record { tx_hash = some (codes "0x1"); created_pool_id = some (codes "9") });
  finalize_pool = λ id input. binds;
  sync_transaction = λ hash. true;
}

abbrev page : Page
page = record {
  form = sample_form;
  core_contract = true;
  treasury_contract = true;
  payment_token_contract = true;
  treasury_is_operator = true;
}

no_errors : validation_errors sample_form ≡ []
unfolding validation_errors trim lucky_scratch.CreatePool.winning_ticket_count
    lucky_scratch.CreatePool.total_prize_budget_out_of_range prize_pool_micro to_micro_usdc
no_errors = refl

whole : All IsWhole (sanitized_tiers sample_form)
whole = ground arith

rtp : target_rtp_bps sample_form < 2 ^ 16
unfolding target_rtp_bps prize_pool_micro gross_revenue_micro to_micro_usdc round_div
rtp = ground arith

paying : All IsPaying (sanitized_tiers sample_form)
unfolding to_micro_usdc
paying = ground arith

final_prize_tiers-IsValid_example :
    (prize_pool_micro sample_form % nano ≡ 0)
    × IsValid
        (map contract_tier (final_prize_tiers sample_form))
        sample_form.total_tickets
        (to_micro_usdc sample_form.ticket_price_usdc)
        (prize_pool_micro sample_form / nano)
        (hit_rate_bps sample_form)
        (target_rtp_bps sample_form)
        (max_prize_micro sample_form)
final_prize_tiers-IsValid_example = final_prize_tiers-IsValid sample_form no_errors paying whole rtp
