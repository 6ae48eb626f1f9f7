-- ===== src/CreatePool/Sent.antt =====
-- What `handleCreatePool` of CreatePoolPage.tsx sends: the draft for the backend, and the arguments
-- of the contract's `createPool`. The draft has the counts in billionths of a ticket, the budget and
-- the bond in billionths of a micro-USDC, which in USDC are numbers of 10^-15.
use lucky_scratch.Prelude.{
  ℕ, ◌*◌, ◌/◌, Bool, true, some, List, [], ◌∷◌, ◌++◌, map, ltb, if◌then◌else◌,
}
use lucky_scratch.Prelude.Texts.{Text, codes, trim}
use lucky_scratch.Types.{PrizeTierPreview, CreatePoolDraftInput}
use lucky_scratch.Money.{nano, platform_fee_bps, to_micro_usdc}
use lucky_scratch.CreatePool.{
  Form, RewardTierDraft, is_official, sanitized_tiers, remaining_ticket_count, prize_pool_micro,
  max_prize_micro, hit_rate_bps, target_rtp_bps, estimated_bond_micro,
}

-- The first argument of the contract's `createPool`. Counts of tickets and of instances are the
-- numbers of the form, in billionths; amounts have gone through `BigInt` and are whole.
pub record PoolConfig : Type 0 where
  pub mode : ℕ
  pub creator : Text
  pub protocol_owned : Bool
  pub pool_instance_group_size : ℕ
  pub ticket_price : ℕ
  pub total_tickets_per_round : ℕ
  pub total_prize_budget : ℕ
  pub fee_bps : ℕ
  pub target_rtp_bps : ℕ
  pub hit_rate_bps : ℕ
  pub max_prize : ℕ
  pub theme_id : Text
  pub selectable : Bool

abbrev pub preview_tier : RewardTierDraft → PrizeTierPreview
preview_tier t = record {
  prize_amount = to_micro_usdc t.amount_usdc;
  count = t.quantity;
  prize_amount_usdc = some t.amount_usdc;
}

abbrev pub losing_tier : ℕ → PrizeTierPreview
losing_tier n = record { prize_amount = 0; count = n; prize_amount_usdc = some 0 }

unfoldable pub final_prize_tiers : Form → List PrizeTierPreview
final_prize_tiers f =
    map preview_tier (sanitized_tiers f)
    ++ (if ltb 0 (remaining_ticket_count f)
        then losing_tier (remaining_ticket_count f) ∷ []
        else [])

-- A tier in the second argument: a whole amount and a count of the form.
pub record TierArgument : Type 0 where
  pub prize_amount : ℕ
  pub count : ℕ

abbrev pub contract_tier : PrizeTierPreview → TierArgument
contract_tier t = record { prize_amount = t.prize_amount; count = t.count }

abbrev pub group_size : Form → ℕ
group_size f = if f.loop_mode then f.loop_subpool_count else nano

unfoldable pub draft_input : Form → Text → ℕ → ℕ → CreatePoolDraftInput
draft_input f address cover art = record {
  owner_address = address;
  name = trim f.pool_name;
  description = trim f.description;
  cover_asset_id = cover;
  ticket_art_asset_id = art;
  pool_config_preview = record {
    mode = if f.loop_mode then codes "Loop" else codes "OneTime";
    mode_value = if f.loop_mode then 1 else 0;
    ticket_price_usdc = f.ticket_price_usdc;
    ticket_price = to_micro_usdc f.ticket_price_usdc;
    total_tickets_per_round = f.total_tickets;
    total_prize_budget_usdc = prize_pool_micro f;
    total_prize_budget = prize_pool_micro f;
    pool_instance_group_size = group_size f;
    fee_bps = platform_fee_bps;
    target_rtp_bps = target_rtp_bps f;
    hit_rate_bps = hit_rate_bps f;
    max_prize_usdc = max_prize_micro f * 1000;
    max_prize = max_prize_micro f;
    selectable = true;
    estimated_bond_usdc = estimated_bond_micro f;
    estimated_bond = estimated_bond_micro f;
  };
  prize_tiers = final_prize_tiers f;
}

unfoldable pub pool_config : Form → Text → Text → PoolConfig
pool_config f address theme = record {
  mode = if f.loop_mode then 1 else 0;
  creator = address;
  protocol_owned = is_official f.pool_type;
  pool_instance_group_size = group_size f;
  ticket_price = to_micro_usdc f.ticket_price_usdc;
  total_tickets_per_round = f.total_tickets;
  total_prize_budget = prize_pool_micro f / nano;
  fee_bps = platform_fee_bps;
  target_rtp_bps = target_rtp_bps f;
  hit_rate_bps = hit_rate_bps f;
  max_prize = max_prize_micro f;
  theme_id = theme;
  selectable = true;
}
