-- ===== src/Types.antt =====
-- The responses of the backend: packages/nextjs/services/luckyScratch/types.ts.
-- Strings are texts, except the statuses, which are read as data with a case for any other string.
-- Amounts are micro-USDC. Fields that only pass through keep their place in the records.
use lucky_scratch.Prelude.{ℕ, Bool, Option, List}
use lucky_scratch.Prelude.Texts.{Text}

pub data TicketStatus : Type 0 where
  unscratched scratched claimed : TicketStatus
  other_status : Text → TicketStatus

pub record LuckyScratchTicket : Type 0 where
  pub ticket_id : ℕ
  pub pool_id : ℕ
  pub round_id : ℕ
  pub owner : Text
  pub ticket_index : ℕ
  pub status : TicketStatus
  pub reveal_authorized : Bool
  pub transferred_before_scratch : Bool
  pub mint_tx_hash : Text
  pub claimed_by : Text
  pub claim_clear_reward_amount : ℕ
  pub last_event_block : ℕ
  pub last_event_tx_hash : Text
  pub last_event_log_index : ℕ
  pub last_event_block_hash : Text
  pub created_at : Text
  pub updated_at : Text

pub record UserTicketsResponse : Type 0 where
  pub items : List LuckyScratchTicket
  pub limit : ℕ
  pub offset : ℕ
  pub next_offset : ℕ
  pub total_count : ℕ
  pub has_more : Bool

pub data RoundStatus : Type 0 where
  pending_vrf pending_encryption ready sold_out_round settled : RoundStatus

pub record LuckyScratchPoolRound : Type 0 where
  pub pool_id : ℕ
  pub round_id : ℕ
  pub status : RoundStatus
  pub sold_count : ℕ
  pub scratched_count : ℕ
  pub claimed_count : ℕ
  pub win_claimable_count : ℕ
  pub total_tickets : ℕ
  pub ticket_price : ℕ
  pub round_prize_budget : ℕ
  pub vrf_request_ref : Text
  pub shuffle_root : Text
  pub last_vrf_requested_at : Text
  pub last_vrf_initialized_at : Text
  pub last_event_block : ℕ
  pub last_event_tx_hash : Text
  pub last_event_log_index : ℕ
  pub last_event_block_hash : Text
  pub created_at : Text
  pub updated_at : Text

pub record PrizeTierPreview : Type 0 where
  pub prize_amount : ℕ
  pub count : ℕ
  pub prize_amount_usdc : Option ℕ

pub record LuckyScratchPoolMetadata : Type 0 where
  pub pool_id : ℕ
  pub owner_address : Text
  pub name : Text
  pub description : Text
  pub theme_key : Text
  pub theme_id : Text
  pub metadata_cid : Text
  pub metadata_uri : Text
  pub metadata_gateway_url : Text
  pub cover_asset_id : Option ℕ
  pub ticket_art_asset_id : Option ℕ
  pub cover_image_url : Option Text
  pub ticket_art_url : Option Text
  pub prize_tiers : Option (List PrizeTierPreview)

pub data PoolStatus : Type 0 where
  initializing active sold_out closing closed : PoolStatus

pub record LuckyScratchPool : Type 0 where
  pub pool_id : ℕ
  pub creator : Text
  pub protocol_owned : Bool
  pub mode : Text
  pub status : PoolStatus
  pub paused : Bool
  pub close_requested : Bool
  pub vrf_pending : Bool
  pub initialized : Bool
  pub theme_id : Text
  pub ticket_price : ℕ
  pub total_tickets_per_round : ℕ
  pub total_prize_budget : ℕ
  pub pool_instance_group_size : ℕ
  pub fee_bps : ℕ
  pub target_rtp_bps : ℕ
  pub hit_rate_bps : ℕ
  pub max_prize : ℕ
  pub selectable : Bool
  pub current_round : ℕ
  pub locked_bond : ℕ
  pub reserved_prize_budget : ℕ
  pub locked_next_round_budget : ℕ
  pub realized_revenue : ℕ
  pub settled_prize_cost : ℕ
  pub settled_protocol_cost : ℕ
  pub accrued_platform_fee : ℕ
  pub creator_profit_claimed : ℕ
  pub claimable_creator_profit : ℕ
  pub created_block : ℕ
  pub created_tx_hash : Text
  pub last_event_block : ℕ
  pub last_event_tx_hash : Text
  pub last_event_log_index : ℕ
  pub last_event_block_hash : Text
  pub created_at : Text
  pub updated_at : Text
  pub current_round_state : Option LuckyScratchPoolRound
  pub metadata : Option LuckyScratchPoolMetadata

pub record PoolConfigPreview : Type 0 where
  pub mode : Text
  pub mode_value : ℕ
  pub ticket_price_usdc : ℕ
  pub ticket_price : ℕ
  pub total_tickets_per_round : ℕ
  pub total_prize_budget_usdc : ℕ
  pub total_prize_budget : ℕ
  pub pool_instance_group_size : ℕ
  pub fee_bps : ℕ
  pub target_rtp_bps : ℕ
  pub hit_rate_bps : ℕ
  pub max_prize_usdc : ℕ
  pub max_prize : ℕ
  pub selectable : Bool
  pub estimated_bond_usdc : ℕ
  pub estimated_bond : ℕ

pub record CreatePoolDraftInput : Type 0 where
  pub owner_address : Text
  pub name : Text
  pub description : Text
  pub cover_asset_id : ℕ
  pub ticket_art_asset_id : ℕ
  pub pool_config_preview : PoolConfigPreview
  pub prize_tiers : List PrizeTierPreview

pub record PoolDraft : Type 0 where
  pub draft_id : ℕ
  pub theme_id : Text

pub record FinalizePoolInput : Type 0 where
  pub draft_id : ℕ
  pub owner_address : Text
  pub create_tx_hash : Text

pub record LuckyScratchPurchaseContext : Type 0 where
  pub pool : LuckyScratchPool
  pub current_round : Option LuckyScratchPoolRound
  pub sold_ticket_indexes : List ℕ
  pub available_ticket_indexes : List ℕ
