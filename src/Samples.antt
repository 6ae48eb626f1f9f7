-- ===== src/Samples.antt =====
-- Concrete records for the tests of the other modules.
use lucky_scratch.Prelude.{ℕ, ◌*◌, true, false, none, some, List, [], ◌∷◌}
use lucky_scratch.Prelude.Texts.{Text, codes}
use lucky_scratch.Types.{
  LuckyScratchTicket, TicketStatus, LuckyScratchPool, LuckyScratchPoolRound, RoundStatus, ready,
  active, LuckyScratchPurchaseContext,
}
use lucky_scratch.Money.{nano, nano_usdc}
use lucky_scratch.CreatePool.{Form, File, community}

abbrev pub alice : Text
alice = codes "0xA11CE"

abbrev pub ticket_with : ℕ → ℕ → TicketStatus → ℕ → LuckyScratchTicket
ticket_with id pool status reward = record {
  ticket_id = id;
  pool_id = pool;
  round_id = 1;
  owner = alice;
  ticket_index = id;
  status = status;
  reveal_authorized = true;
  transferred_before_scratch = false;
  mint_tx_hash = [];
  claimed_by = [];
  claim_clear_reward_amount = reward;
  last_event_block = 0;
  last_event_tx_hash = [];
  last_event_log_index = 0;
  last_event_block_hash = [];
  created_at = [];
  updated_at = [];
}

abbrev pub round_with : RoundStatus → ℕ → LuckyScratchPoolRound
round_with status sold = record {
  pool_id = 1;
  round_id = 1;
  status = status;
  sold_count = sold;
  scratched_count = 0;
  claimed_count = 0;
  win_claimable_count = 0;
  total_tickets = 20;
  ticket_price = 1000000;
  round_prize_budget = 50000000;
  vrf_request_ref = [];
  shuffle_root = [];
  last_vrf_requested_at = [];
  last_vrf_initialized_at = [];
  last_event_block = 0;
  last_event_tx_hash = [];
  last_event_log_index = 0;
  last_event_block_hash = [];
  created_at = [];
  updated_at = [];
}

abbrev pub pool_with : ℕ → ℕ → ℕ → LuckyScratchPool
pool_with id price sold = record {
  pool_id = id;
  creator = alice;
  protocol_owned = false;
  mode = codes "OneTime";
  status = active;
  paused = false;
  close_requested = false;
  vrf_pending = false;
  initialized = true;
  theme_id = [];
  ticket_price = price;
  total_tickets_per_round = 20;
  total_prize_budget = 50000000;
  pool_instance_group_size = 1;
  fee_bps = 800;
  target_rtp_bps = 5000;
  hit_rate_bps = 4000;
  max_prize = 5000000;
  selectable = true;
  current_round = 1;
  locked_bond = 0;
  reserved_prize_budget = 0;
  locked_next_round_budget = 0;
  realized_revenue = sold * price;
  settled_prize_cost = 0;
  settled_protocol_cost = 0;
  accrued_platform_fee = 0;
  creator_profit_claimed = 0;
  claimable_creator_profit = 0;
  created_block = 0;
  created_tx_hash = [];
  last_event_block = 0;
  last_event_tx_hash = [];
  last_event_log_index = 0;
  last_event_block_hash = [];
  created_at = [];
  updated_at = [];
  current_round_state = some (round_with ready sold);
  metadata = none;
}

abbrev pub context_with : List ℕ → LuckyScratchPurchaseContext
context_with available = record {
  pool = pool_with 1 1000000 0;
  current_round = none;
  sold_ticket_indexes = [];
  available_ticket_indexes = available;
}

abbrev pub image : File
image = record { name = codes "cover.png"; size = 1000 }

-- A pool of 100 tickets at 1 USDC with ten prizes of 5 USDC, which has no validation error.
abbrev pub sample_form : Form
sample_form = record {
  address = some alice;
  pool_type = community;
  is_core_admin = false;
  pool_name = codes "Lucky";
  description = codes "A pool";
  ticket_price_usdc = nano_usdc;
  total_tickets = 100 * nano;
  loop_mode = false;
  loop_subpool_count = nano;
  reward_tiers = record { id = codes "a"; amount_usdc = 5 * nano_usdc; quantity = 10 * nano } ∷ [];
  cover_file = some image;
  ticket_art_file = some image;
}
