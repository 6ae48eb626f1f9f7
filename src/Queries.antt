-- ===== src/Queries.antt =====
-- The keys under which the queries are kept, and when a query runs:
-- packages/nextjs/hooks/luckyScratch/useLuckyScratchQueries.ts.
pub mod Stale
use lucky_scratch.Prelude.{
  ℕ, Bool, true, false, not, Option, none, some, List, [], ◌∷◌, if◌then◌else◌,
}
use lucky_scratch.Prelude.Texts.{Text, codes, to_lower, is_empty}
use lucky_scratch.Api.{Timeframe, timeframe_text}
use lucky_scratch.Api.Search.{TicketView, all, view_name, ListUserTicketsParams, number_or}

-- A part of a key: a text, a number or undefined.
pub data Part : Type 0 where
  text : Text → Part
  number : ℕ → Part
  undefined : Part

abbrev pub Key : Type 0
Key = List Part

pub record Query : Type 0 where
  pub key : Key
  pub enabled : Bool

abbrev pub lower_part : Option Text → Part
lower_part none = undefined
lower_part (some s) = text (to_lower s)

abbrev pub part_of : Option Text → Part
part_of none = undefined
part_of (some s) = text s

abbrev pub is_given : Option Text → Bool
is_given none = false
is_given (some s) = not (is_empty s)

-- `creator?.toLowerCase() || "all"`
abbrev pub creator_part : Option Text → Part
creator_part none = text (codes "all")
creator_part (some s) = if is_empty s then text (codes "all") else text (to_lower s)

abbrev pub root : Key → Key
root parts = text (codes "lucky-scratch") ∷ parts

abbrev pub user_key : Option Text → Key → Key
user_key address parts = root (text (codes "users") ∷ lower_part address ∷ parts)

abbrev pub view_or_all : Option TicketView → TicketView
view_or_all none = all
view_or_all (some v) = v

unfoldable pub use_health : Query
use_health = record { key = root (text (codes "health") ∷ []); enabled = true }

unfoldable pub use_user_tickets : Option Text → ListUserTicketsParams → Query
use_user_tickets address p = record {
  key = user_key address (
      text (codes "tickets")
      ∷ number (number_or 50 p.limit)
      ∷ number (number_or 0 p.offset)
      ∷ text (view_name (view_or_all p.view))
      ∷ number (number_or 0 p.pool_id)
      ∷ []);
  enabled = is_given address;
}

unfoldable pub use_user_wins : Option Text → Query
use_user_wins address = record {
  key = user_key address (text (codes "wins") ∷ []);
  enabled = is_given address;
}

unfoldable pub use_recent_wins : ℕ → Query
use_recent_wins limit = record {
  key = root (text (codes "wins") ∷ text (codes "recent") ∷ number limit ∷ []);
  enabled = true;
}

unfoldable pub use_platform_overview : Query
use_platform_overview = record {
  key = root (text (codes "stats") ∷ text (codes "overview") ∷ []);
  enabled = true;
}

unfoldable pub use_player_leaderboard : Timeframe → ℕ → Query
use_player_leaderboard timeframe limit = record {
  key = root (
      text (codes "leaderboards")
      ∷ text (codes "players")
      ∷ text (timeframe_text timeframe)
      ∷ number limit
      ∷ []);
  enabled = true;
}

unfoldable pub use_ticket : Option Text → Query
use_ticket ticket_id = record {
  key = root (text (codes "tickets") ∷ part_of ticket_id ∷ []);
  enabled = is_given ticket_id;
}

unfoldable pub use_claim_precheck : Option Text → Query
use_claim_precheck ticket_id = record {
  key = root (text (codes "tickets") ∷ part_of ticket_id ∷ text (codes "claim-precheck") ∷ []);
  enabled = is_given ticket_id;
}

unfoldable pub use_pools : Option Text → Query
use_pools creator = record {
  key = root (text (codes "pools") ∷ creator_part creator ∷ []);
  enabled = true;
}

unfoldable pub use_pool : Option Text → Query
use_pool pool_id = record {
  key = root (text (codes "pools") ∷ part_of pool_id ∷ []);
  enabled = is_given pool_id;
}

unfoldable pub use_pool_current_round : Option Text → Query
use_pool_current_round pool_id = record {
  key = root (text (codes "pools") ∷ part_of pool_id ∷ text (codes "current-round") ∷ []);
  enabled = is_given pool_id;
}

unfoldable pub use_purchase_context : Option Text → Query
use_purchase_context pool_id = record {
  key = root (text (codes "pools") ∷ part_of pool_id ∷ text (codes "purchase-context") ∷ []);
  enabled = is_given pool_id;
}

unfoldable pub use_creator_summary : Option Text → Query
use_creator_summary address = record {
  key = user_key address (text (codes "created-pools") ∷ text (codes "summary") ∷ []);
  enabled = is_given address;
}

unfoldable pub use_user_settings : Option Text → Query
use_user_settings address = record {
  key = user_key address (text (codes "settings") ∷ []);
  enabled = is_given address;
}
