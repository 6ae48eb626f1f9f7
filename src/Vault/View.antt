-- ===== src/Vault/View.antt =====
-- The inventory of MyTicketsVault.tsx as its user sees it: the tab, the search, the page and the
-- selection, and the three effects on them. After an event the effects run with what was rendered,
-- and again with what they set. A button for a page is pressed while no fetch is under way. Rewards in
-- the cache stay as they are.
pub mod Laws
mod Tests
use lucky_scratch.Prelude.{
  ℕ, ◌+◌, ◌-◌, ◌<◌, max, Bool, true, false, not, ◌&&◌, ◌||◌, Option, none, some, List, [], ◌∷◌, ltb,
  ◌==◌, length, any, filter, if◌then◌else◌,
}
use lucky_scratch.Prelude.Texts.{Text, text_eq, to_lower, trim}
use lucky_scratch.Types.{LuckyScratchTicket}
use lucky_scratch.Vault.{
  TicketTab, all_tickets, unrevealed, revealed, winning, to_claim, page_size, is_unscratched,
  filtered_tickets, visible_tickets, is_ticket_in_tab,
}
use lucky_scratch.Vault.Pages.{settle_page_offset}
use lucky_scratch.Vault.Selection.{toggle_ticket, set_all_filtered_selected, selected_tickets}

pub record View : Type 0 where
  pub active_tab : TicketTab
  pub search_query : Text
  pub page_offset : ℕ
  pub selected_ticket_ids : List ℕ
  pub address : Option Text
  pub tickets : List LuckyScratchTicket  -- what the query has for the address

pub data Event : Type 0 where
  set_active_tab : TicketTab → Event
  set_search_query : Text → Event
  set_wallet : Option Text → List LuckyScratchTicket → Event
  set_tickets : List LuckyScratchTicket → Event
  previous_page next_page : Event
  toggle : ℕ → Event
  select_all : Bool → Event

abbrev pub same_tab : TicketTab → TicketTab → Bool
same_tab all_tickets all_tickets = true
same_tab unrevealed unrevealed = true
same_tab revealed revealed = true
same_tab winning winning = true
same_tab to_claim to_claim = true
same_tab _ _ = false

abbrev pub same_address : Option Text → Option Text → Bool
same_address none none = true
same_address (some a) (some b) = text_eq a b
same_address _ _ = false

abbrev pub normalized_search : View → Text
normalized_search v = to_lower (trim v.search_query)

abbrev pub clear : View → View
clear v = record v { selected_ticket_ids = [] }

-- The effect on `[activeTab, address, normalizedSearch]`.
abbrev pub is_reset : View → View → Bool
is_reset before v =
    not (same_tab before.active_tab v.active_tab)
    || not (same_address before.address v.address)
    || not (text_eq (normalized_search before) (normalized_search v))

module _ (cached : ℕ → Option ℕ) where
  abbrev pub filtered : View → List LuckyScratchTicket
  filtered v = filtered_tickets cached v.tickets v.active_tab v.address v.search_query

  unfoldable pub total_count : View → ℕ
  total_count v = length (filtered v)

  abbrev pub visible : View → List LuckyScratchTicket
  visible v = visible_tickets (filtered v) v.page_offset

  unfoldable pub has_previous_page : View → Bool
  has_previous_page v = ltb 0 v.page_offset

  unfoldable pub has_next_page : View → Bool
  unfolding total_count
  has_next_page v = ltb (v.page_offset + page_size) (total_count v)

  unfoldable pub handle : View → Event → View
  handle v (set_active_tab tab) = record v { active_tab = tab }
  handle v (set_search_query text) = record v { search_query = text }
  handle v (set_wallet address tickets) = record v { address = address; tickets = tickets }
  handle v (set_tickets tickets) = record v { tickets = tickets }
  handle v previous_page =
      if has_previous_page v
      then record v { page_offset = max 0 (v.page_offset - page_size) }
      else v
  handle v next_page =
      if has_next_page v then record v { page_offset = v.page_offset + page_size } else v
  handle v (toggle id) =
      if any (λ t. t.ticket_id == id) (visible v)
      then record v { selected_ticket_ids = toggle_ticket id v.selected_ticket_ids }
      else v
  handle v (select_all checked) = record v {
    selected_ticket_ids = set_all_filtered_selected (visible v) checked v.selected_ticket_ids;
  }

  unfoldable pub reset_effect : View → View → View → View
  reset_effect before v w = if is_reset before v then clear (record w { page_offset = 0 }) else w

  -- The effect on `[pageOffset, totalCount]` reads the offset that was rendered, and sets it last.
  unfoldable pub settle_effect : View → View → View → View
  unfolding settle_page_offset
  settle_effect before v w =
      if v.page_offset == before.page_offset && total_count v == total_count before
      then w
      else if settle_page_offset v.page_offset (total_count v) == v.page_offset
      then w
      else record w { page_offset = settle_page_offset v.page_offset (total_count v) }

  -- The effect on `[pageOffset]`.
  unfoldable pub clear_effect : View → View → View → View
  clear_effect before v w = if v.page_offset == before.page_offset then w else clear w

  -- What the effects of one render set: `v` is rendered after `before`.
  unfoldable pub effects : View → View → View
  unfolding reset_effect settle_effect clear_effect
  effects before v = clear_effect before v (settle_effect before v (reset_effect before v v))

  unfoldable pub step : View → Event → View
  unfolding handle effects
  step v e = let w = handle v e in let x = effects v w in effects w x

  unfoldable pub run : View → List Event → View
  run v [] = v
  run v (e ∷ es) = run (step v e) es

unfoldable pub mount : Option Text → List LuckyScratchTicket → View
mount address tickets = record {
  active_tab = all_tickets;
  search_query = [];
  page_offset = 0;
  selected_ticket_ids = [];
  address = address;
  tickets = tickets;
}

-- What the buttons for a reveal are pressed on.
unfoldable pub selected_unrevealed_tickets :
    List LuckyScratchTicket → List ℕ → List LuckyScratchTicket
selected_unrevealed_tickets visible selected =
    filter (λ t. is_unscratched t.status) (selected_tickets visible selected)

unfoldable pub all_unrevealed_tickets : List LuckyScratchTicket → List LuckyScratchTicket
all_unrevealed_tickets filtered = filter (λ t. is_unscratched t.status) filtered

unfoldable pub all_claimable_tickets :
    (ℕ → Option ℕ) → Option Text → List LuckyScratchTicket → List LuckyScratchTicket
all_claimable_tickets cached address tickets =
    filter (λ t. is_ticket_in_tab t to_claim address (cached t.ticket_id)) tickets
