-- ===== src/Vault.antt =====
-- The ticket inventory: packages/nextjs/components/my-tickets/MyTicketsVault.tsx. Tabs, search,
-- pages and the selection; the claim itself is in a child.
mod Tests
pub mod Tabs
pub mod Fetch
pub mod Pages
pub mod Selection
pub mod ClaimRun
pub mod View
pub mod Settled
pub mod Cards
use lucky_scratch.Prelude.{
  ℕ, ◌+◌, ◌-◌, ◌*◌, ◌/◌, Bool, true, false, not, ◌&&◌, ◌||◌, Option, none, some, List, [], ◌∷◌,
  ◌++◌, leb, ltb, ◌==◌, max, min, filter, length, take, drop, sum_by, if◌then◌else◌, or_else,
}
use lucky_scratch.Prelude.Texts.{Text, codes, text_eq, to_lower, trim, includes, is_empty}
use lucky_scratch.Prelude.Decimal.{decimal}
use lucky_scratch.Types.{
  LuckyScratchTicket, TicketStatus, unscratched, scratched, claimed, other_status,
}

pub data TicketTab : Type 0 where
  all_tickets unrevealed revealed winning to_claim : TicketTab

abbrev pub page_size : ℕ
page_size = 24

abbrev pub is_unscratched : TicketStatus → Bool
is_unscratched unscratched = true
is_unscratched _ = false

abbrev pub is_scratched : TicketStatus → Bool
is_scratched scratched = true
is_scratched _ = false

abbrev pub is_claimed : TicketStatus → Bool
is_claimed claimed = true
is_claimed _ = false

abbrev pub status_text : TicketStatus → Text
status_text unscratched = codes "Unscratched"
status_text scratched = codes "Scratched"
status_text claimed = codes "Claimed"
status_text (other_status s) = s

abbrev spaced : Text → Text → Text
spaced s t = s ++ b' ' ∷ t

unfoldable pub ticket_search_text : LuckyScratchTicket → Text
ticket_search_text t = to_lower (
    spaced (decimal t.ticket_id) (
      spaced (decimal t.pool_id)
        (spaced (decimal t.round_id) (spaced (decimal t.ticket_index) (status_text t.status)))))

abbrev pub owned_by : LuckyScratchTicket → Text → Bool
owned_by t address = text_eq (to_lower t.owner) (to_lower address)

-- A positive cached reward, or a scratched ticket that may be revealed where nothing is cached.
abbrev reward_or_scratched : LuckyScratchTicket → Option ℕ → Bool
reward_or_scratched t none = is_scratched t.status && t.reveal_authorized
reward_or_scratched t (some amount) = ltb 0 amount

unfoldable pub is_ticket_ready_for_claim : LuckyScratchTicket → Option Text → Option ℕ → Bool
is_ticket_ready_for_claim t none cached = false
is_ticket_ready_for_claim t (some address) cached =
    not (is_empty address)
    && not (is_claimed t.status)
    && reward_or_scratched t cached
    && owned_by t address

unfoldable pub get_known_reward_amount : LuckyScratchTicket → Option ℕ → ℕ
get_known_reward_amount t cached = or_else cached t.claim_clear_reward_amount

unfoldable pub is_ticket_in_tab : LuckyScratchTicket → TicketTab → Option Text → Option ℕ → Bool
unfolding is_ticket_ready_for_claim get_known_reward_amount
is_ticket_in_tab t all_tickets address cached = true
is_ticket_in_tab t unrevealed address cached = is_unscratched t.status
is_ticket_in_tab t revealed address cached = not (is_unscratched t.status)
is_ticket_in_tab t winning address cached = ltb 0 (get_known_reward_amount t cached)
is_ticket_in_tab t to_claim address cached =
    is_ticket_ready_for_claim t address (some (get_known_reward_amount t cached))

pub data CardStatus : Type 0 where
  card_unrevealed card_claimable card_winning card_no_win card_revealed : CardStatus

abbrev is_zero : Option ℕ → Bool
is_zero none = false
is_zero (some n) = n == 0

unfoldable pub get_ticket_card_status : LuckyScratchTicket → Bool → Option ℕ → CardStatus
get_ticket_card_status t can_claim cached =
    if is_unscratched t.status
    then card_unrevealed
    else if can_claim
    then card_claimable
    else if ltb 0 (or_else cached t.claim_clear_reward_amount)
    then card_winning
    else if is_claimed t.status || is_zero cached
    then card_no_win
    else card_revealed

-- The tickets of a tab that match the search; the cache is read for each.
unfoldable pub filtered_tickets :
    (ℕ → Option ℕ)
    → List LuckyScratchTicket
    → TicketTab
    → Option Text
    → Text
    → List LuckyScratchTicket
filtered_tickets cached tickets tab address search =
    let needle = to_lower (trim search) in
    filter
      (λ t.
        is_ticket_in_tab t tab address (cached t.ticket_id)
        && (is_empty needle || includes (ticket_search_text t) needle))
      tickets

unfoldable pub visible_tickets : List LuckyScratchTicket → ℕ → List LuckyScratchTicket
visible_tickets filtered page_offset = take page_size (drop page_offset filtered)

unfoldable pub total_winnings : List LuckyScratchTicket → ℕ
total_winnings tickets =
    sum_by LuckyScratchTicket.claim_clear_reward_amount (filter (λ t. is_claimed t.status) tickets)

unfoldable pub pending_rewards : (ℕ → Option ℕ) → List LuckyScratchTicket → Option Text → ℕ
pending_rewards cached tickets address =
    sum_by (λ t. get_known_reward_amount t (cached t.ticket_id))
      (filter (λ t. is_ticket_in_tab t to_claim address (cached t.ticket_id)) tickets)
