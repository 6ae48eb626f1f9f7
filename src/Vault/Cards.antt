-- ===== src/Vault/Cards.antt =====
-- The cards of MyTicketsVault.tsx: the icon of a pool, the amount and the button of a card. The
-- format of an amount is a parameter, as is what the cache has for the ticket.
pub mod Laws
use lucky_scratch.Prelude.{
  ℕ, ◌%◌, Bool, true, false, not, ◌||◌, Option, none, some, List, [], ◌∷◌, ◌++◌, get_elem?, or_else,
  ◌==◌, ◌&&◌, if◌then◌else◌,
}
use lucky_scratch.Prelude.Texts.{Text, codes, trim, to_lower, includes, is_empty}
use lucky_scratch.Prelude.Decimal.{decimal}
use lucky_scratch.Types.{
  LuckyScratchTicket, TicketStatus, unscratched, claimed, LuckyScratchPool,
  LuckyScratchPoolMetadata,
}
use lucky_scratch.Vault.{
  is_unscratched, is_claimed, CardStatus, card_unrevealed, card_claimable, card_winning,
  card_no_win, card_revealed, get_ticket_card_status, is_ticket_ready_for_claim,
}

unfoldable pub pool_icon_names : List Text
pool_icon_names =
    codes "diamond" ∷ codes "stars" ∷ codes "auto_awesome" ∷ codes "light" ∷ codes "star" ∷ []

abbrev pub metadata_of : Option LuckyScratchPool → Option LuckyScratchPoolMetadata
metadata_of none = none
metadata_of (some pool) = pool.metadata

abbrev pub theme_of : Option LuckyScratchPoolMetadata → Text
theme_of none = codes " "
theme_of (some m) = to_lower (m.theme_key ++ b' ' ∷ m.theme_id)

unfoldable pub get_pool_icon : ℕ → Option LuckyScratchPool → Option Text
unfolding pool_icon_names
get_pool_icon pool_id pool =
    let theme = theme_of (metadata_of pool) in
    if includes theme (codes "diamond") || includes theme (codes "crystal")
    then some (codes "diamond")
    else if includes theme (codes "star")
    then some (codes "star")
    else if includes theme (codes "light") || includes theme (codes "sun")
    then some (codes "light")
    else if includes theme (codes "magic") || includes theme (codes "spark")
    then some (codes "auto_awesome")
    else get_elem? pool_icon_names (pool_id % 5)

unfoldable pub get_revealed_subtitle : LuckyScratchTicket → Text
get_revealed_subtitle ticket =
    if is_claimed ticket.status
    then codes "BETTER LUCK NEXT TIME"
    else if ticket.reveal_authorized
    then codes "READY TO DECRYPT"
    else codes "REVEAL AUTH PENDING"

-- `pool?.metadata?.name?.trim() || …`
unfoldable pub pool_name : ℕ → Option LuckyScratchPool → Text
unfolding trim
pool_name pool_id pool =
    let otherwise = codes "Pool #" ++ decimal pool_id in
    elim (metadata_of pool) [
      | none ↦ otherwise
      | some m ↦ if is_empty (trim m.name) then otherwise else trim m.name
    ]

abbrev pub is_given : Option ℕ → Bool
is_given none = false
is_given (some n) = true

-- The art of the ticket is shown once it is revealed or its reward is cached.
unfoldable pub ticket_art_url :
    LuckyScratchTicket → Option ℕ → Option LuckyScratchPool → Option Text
ticket_art_url ticket cached pool =
    if not (is_unscratched ticket.status) || is_given cached
    then elim (metadata_of pool) [ none ↦ none | some m ↦ m.ticket_art_url ]
    else none

module _ (format_usdc_from_micro : ℕ → Text) where
  abbrev pub usdc : ℕ → Text
  usdc amount = format_usdc_from_micro amount ++ codes " USDC"

  abbrev pub claimable_amount : Option ℕ → Text
  claimable_amount none = codes "ENCRYPTED"
  claimable_amount (some amount) = usdc amount

  unfoldable pub prize_amount : LuckyScratchTicket → CardStatus → Option ℕ → Option Text
  prize_amount ticket card_winning cached =
      some (usdc (or_else cached ticket.claim_clear_reward_amount))
  prize_amount ticket card_no_win cached =
      some (usdc (or_else cached ticket.claim_clear_reward_amount))
  prize_amount ticket card_claimable cached = some (claimable_amount cached)
  prize_amount ticket card_unrevealed cached = none
  prize_amount ticket card_revealed cached = none

-- The button of a card: a claim, with its label, or a link.
pub data Action : Type 0 where
  claim link : Text → Action

abbrev pub link_label : TicketStatus → Text
link_label unscratched = codes "REVEAL"
link_label claimed = codes "VIEW TICKET"
link_label _ = codes "VIEW RESULT"

unfoldable pub action : LuckyScratchTicket → Bool → Option ℕ → Bool → Text → Action
action ticket can_claim cached is_claiming claim_stage =
    if can_claim
    then claim (
        if is_claiming
        then if is_empty claim_stage then codes "CLAIMING" else claim_stage
        else if is_given cached
        then codes "CLAIM"
        else codes "DECRYPT & CLAIM")
    else link (link_label ticket.status)

-- A card, from its ticket, the wallet's address and the cached reward.
pub record Card : Type 0 where
  pub status : CardStatus
  pub amount : Option Text
  pub button : Action

unfoldable pub card : (ℕ → Text) → LuckyScratchTicket → Option Text → Option ℕ → Bool → Text → Card
unfolding is_ticket_ready_for_claim get_ticket_card_status prize_amount action
card format ticket address cached is_claiming claim_stage =
    let can_claim = is_ticket_ready_for_claim ticket address cached in
    let status = get_ticket_card_status ticket can_claim cached in
    record {
      status = status;
      amount = prize_amount format ticket status cached;
      button = action ticket can_claim cached is_claiming claim_stage;
    }
