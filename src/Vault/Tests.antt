-- ===== src/Vault/Tests.antt =====
-- The inventory of tickets on a few concrete tickets.
use lucky_scratch.Prelude.{◌≡◌, refl, true, false, none, some, List, [], ◌∷◌, ltb, length, take}
use lucky_scratch.Types.{LuckyScratchTicket, unscratched, scratched}
use lucky_scratch.Samples.{alice, ticket_with}
use lucky_scratch.Prelude.Texts.{codes}
use lucky_scratch.Prelude.Decimal.{decimal}
use lucky_scratch.Vault.{to_claim, is_ticket_ready_for_claim, is_ticket_in_tab}
use lucky_scratch.Vault.Cards.{action, claim, card}
use lucky_scratch.Vault.Tabs.{is_ticket_in_tab-unknown_reward}
use lucky_scratch.Vault.Fetch.{serve_user_tickets, list_all_user_tickets, list_all_user_tickets_lem}
use lucky_scratch.Vault.Pages.{settle_page_offset}

abbrev tickets : List LuckyScratchTicket
tickets = ticket_with 4 1 unscratched 0 ∷ ticket_with 5 1 unscratched 0 ∷ []

abbrev ticket : LuckyScratchTicket
ticket = ticket_with 6 1 scratched 0

is_ticket_in_tab-unknown_reward_example :
    (is_ticket_ready_for_claim ticket (some alice) none ≡ true)
    × (is_ticket_in_tab ticket to_claim (some alice) none ≡ false)
is_ticket_in_tab-unknown_reward_example =
    is_ticket_in_tab-unknown_reward ticket alice refl refl refl refl refl

list_all_user_tickets_lem_example :
    ((list_all_user_tickets (serve_user_tickets tickets)).items ≡ take 5000 tickets)
    × ((list_all_user_tickets (serve_user_tickets tickets)).total_count ≡ length tickets)
    × ((list_all_user_tickets (serve_user_tickets tickets)).has_more ≡ ltb 5000 (length tickets))
list_all_user_tickets_lem_example = list_all_user_tickets_lem tickets

settle_page_offset_test : settle_page_offset 72 30 ≡ 24
unfolding settle_page_offset
settle_page_offset_test = refl

button_test :
    (card decimal ticket (some alice) none false []).button ≡ claim (codes "DECRYPT & CLAIM")
unfolding card action is_ticket_ready_for_claim
button_test = refl
