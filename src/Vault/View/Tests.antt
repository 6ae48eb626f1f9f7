-- ===== src/Vault/View/Tests.antt =====
-- Thirty tickets to reveal among a hundred, seen from the fourth page.
use lucky_scratch.Prelude.{
  ℕ, zero, suc, ◌≡◌, ◌⊎◌, inl, inr, refl, Bool, true, Option, none, List, [], ◌∷◌, ◌++◌, arith, ◌<◌,
  ◌%◌,
}
use lucky_scratch.Types.{LuckyScratchTicket, TicketStatus, unscratched, scratched}
use lucky_scratch.Samples.{ticket_with}
use lucky_scratch.Vault.{unrevealed}
use lucky_scratch.Vault.View.{
  View, Event, next_page, select_all, set_active_tab, handle, has_next_page, effects, step, run,
  mount, total_count, reset_effect, settle_effect, clear_effect,
}
use lucky_scratch.Vault.View.Laws.{IsPage, run-IsPage, step-rests, set_active_tab-page}

abbrev tickets_from : ℕ → TicketStatus → ℕ → List LuckyScratchTicket
tickets_from id status zero = []
tickets_from id status (suc n) = ticket_with id 1 status 0 ∷ tickets_from (suc id) status n

abbrev cached : ℕ → Option ℕ
cached id = none

abbrev first : View
first = mount none (tickets_from 1 unscratched 30 ++ tickets_from 31 scratched 70)

abbrev fourth : List Event
fourth = next_page ∷ next_page ∷ next_page ∷ select_all true ∷ []

fourth_test : (run cached first fourth).page_offset ≡ 72
unfolding run step handle has_next_page effects reset_effect settle_effect clear_effect total_count
    mount lucky_scratch.Vault.filtered_tickets lucky_scratch.Vault.is_ticket_in_tab
    lucky_scratch.Prelude.Texts.trim lucky_scratch.Vault.Pages.settle_page_offset
fourth_test = refl

tab_test : (run cached first (fourth ++ set_active_tab unrevealed ∷ [])).page_offset ≡ 24
unfolding run step handle has_next_page effects reset_effect settle_effect clear_effect total_count
    mount lucky_scratch.Vault.filtered_tickets lucky_scratch.Vault.is_ticket_in_tab
    lucky_scratch.Prelude.Texts.trim lucky_scratch.Vault.Pages.settle_page_offset
tab_test = refl

run-IsPage_example : IsPage cached (run cached first fourth)
unfolding mount
run-IsPage_example = run-IsPage cached first fourth (refl, inl refl)

step-rests_example :
    effects cached
      (effects cached first (handle cached first next_page))
      (step cached first next_page)
    ≡ step cached first next_page
unfolding mount
step-rests_example = step-rests cached first next_page (refl, inl refl)

abbrev late : View
late = record first { page_offset = 72 }

late_total : total_count cached late ≡ 100
unfolding total_count mount lucky_scratch.Vault.filtered_tickets
    lucky_scratch.Vault.is_ticket_in_tab lucky_scratch.Prelude.Texts.trim
late_total = refl

set_active_tab-page_example :
    ((step cached late (set_active_tab unrevealed)).page_offset ≡ 24)
    × ((step cached late (set_active_tab unrevealed)).selected_ticket_ids ≡ [])
unfolding mount handle total_count lucky_scratch.Vault.filtered_tickets
    lucky_scratch.Vault.is_ticket_in_tab lucky_scratch.Prelude.Texts.trim
set_active_tab-page_example =
    set_active_tab-page cached late unrevealed (refl, inr (omega (arith, late_total))) refl
