-- ===== src/Purchase/Tests.antt =====
-- A purchase of two chosen tickets, and the selection that leads to it.
use lucky_scratch.Prelude.{
  ℕ, ◌≤◌, ◌<◌, ◌≡◌, ◌⊎◌, ◌↔◌, refl, Bool, true, false, ◌&&◌, Option, none, some, List, [], ◌∷◌, map,
  ltb, length, get_elem?, ◌/◌, ◌%◌, count_by, All, arith,
}
use lucky_scratch.Prelude.Sorting.{sort_by}
use lucky_scratch.Prelude.Texts.{Text, codes}
use lucky_scratch.Prelude.Decimal.{decimal}
use lucky_scratch.Types.{PrizeTierPreview}
use lucky_scratch.Samples.{alice, context_with}
use lucky_scratch.Purchase.{
  Picks, manual, before, build_prize_structure, format_ticket_display_id, indexes_of,
  display_id_to_index,
}
use lucky_scratch.Purchase.Selection.{Pick, select, deselect}
use lucky_scratch.Purchase.Handler.{
  Services, View, written, PurchaseEvent, bought, can_submit_purchase, purchase_call,
  handle_purchase,
}
use lucky_scratch.Purchase.Runs.{writes, handle_purchase-IsAllowed}
use lucky_scratch.Purchase.Handler.{refusal}
use lucky_scratch.Purchase.Hint.{status_hint, authorizes}
use lucky_scratch.Purchase.Hint.Laws.{invites, is_selection, status_hint-refusal}
use lucky_scratch.Purchase.Bought.{IsBought, handle_purchase-IsBought}

abbrev ids : List Text
ids = codes "0003" ∷ codes "0008" ∷ []

abbrev services : Services
services = record {
  set_operator = none;
  refetched = some (context_with (2 ∷ 5 ∷ 7 ∷ []));
  write_purchase = λ c.
      written (some (record { pool_id = some (codes "1"); ticket_id = some (codes "40") } ∷ []))
        (some (codes "0x1"));
  refetched_after = none;
}

abbrev view : View
view = record {
  pool_id = codes "1";
  context = context_with (2 ∷ 7 ∷ 5 ∷ []);
  picks = record { mode = manual; selected_ids = ids; quick_quantity = 3 };
  quick_pick_ids = [];
  address = some alice;
  core_contract = true;
  operator_check_available = true;
  treasury_is_operator = false;
  has_balance_handle = true;
  is_gallery_ready = true;
}

handle_purchase_test : (handle_purchase services view).outcome ≡ bought (codes "40" ∷ [])
unfolding handle_purchase lucky_scratch.Purchase.Handler.refusal lucky_scratch.Purchase.round_ready
    can_submit_purchase lucky_scratch.Purchase.active_count
    lucky_scratch.Purchase.active_ticket_indexes indexes_of lucky_scratch.Purchase.active_selection
    format_ticket_display_id lucky_scratch.Prelude.Decimal.pad_start decimal
    lucky_scratch.Purchase.Handler.purchase lucky_scratch.Purchase.Handler.purchased_ticket_ids
handle_purchase_test = refl

handle_purchase-IsAllowed_example :
    (writes (handle_purchase services view).calls ≡ [])
    ⊎ ((writes (handle_purchase services view).calls ≡ purchase_call view ∷ [])
        × (can_submit_purchase view ≡ true)
        × ((view.treasury_is_operator ≡ true) ⊎ (services.set_operator ≡ none)))
handle_purchase-IsAllowed_example = handle_purchase-IsAllowed services view

handle_purchase-IsBought_example :
    IsBought services view (codes "40" ∷ []) (handle_purchase services view)
handle_purchase-IsBought_example =
    handle_purchase-IsBought services view (codes "40" ∷ []) handle_purchase_test

abbrev picks : List Pick
picks =
    select (codes "0003")
    ∷ select (codes "0003")
    ∷ select (codes "0009")
    ∷ deselect (codes "0009")
    ∷ []

as_many : length (indexes_of (2 ∷ 7 ∷ 5 ∷ []) ids) ≡ length ids
unfolding indexes_of format_ticket_display_id lucky_scratch.Prelude.Decimal.pad_start decimal
as_many = refl

abbrev tier : ℕ → ℕ → PrizeTierPreview
tier amount count = record { prize_amount = amount; count = count; prize_amount_usdc = none }

abbrev tiers : List PrizeTierPreview
tiers = tier 5 1 ∷ tier 0 3 ∷ tier 9 1 ∷ tier 5 2 ∷ []

build_prize_structure_test : build_prize_structure tiers ≡ tier 9 1 ∷ tier 5 2 ∷ tier 5 1 ∷ []
unfolding build_prize_structure sort_by
build_prize_structure_test = refl

status_hint-refusal_example :
    (invites (status_hint (record { is_loading = false; is_error = false }) view) ≡ true)
    ↔ ((is_selection (refusal view) ≡ true) × (false ≡ false) × (false ≡ false))
status_hint-refusal_example =
    status_hint-refusal (record { is_loading = false; is_error = false }) view refl

status_hint_test : status_hint (record { is_loading = false; is_error = false }) view ≡ authorizes
unfolding status_hint lucky_scratch.Purchase.round_ready
status_hint_test = refl
