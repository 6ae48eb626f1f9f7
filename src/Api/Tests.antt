-- ===== src/Api/Tests.antt =====
-- Requests, a failing response, and tiers with numbers as texts.
use lucky_scratch.Prelude.{◌≡◌, refl, true, false, Option, none, some, List, [], ◌∷◌, map}
use lucky_scratch.Prelude.Texts.{Text, codes, is_empty}
use lucky_scratch.Prelude.Int.{ℤ, pos}
use lucky_scratch.Api.{ApiErrorPayload, Response, failed, request_json}
use lucky_scratch.Api.Search.{
  ListUserTicketsParams, to_claim, list_user_tickets, ticket_pairs, search_text,
}
use lucky_scratch.Api.Tiers.{
  Field, absent, number, text, scalar, object, Tiers, array, normalize_prize_tiers,
}

abbrev params : ListUserTicketsParams
params = record { limit = none; offset = some 50; view = some to_claim; pool_id = some 7 }

list_user_tickets_test :
    list_user_tickets (codes "0xA") params
    ≡ codes "/api/v1/users/0xA/tickets?limit=50&offset=50&view=to-claim&poolId=7"
unfolding list_user_tickets search_text ticket_pairs lucky_scratch.Prelude.Decimal.decimal
list_user_tickets_test = refl

abbrev response : Response ApiErrorPayload
response = record {
  ok = false;
  status = 404;
  content_type = some (codes "application/json; charset=utf-8");
  text = [];
  json = some (record { error = none; message = some (codes "no pool") });
}

abbrev read : Text → Option ℤ
read s = some (pos 2000000000)

abbrev tiers : Tiers
tiers = array (
    scalar
    ∷ object (record {
      count = absent;
      quantity = text (codes "2");
      prize_amount_usdc = absent;
      amount_usdc = absent;
      amount = number (pos 1500000000);
      prize_amount = absent;
    })
    ∷ [])

normalize_prize_tiers_test :
    normalize_prize_tiers read tiers
    ≡ record {
      prize_amount = 1500000000000000;
      count = 2000000000;
      prize_amount_usdc = some (pos 1500000000);
    }
      ∷ []
unfolding normalize_prize_tiers lucky_scratch.Api.Tiers.normalize_tier
    lucky_scratch.Api.Tiers.number_from_unknown lucky_scratch.Prelude.Texts.trim
    lucky_scratch.Api.Tiers.rounded lucky_scratch.Money.round_div
normalize_prize_tiers_test = refl
