-- ===== src/Scratch/Tests.antt =====
-- Opening one ticket that is not scratched yet and one whose reward is cached.
use lucky_scratch.Prelude.{◌≡◌, refl, true, false, none, some, List, [], ◌∷◌, map}
use lucky_scratch.Prelude.Texts.{Text, codes, text_eq}
use lucky_scratch.Prelude.Int.{pos}
use lucky_scratch.Types.{unscratched}
use lucky_scratch.Samples.{alice, ticket_with}
use lucky_scratch.TicketCache.{absent, set, Browser}
use lucky_scratch.Claim.{fulfilled, integer}
use lucky_scratch.Scratch.{
  Chain, ScratchState, TicketResult, Outcome, prepared, parse_ticket_ids, prepare_scratch_results,
}
use lucky_scratch.Prelude.Decimal.{decimal}
use lucky_scratch.Scratch.Page.{join_commas}
use lucky_scratch.Scratch.Links.{scratch_path, parse_ticket_ids-join_commas}
use lucky_scratch.Scratch.Laws.{IsPrepared, prepare_scratch_results-IsPrepared}

parse_test : parse_ticket_ids (codes "5, 6,x,5") ≡ codes "5" ∷ codes "6" ∷ []
unfolding parse_ticket_ids
parse_test = refl

abbrev chain : Chain
chain = record {
  get_ticket_reveal_state = λ id. some (0, false);
  owner_of = λ id. some alice;
  is_address_equal = text_eq;
  write_contract = λ c. some (codes "0x1");
  get_ticket_prize_handle = λ id. some (codes "0xab");
  created = fulfilled (λ handle. fulfilled (record {
    clear_values = (codes "0xab", integer (pos 900)) ∷ [];
    decryption_proof = codes "0x77";
  }));
}

abbrev ids : List Text
ids = codes "5" ∷ []

abbrev state : ScratchState
state = record {
  browser = record { has_window = true; item = absent; writable = true };
  inventory = ticket_with 5 1 unscratched 0 ∷ [];
}

abbrev results : List TicketResult
results = record { ticket_id = codes "5"; known = some (900, some (codes "0x77")) } ∷ []

abbrev last_state : ScratchState
last_state = (prepare_scratch_results chain 10 1 none alice ids state).0

prepared_run :
    prepare_scratch_results chain 10 1 none alice ids state ≡ (last_state, prepared results)
unfolding prepare_scratch_results lucky_scratch.Scratch.decrypt_all lucky_scratch.Scratch.result_of
    lucky_scratch.TicketCache.get lucky_scratch.TicketCache.read_cache
    lucky_scratch.Claim.build_ticket_claim_proof_direct lucky_scratch.Claim.zero_handle
    lucky_scratch.Claim.checked_proof lucky_scratch.Claim.get_clear_reward_amount
    lucky_scratch.Claim.pick_clear_value lucky_scratch.Claim.clear_value_to_big_int
    lucky_scratch.Claim.in_range
prepared_run = refl

prepare_scratch_results-IsPrepared_example : IsPrepared chain 10 1 none alice ids results
prepare_scratch_results-IsPrepared_example =
    prepare_scratch_results-IsPrepared chain 10 1 none alice ids state last_state results
      prepared_run

parse_ticket_ids-join_commas_example :
    parse_ticket_ids (join_commas (map decimal (40 ∷ 7 ∷ 12 ∷ []))) ≡ map decimal (40 ∷ 7 ∷ 12 ∷ [])
parse_ticket_ids-join_commas_example = parse_ticket_ids-join_commas (40 ∷ 7 ∷ 12 ∷ []) refl

path_test : scratch_path (codes "3") (map decimal (40 ∷ 7 ∷ [])) ≡ codes "/scratch/3?tickets=40,7"
unfolding scratch_path decimal
path_test = refl
