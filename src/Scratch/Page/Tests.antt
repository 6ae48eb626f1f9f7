-- ===== src/Scratch/Page/Tests.antt =====
-- A page with every input present.
use lucky_scratch.Prelude.{◌≡◌, refl, true, false, none, some, [], ◌∷◌, ◌+◌}
use lucky_scratch.Prelude.Texts.{codes}
use lucky_scratch.Samples.{alice}
use lucky_scratch.Scratch.Page.{
  Inputs, Page, prepare_effect, retry_prepare_scratch_results, effect_guard, run_key_of,
}
use lucky_scratch.Scratch.Page.Laws.{retry_prepare_scratch_results-twice}

abbrev inputs : Inputs
inputs = record {
  address = some alice;
  chain_id = some 31337;
  has_public_client = true;
  core_contract = some (codes "0xC0");
  has_ticket_contract = true;
  is_loading = false;
  is_write_contract_ready = true;
  ticket_ids = codes "5" ∷ codes "6" ∷ [];
}

abbrev page : Page
page = record { prepare_error = some (codes "failed"); run_key = []; started = 0 }

run_key_test : run_key_of inputs ≡ codes "0xa11ce:31337:0xC0:5,6"
unfolding run_key_of lucky_scratch.Prelude.Decimal.decimal
run_key_test = refl

retry_prepare_scratch_results-twice_example :
    (prepare_effect inputs (retry_prepare_scratch_results inputs page)).started ≡ 2
unfolding effect_guard
retry_prepare_scratch_results-twice_example = retry_prepare_scratch_results-twice inputs page refl
