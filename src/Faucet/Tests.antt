-- ===== src/Faucet/Tests.antt =====
-- A faucet whose wallet rejects the wrapping.
use lucky_scratch.Prelude.{
  ◌≡◌, refl, true, none, some, List, [], ◌∷◌, ◌++◌, suc, length, ◌≤◌, ◌<◌, ◌*◌, ◌^◌,
}
use lucky_scratch.Prelude.Texts.{codes}
use lucky_scratch.Prelude.Int.{pos}
use lucky_scratch.Samples.{alice}
use lucky_scratch.Claim.{string}
use lucky_scratch.Faucet.{
  error, Answer, threw, gave, Call, mint, approve, wrap, set_operator, failure, Page, Env, Services,
  default_mint_usdc, amount_micro, clamp_mint_amount,
}
use lucky_scratch.Faucet.Handlers.{mint_and_wrap, decrypt_balance, press, handle_mint_approve_wrap}
use lucky_scratch.Faucet.Laws.{
  press-Settles, handle_mint_approve_wrap_lem, amount_micro_bounds, sent_of, refusal_of, flow,
  message_of,
}

abbrev answer : Call → Answer (Unit {0})
answer (wrap a n) = threw (error (codes "Rejected"))
answer _ = gave tt

abbrev services : Services
services = record {
  write_contract = answer;
  ensure_ready = gave tt;
  get_address = λ a. gave a;
  create_instance = gave tt;
  sign_typed_data = gave tt;
  user_decrypt = λ handle token. gave ((handle, string (codes "42")) ∷ []);
  big_int_message = codes "Cannot convert to a BigInt";
}

abbrev env : Env
env = record {
  address = some alice;
  chain_id = 11155111;
  now = 0;
  cusdc_contract = some (codes "0xC");
  underlying_contract = some (codes "0xD");
  treasury_contract = none;
  wrap_allowance = none;
  amount_usdc = default_mint_usdc;
  has_wallet_client = true;
  confidential_balance_handle = some (codes "0xab");
}

abbrev page : Page
page = record {
  stage = [];
  balance_stage = [];
  decrypted_cusdc_balance = none;
  sent = [];
  refreshed = 0;
  notes = [];
}

rejected_test : (press services env mint_and_wrap page).notes ≡ failure (codes "Rejected") ∷ []
unfolding press handle_mint_approve_wrap lucky_scratch.Faucet.can_use_faucet
    lucky_scratch.Faucet.attempt lucky_scratch.Faucet.to_error_message
    lucky_scratch.Prelude.Texts.trim
rejected_test = refl

balance_test : (press services env decrypt_balance page).decrypted_cusdc_balance ≡ some (pos 42)
unfolding press lucky_scratch.Faucet.Handlers.handle_decrypt_balance
    lucky_scratch.Faucet.attempt_balance lucky_scratch.Faucet.to_big_int_balance
    lucky_scratch.Prelude.Texts.trim lucky_scratch.Prelude.Int.big_int
balance_test = refl

press-Settles_example :
    let after = press services env mint_and_wrap page in
    ((after.stage ≡ []) × (after.balance_stage ≡ [])) × (length after.notes ≡ 1)
press-Settles_example = press-Settles services env mint_and_wrap page (refl, refl)

handle_mint_approve_wrap_lem_example :
    let after = handle_mint_approve_wrap services env page in
    (after.sent ≡ page.sent ++ sent_of services env (flow services env))
    × (after.notes
        ≡ page.notes ++ message_of services env (refusal_of services env (flow services env)) ∷ [])
unfolding lucky_scratch.Faucet.can_use_faucet
handle_mint_approve_wrap_lem_example = handle_mint_approve_wrap_lem services env page refl

amount_micro_bounds_example :
    (amount_micro 1000 ≡ clamp_mint_amount (some (1000 * 1000000000)) * 1000000)
    × (1000000 ≤ amount_micro 1000)
    × (amount_micro 1000 < 2 ^ 64)
amount_micro_bounds_example = amount_micro_bounds 1000
