-- ===== src/Profile/Tests.antt =====
-- The profile of a user with two tickets, one of them claimed.
use lucky_scratch.Prelude.{◌≡◌, refl, true, none, some, List, [], ◌∷◌, ◌++◌, length}
use lucky_scratch.Prelude.Texts.{codes}
use lucky_scratch.Prelude.Decimal.{decimal}
use lucky_scratch.Types.{LuckyScratchTicket, unscratched, claimed}
use lucky_scratch.Claim.{string}
use lucky_scratch.Faucet.{gave}
use lucky_scratch.Samples.{alice, ticket_with, pool_with}
use lucky_scratch.Profile.{player_label, user_level}
use lucky_scratch.Profile.Overview.{
  Env, Services, Panel, handle_decrypt_balance, activity_items, ActivityItem, queued, throttled,
}
use lucky_scratch.Profile.Laws.{
  IsLatestFirst, IsWhole, activity_items_lem, IsSettled, IsStageLeft,
  handle_decrypt_balance-IsSettled,
}

abbrev tickets : List LuckyScratchTicket
tickets = ticket_with 4 1 unscratched 0 ∷ ticket_with 5 1 claimed 700 ∷ []

abbrev wins : List LuckyScratchTicket
wins = record (ticket_with 5 1 claimed 700) { updated_at = codes "later" } ∷ []

-- The times below are the lengths of the texts.
player_label_test : player_label (some alice) ≡ codes "PLAYER_A11CE"
unfolding player_label
player_label_test = refl

user_level_test : user_level (pool_with 1 75000000 3 ∷ []) tickets ≡ 1
unfolding user_level
user_level_test = refl

activity_items_lem_example :
    (length (activity_items decimal length wins tickets) ≡ 3)
    × (rest : List ActivityItem) × IsLatestFirst length
        (activity_items decimal length wins tickets ++ rest)
    × IsWhole wins tickets (activity_items decimal length wins tickets ++ rest)
activity_items_lem_example = activity_items_lem decimal length wins tickets

abbrev env : Env
env = record {
  address = some alice;
  has_wallet_client = true;
  chain_id = 11155111;
  payment_token_contract = some (codes "0x7c");
  confidential_balance_handle = some (codes "0xab");
}

abbrev services : Services
services = record {
  ensure_ready = gave tt;
  get_address = λ s. gave s;
  create_instance = gave tt;
  sign_typed_data = gave tt;
  user_decrypt = λ handle token user.
      (queued ∷ throttled ∷ [], gave ((codes "0xab", string (codes "25")) ∷ []));
  big_int_message = codes "Cannot convert to a BigInt";
}

abbrev panel : Panel
panel = record { balance_stage = codes "Preparing"; decrypted_cusdc_balance = none; notes = [] }

handle_decrypt_balance-IsSettled_example :
    let after = handle_decrypt_balance services env panel in
    IsSettled services env panel after × IsStageLeft env panel after
handle_decrypt_balance-IsSettled_example = handle_decrypt_balance-IsSettled services env panel
