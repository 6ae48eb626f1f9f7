-- ===== src/Vault/ClaimRun/Tests.antt =====
-- A claim of one ticket whose reward is decrypted afresh and of one with a cached proof.
use lucky_scratch.Prelude.{◌≡◌, refl, true, none, some, List, [], ◌∷◌}
use lucky_scratch.Prelude.Texts.{codes}
use lucky_scratch.Prelude.Int.{pos}
use lucky_scratch.Types.{LuckyScratchTicket, scratched}
use lucky_scratch.Samples.{alice, ticket_with}
use lucky_scratch.TicketCache.{
  Browser, absent, get, set, read_cache, write_cache, cache_key, build_cache_entry,
}
use lucky_scratch.Prelude.Decimal.{decimal}
use lucky_scratch.Vault.{is_ticket_ready_for_claim}
use lucky_scratch.Claim.{
  build_ticket_claim_proof_direct, zero_handle, checked_proof, get_clear_reward_amount,
  pick_clear_value, clear_value_to_big_int, in_range, fulfilled, integer, PublicDecryptResults,
}
use lucky_scratch.Vault.ClaimRun.{
  Chain, VaultState, sent, returns, ClaimMutationResult, claimable, collect, claim_step, submit,
  claim_rewards, sepolia_chain_id,
}
use lucky_scratch.Vault.ClaimRun.Laws.{IsPaid, claim_rewards-IsPaid}

abbrev answer : PublicDecryptResults
answer = record {
  clear_values = (codes "0xab", integer (pos 900)) ∷ [];
  decryption_proof = codes "0x77";
}

abbrev chain : Chain
chain = record {
  get_ticket_reveal_state = λ id. some (1, true);
  get_ticket_prize_handle = λ id. some (codes "0xab");
  created = fulfilled (λ handle. fulfilled answer);
  write_contract = λ c. sent (codes "0x1");
}

abbrev tickets : List LuckyScratchTicket
tickets = ticket_with 5 1 scratched 0 ∷ ticket_with 6 1 scratched 0 ∷ []

abbrev empty_browser : Browser
empty_browser = record { has_window = true; item = absent; writable = true }

abbrev state : VaultState
state = record {
  browser = set 10 sepolia_chain_id 6 400 (some (codes "0x66")) none empty_browser;
  inventory = tickets;
  tickets = [];
}

abbrev result : ClaimMutationResult
result = record { claimed_tickets = tickets; skipped_zero_count = 0 }

claim_rewards_test :
    (claim_rewards chain 20 none (some alice) true tickets state).1 ≡ returns result
unfolding claim_rewards claimable is_ticket_ready_for_claim get read_cache set write_cache cache_key
    decimal collect claim_step build_ticket_claim_proof_direct zero_handle checked_proof
    get_clear_reward_amount pick_clear_value clear_value_to_big_int in_range build_cache_entry
    submit
claim_rewards_test = refl

abbrev last_state : VaultState
last_state = (claim_rewards chain 20 none (some alice) true tickets state).0

claim_rewards_run :
    claim_rewards chain 20 none (some alice) true tickets state ≡ (last_state, returns result)
unfolding claim_rewards claimable is_ticket_ready_for_claim get read_cache set write_cache cache_key
    decimal collect claim_step build_ticket_claim_proof_direct zero_handle checked_proof
    get_clear_reward_amount pick_clear_value clear_value_to_big_int in_range build_cache_entry
    submit
claim_rewards_run = refl

claim_rewards-IsPaid_example : IsPaid chain 20 none alice tickets state result
claim_rewards-IsPaid_example =
    claim_rewards-IsPaid chain 20 none alice true tickets state last_state result claim_rewards_run
