-- ===== src/Vault/ClaimRun.antt =====
-- The claim of rewards in MyTicketsVault.tsx: `claimRewardMutation` with its `onSuccess`. The chain,
-- the relayer and the wallet are parameters, with `none` or an error for a call that throws; the
-- time is read once for a run. The refetches, the messages and the sync of the backend, whose
-- failure is swallowed, change nothing here.
mod Tests
pub mod Laws
pub mod Forget
use lucky_scratch.Prelude.{
  ℕ, ◌+◌, Bool, true, false, not, ◌&&◌, ◌||◌, Option, none, some, List, [], ◌∷◌, ◌++◌, map, ltb,
  ◌==◌, filter, any, if◌then◌else◌,
}
use lucky_scratch.Prelude.Texts.{Text, codes, text_eq, includes, is_empty}
use lucky_scratch.Types.{LuckyScratchTicket, TicketStatus, claimed}
use lucky_scratch.TicketCache.{CachedReward, RewardCacheScope, Browser, get, set, remove}
use lucky_scratch.Claim.{
  Promise, fulfilled, thrown, TicketClaimProof, Instance, build_ticket_claim_proof_direct,
}
use lucky_scratch.Vault.{is_ticket_ready_for_claim}

abbrev pub sepolia_chain_id : ℕ
sepolia_chain_id = 11155111

pub record ClaimInput : Type 0 where
  pub ticket : LuckyScratchTicket
  pub clear_reward_amount : ℕ
  pub decryption_proof : Text

pub data ClaimCall : Type 0 where
  claim_reward : ℕ → ℕ → Text → ClaimCall
  batch_claim_rewards : List ℕ → List ℕ → List Text → ClaimCall

-- The answer of `writeContractAsync`: a message of the error, `undefined` where nothing was sent, as
-- for a wallet that is gone, or the hash of the transaction.
pub data TxResult : Type 0 where
  tx_error : Text → TxResult
  nothing_sent : TxResult
  sent : Text → TxResult

pub record Chain : Type 0 where
  pub get_ticket_reveal_state : ℕ → Option (ℕ × Bool)
  pub get_ticket_prize_handle : ℕ → Option Text
  pub created : Promise Instance
  pub write_contract : ClaimCall → TxResult

-- The cached rewards, and the two query results that the run edits: the inventory and the tickets
-- read alone.
pub record VaultState : Type 0 where
  pub browser : Browser
  pub inventory : List LuckyScratchTicket
  pub tickets : List LuckyScratchTicket

pub data ClaimError : Type 0 where
  no_wallet no_contract not_ready read_failed proof_expired : ClaimError
  zero_reward : ℕ → ClaimError
  tx_failed : Text → ClaimError

pub record ClaimMutationResult : Type 0 where
  pub claimed_tickets : List LuckyScratchTicket
  pub skipped_zero_count : ℕ

pub data Mutation : Type 0 where
  throws : ClaimError → Mutation
  returns : ClaimMutationResult → Mutation

abbrev pub claimed_result : List ClaimInput → ℕ → ClaimMutationResult
claimed_result inputs skipped = record {
  claimed_tickets = map ClaimInput.ticket inputs;
  skipped_zero_count = skipped;
}

-- What the loop does with one ticket.
pub data Step : Type 0 where
  throw_step skip : Step
  push : ClaimInput → Step

-- A cached reward with a proof and a positive amount.
abbrev pub usable : Option CachedReward → Option (ℕ × Text)
usable none = none
usable (some e) = elim e.decryption_proof [
  | none ↦ none
  | some proof ↦
      if not (is_empty proof) && ltb 0 e.clear_reward_amount
      then some (e.clear_reward_amount, proof)
      else none
]

abbrev set_reward : ℕ → ℕ → LuckyScratchTicket → LuckyScratchTicket
set_reward id amount t =
    if t.ticket_id == id then record t { claim_clear_reward_amount = amount } else t

abbrev set_claimed : ℕ → LuckyScratchTicket → LuckyScratchTicket
set_claimed id t = if t.ticket_id == id then record t { status = claimed } else t

abbrev pub call_of : List ClaimInput → ClaimCall
call_of (i ∷ []) = claim_reward i.ticket.ticket_id i.clear_reward_amount i.decryption_proof
call_of inputs =
    batch_claim_rewards (map (λ i. i.ticket.ticket_id) inputs)
      (map ClaimInput.clear_reward_amount inputs) (map ClaimInput.decryption_proof inputs)

abbrev pub verify : Option (ℕ × Bool) → ClaimInput → Step
verify none input = throw_step
verify (some (status, authorized)) input = if status == 1 && authorized then push input else skip

-- An input with a freshly decrypted proof, unless its reward is zero.
abbrev pub fresh_input : LuckyScratchTicket → TicketClaimProof → Step
fresh_input t p =
    if p.clear_reward_amount == 0
    then skip
    else push (record {
      ticket = t;
      clear_reward_amount = p.clear_reward_amount;
      decryption_proof = p.decryption_proof;
    })

module _ (chain : Chain) (now : ℕ) (scope : Option RewardCacheScope) where
  abbrev pub cached_of : VaultState → LuckyScratchTicket → Option CachedReward
  cached_of st t = get now st.browser sepolia_chain_id t.ticket_id scope

  abbrev pub remember : LuckyScratchTicket → TicketClaimProof → VaultState → VaultState
  remember t p st = record st {
    browser =
        set now sepolia_chain_id t.ticket_id p.clear_reward_amount (some p.decryption_proof) scope
          st.browser;
    inventory = map (set_reward t.ticket_id p.clear_reward_amount) st.inventory;
  }

  abbrev pub after_decrypt :
      LuckyScratchTicket → VaultState → Promise TicketClaimProof → VaultState × Step
  after_decrypt t st (thrown e) = (st, throw_step)
  after_decrypt t st (fulfilled p) = (remember t p st, fresh_input t p)

  -- Without a cached proof: read the handle and decrypt it.
  abbrev pub decrypt_fresh : LuckyScratchTicket → VaultState → Option Text → VaultState × Step
  decrypt_fresh t st none = (st, throw_step)
  decrypt_fresh t st (some handle) =
      after_decrypt t st (build_ticket_claim_proof_direct chain.created handle)

  abbrev pub claim_with : LuckyScratchTicket → VaultState → Option (ℕ × Text) → VaultState × Step
  claim_with t st none = decrypt_fresh t st (chain.get_ticket_prize_handle t.ticket_id)
  claim_with t st (some (amount, proof)) = (
    st,
    verify (chain.get_ticket_reveal_state t.ticket_id)
        (record { ticket = t; clear_reward_amount = amount; decryption_proof = proof }),
  )

  -- One round of the loop.
  unfoldable pub claim_step : LuckyScratchTicket → VaultState → VaultState × Step
  claim_step t st = claim_with t st (usable (cached_of st t))

  -- The loop: the inputs collected so far and the tickets skipped; `none` where a call throws.
  unfoldable pub collect :
      List LuckyScratchTicket
      → List ClaimInput
      → ℕ
      → VaultState
      → VaultState × Option (List ClaimInput × ℕ)
  collect [] inputs skipped st = (st, some (inputs, skipped))
  collect (t ∷ ts) inputs skipped st =
      let step = claim_step t st in
      elim step.1 [
        | throw_step ↦ (step.0, none)
        | skip ↦ collect ts inputs (skipped + 1) step.0
        | push input ↦ collect ts (inputs ++ input ∷ []) skipped step.0
      ]

  abbrev pub has_proof : VaultState → ClaimInput → Bool
  has_proof st input = elim (cached_of st input.ticket) [
    | none ↦ false
    | some e ↦ elim e.decryption_proof [
      | none ↦ false
      | some proof ↦ text_eq proof input.decryption_proof
    ]
  ]

  unfoldable pub remove_all : List LuckyScratchTicket → VaultState → VaultState
  remove_all [] st = st
  remove_all (t ∷ ts) st =
      remove_all ts (record st { browser = remove sepolia_chain_id t.ticket_id scope st.browser })

  -- The second `try` block.
  unfoldable pub submit : List ClaimInput → ℕ → VaultState → VaultState × Mutation
  submit inputs skipped st = elim (chain.write_contract (call_of inputs)) [
    | sent hash ↦ (st, returns (claimed_result inputs skipped))
    | nothing_sent ↦ (st, returns (claimed_result inputs skipped))
    | tx_error message ↦
        if includes message (codes "TicketNotClaimable") && any (has_proof st) inputs
        then (remove_all (map ClaimInput.ticket inputs) st, throws proof_expired)
        else (st, throws (tx_failed message))
  ]

  abbrev pub after_loop : VaultState × Option (List ClaimInput × ℕ) → VaultState × Mutation
  after_loop (st, none) = (st, throws read_failed)
  after_loop (st, some ([], skipped)) = (st, throws (zero_reward skipped))
  after_loop (st, some (i ∷ inputs, skipped)) = submit (i ∷ inputs) skipped st

  unfoldable pub claimable : Text → List LuckyScratchTicket → VaultState → List LuckyScratchTicket
  claimable address tickets st =
      filter
        (λ t.
          is_ticket_ready_for_claim t (some address)
            (elim (cached_of st t) [ none ↦ none | some e ↦ some e.clear_reward_amount ]))
        tickets

  -- From the tickets that are ready on.
  abbrev pub ready_run : List LuckyScratchTicket → VaultState → VaultState × Mutation
  ready_run [] st = (st, throws not_ready)
  ready_run (t ∷ ts) st = after_loop (collect (t ∷ ts) [] 0 st)

  -- `mutationFn`
  unfoldable pub claim_rewards :
      Option Text → Bool → List LuckyScratchTicket → VaultState → VaultState × Mutation
  claim_rewards none contract tickets st = (st, throws no_wallet)
  claim_rewards (some address) contract tickets st =
      if is_empty address
      then (st, throws no_wallet)
      else if not contract
      then (st, throws no_contract)
      else ready_run (claimable address tickets st) st

  mark_all : List LuckyScratchTicket → List LuckyScratchTicket → List LuckyScratchTicket
  mark_all [] tickets = tickets
  mark_all (t ∷ ts) tickets = mark_all ts (map (set_claimed t.ticket_id) tickets)

  -- `onSuccess`
  unfoldable pub on_success : ClaimMutationResult → VaultState → VaultState
  unfolding mark_all
  on_success result st =
      let cleared = remove_all result.claimed_tickets st in
      record cleared { tickets = mark_all result.claimed_tickets cleared.tickets }
