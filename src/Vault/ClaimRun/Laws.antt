-- ===== src/Vault/ClaimRun/Laws.antt =====
-- What the claim of rewards in MyTicketsVault.tsx sends to the chain, and what it leaves in the cache.
use lucky_scratch.Prelude.{
  ℕ, ◌+◌, ◌<◌, ◌≡◌, ◌⊎◌, inl, inr, refl, sym, ap, ◌∙◌, Bool, true, ◌&&◌, Option, none, some, List,
  [], ◌∷◌, ◌++◌, map, arith, length, any, All, All-append, length-append, Option-cases, Bool-cases,
}
use lucky_scratch.Prelude.Texts.{Text, codes, includes, is_empty}
use lucky_scratch.Types.{LuckyScratchTicket}
use lucky_scratch.TicketCache.{CachedReward, RewardCacheScope}
use lucky_scratch.Claim.{
  fulfilled, thrown, TicketClaimProof, Promise, build_ticket_claim_proof_direct,
}
use lucky_scratch.Vault.ClaimRun.{
  ClaimInput, call_of, TxResult, sent, nothing_sent, tx_error, Chain, VaultState, returns,
  ClaimMutationResult, Step, throw_step, skip, push, usable, cached_of, has_proof, ready_run,
  verify, decrypt_fresh, after_decrypt, claim_with, claim_step, collect, submit, after_loop,
  claimable, claim_rewards,
}

Step-cases : (s : Step) → (s ≡ throw_step) ⊎ (s ≡ skip) ⊎ ((i : ClaimInput) × (s ≡ push i))
Step-cases throw_step = inl refl
Step-cases skip = inr (inl refl)
Step-cases (push i) = inr (inr (i, refl))

TxResult-cases :
    (r : TxResult)
    → ((message : Text) × (r ≡ tx_error message))
      ⊎ (((hash : Text) × (r ≡ sent hash)) ⊎ (r ≡ nothing_sent))
TxResult-cases (tx_error m) = inl (m, refl)
TxResult-cases (sent hash) = inr (inl (hash, refl))
TxResult-cases nothing_sent = inr (inr refl)

-- The wallet has answered without an error: with a transaction, or with nothing sent.
abbrev pub IsAnswered : TxResult → Type 0
IsAnswered r = ((hash : Text) × (r ≡ sent hash)) ⊎ (r ≡ nothing_sent)

module _ (chain : Chain) (now : ℕ) (scope : Option RewardCacheScope) where
  -- The chain takes the reward: its ticket is scratched and authorised for the reveal, as it was
  -- just read, or the amount and the proof were just decrypted from the ticket's own handle.
  pub data IsBacked (i : ClaimInput) : Type 0 where
    verified : chain.get_ticket_reveal_state i.ticket.ticket_id ≡ some (1, true) → IsBacked i
    decrypted :
        (handle : Text) (p : TicketClaimProof)
        → chain.get_ticket_prize_handle i.ticket.ticket_id ≡ some handle
        → build_ticket_claim_proof_direct chain.created handle ≡ fulfilled p
        → p.clear_reward_amount ≡ i.clear_reward_amount
        → p.decryption_proof ≡ i.decryption_proof
        → IsBacked i

  pub record IsClaim (i : ClaimInput) : Type 0 where
    pub positive : 0 < i.clear_reward_amount
    pub backed : IsBacked i

  verify-push :
      (state : Option (ℕ × Bool)) (input i : ClaimInput)
      → verify state input ≡ push i
      → (state ≡ some (1, true)) × (input ≡ i)
  verify-push none input i h = absurd (cc)
  verify-push (some (status, authorized)) input i h = ground arith

  usable-positive :
      (e : Option CachedReward) (amount : ℕ) (proof : Text)
      → usable e ≡ some (amount, proof)
      → 0 < amount
  usable-positive none amount proof h = absurd (cc)
  usable-positive (some e) amount proof h = elim (Option-cases e.decryption_proof) [
    | inl nothing ↦ absurd (ground arith)
    | inr (p, found) ↦ ground arith
  ]

  after_decrypt-IsClaim :
      (t : LuckyScratchTicket) (st : VaultState) (i : ClaimInput) (handle : Text)
      (r : Promise TicketClaimProof)
      → chain.get_ticket_prize_handle t.ticket_id ≡ some handle
      → build_ticket_claim_proof_direct chain.created handle ≡ r
      → (after_decrypt chain now scope t st r).1 ≡ push i
      → IsClaim i × (i.ticket ≡ t)
  after_decrypt-IsClaim t st i handle (thrown e) h1 h2 h = absurd (cc)
  after_decrypt-IsClaim t st i handle (fulfilled p) h1 h2 h =
      let same : i.ticket ≡ t = ground arith in
      let amount : p.clear_reward_amount ≡ i.clear_reward_amount = ground arith in
      let proof : p.decryption_proof ≡ i.decryption_proof = ground arith in
      (
        record {
          positive = ground arith;
          backed =
              decrypted handle p (ap (λ u. chain.get_ticket_prize_handle u.ticket_id) same ∙ h1) h2
                amount proof;
        },
        same,
      )

  decrypt_fresh-IsClaim :
      (t : LuckyScratchTicket) (st : VaultState) (i : ClaimInput) (o : Option Text)
      → chain.get_ticket_prize_handle t.ticket_id ≡ o
      → (decrypt_fresh chain now scope t st o).1 ≡ push i
      → IsClaim i × (i.ticket ≡ t)
  decrypt_fresh-IsClaim t st i none h1 h = absurd (cc)
  decrypt_fresh-IsClaim t st i (some handle) h1 h = after_decrypt-IsClaim t st i handle _ h1 refl h

  claim_with-IsClaim :
      (t : LuckyScratchTicket) (st : VaultState) (i : ClaimInput) (o : Option (ℕ × Text))
      → ((amount : ℕ) (proof : Text) → o ≡ some (amount, proof) → 0 < amount)
      → (claim_with chain now scope t st o).1 ≡ push i
      → IsClaim i × (i.ticket ≡ t)
  claim_with-IsClaim t st i none pos h = decrypt_fresh-IsClaim t st i _ refl h
  claim_with-IsClaim t st i (some (amount, proof)) pos h =
      let (state, same) = verify-push (chain.get_ticket_reveal_state t.ticket_id) _ i h in
      let ticket : i.ticket ≡ t = sym (ap ClaimInput.ticket same) in
      (
        record {
          positive = rw (sym (ap ClaimInput.clear_reward_amount same)) (pos amount proof refl);
          backed = verified (ap (λ u. chain.get_ticket_reveal_state u.ticket_id) ticket ∙ state);
        },
        ticket,
      )

  -- The loop only adds claims, and counts each ticket as an input or as skipped.
  pub collect-IsClaim :
      (ts : List LuckyScratchTicket) (inputs : List ClaimInput) (skipped : ℕ) (st last : VaultState)
      (found : List ClaimInput) (empties : ℕ)
      → All IsClaim inputs
      → collect chain now scope ts inputs skipped st ≡ (last, some (found, empties))
      → All IsClaim found × (length found + empties ≡ length inputs + skipped + length ts)
  unfolding collect claim_step
  collect-IsClaim [] inputs skipped st last found empties all h =
      let same : inputs ≡ found = ground arith in (rw (sym same) all, ground arith)
  collect-IsClaim (t ∷ ts) inputs skipped st last found empties all h =
      elim (Step-cases (claim_step chain now scope t st).1) [
        | inl ended ↦ absurd (cc (rw (ended, collect) at h))
        | inr (inl passed) ↦
            let (claims, count) =
              collect-IsClaim ts inputs (skipped + 1) _ last found empties all
                (rw (passed, collect) at h) in
            (claims, omega (arith, count))
        | inr (inr (i, pushed)) ↦
            let (claim, same) =
              claim_with-IsClaim t st i _ (usable-positive (cached_of chain now scope st t))
                pushed in
            let (claims, count) =
              collect-IsClaim ts (inputs ++ i ∷ []) skipped _ last found empties
                (All-append IsClaim inputs (i ∷ []) all (claim, tt)) (rw (pushed, collect) at h) in
            (claims, omega (arith, count, length-append inputs (i ∷ [])))
      ]

  pub record IsPaid (address : Text) (tickets : List LuckyScratchTicket) (st : VaultState)
      (r : ClaimMutationResult) : Type 0 where
    pub inputs : List ClaimInput
    pub claims : All IsClaim inputs
    pub some_input : 0 < length inputs
    pub same_tickets : r.claimed_tickets ≡ map ClaimInput.ticket inputs
    pub answered : IsAnswered (chain.write_contract (call_of inputs))
    pub counted :
        length inputs + r.skipped_zero_count ≡ length (claimable chain now scope address tickets st)

  submit-returns :
      (inputs : List ClaimInput) (skipped : ℕ) (st last : VaultState) (r : ClaimMutationResult)
      → submit chain now scope inputs skipped st ≡ (last, returns r)
      → IsAnswered (chain.write_contract (call_of inputs))
        × (r.claimed_tickets ≡ map ClaimInput.ticket inputs)
        × (r.skipped_zero_count ≡ skipped)
  unfolding submit
  submit-returns inputs skipped st last r h =
      elim (TxResult-cases (chain.write_contract (call_of inputs))) [
        | inl (message, failed) ↦
            elim (Bool-cases (
              includes message (codes "TicketNotClaimable")
              && any (has_proof chain now scope st) inputs)) [
                | inl stale ↦ absurd (ground arith)
                | inr other ↦ absurd (ground arith)
              ]
        | inr (inl (hash, done)) ↦ (inl (hash, done), ground arith, ground arith)
        | inr (inr nothing) ↦ (inr nothing, ground arith, ground arith)
      ]

  after_loop-IsPaid :
      (address : Text) (tickets ready : List LuckyScratchTicket) (start last : VaultState)
      (r : ClaimMutationResult) (found : VaultState × Option (List ClaimInput × ℕ))
      → claimable chain now scope address tickets start ≡ ready
      → collect chain now scope ready [] 0 start ≡ found
      → after_loop chain now scope found ≡ (last, returns r)
      → IsPaid address tickets start r
  after_loop-IsPaid address tickets ready start last r (st, none) e1 e2 h = absurd (cc)
  after_loop-IsPaid address tickets ready start last r (st, some ([], skipped)) e1 e2 h =
      absurd (cc)
  after_loop-IsPaid address tickets ready start last r (st, some (i ∷ inputs, skipped)) e1 e2 h =
      let (claims, count) = collect-IsClaim ready [] 0 start st (i ∷ inputs) skipped tt e2 in
      let (done, same, zero_count) = submit-returns (i ∷ inputs) skipped st last r h in
      record {
        inputs = i ∷ inputs;
        claims = claims;
        some_input = ground arith;
        same_tickets = same;
        answered = done;
        counted = omega (arith, count, zero_count, ap length e1);
      }

  ready_run-IsPaid :
      (address : Text) (tickets : List LuckyScratchTicket) (st last : VaultState)
      (r : ClaimMutationResult) (ready : List LuckyScratchTicket)
      → claimable chain now scope address tickets st ≡ ready
      → ready_run chain now scope ready st ≡ (last, returns r)
      → IsPaid address tickets st r
  ready_run-IsPaid address tickets st last r [] e h = absurd (cc)
  ready_run-IsPaid address tickets st last r (t ∷ ts) e h =
      after_loop-IsPaid address tickets (t ∷ ts) st last r _ e refl h

  -- Where a claim of rewards returns, the wallet has answered the call for one or more inputs
  -- without an error, with the hash of a transaction or with nothing sent; each input has a
  -- positive amount and is backed by a ticket that the chain reports as scratched and authorised
  -- or by a proof just decrypted from the ticket's own handle; the claimed tickets are those of
  -- the inputs, and inputs and skipped tickets together are as many as the tickets that were
  -- ready.
  pub claim_rewards-IsPaid :
      (address : Text) (contract : Bool) (tickets : List LuckyScratchTicket) (st last : VaultState)
      (r : ClaimMutationResult)
      → claim_rewards chain now scope (some address) contract tickets st ≡ (last, returns r)
      → IsPaid address tickets st r
  unfolding claim_rewards
  claim_rewards-IsPaid address contract tickets st last r h = elim (Bool-cases (is_empty address)) [
    | inl empty ↦ absurd (ground arith)
    | inr given ↦ elim (Bool-cases contract) [
      | inr missing ↦ absurd (ground arith)
      | inl found ↦ ready_run-IsPaid address tickets st last r _ refl (ground arith)
    ]
  ]
