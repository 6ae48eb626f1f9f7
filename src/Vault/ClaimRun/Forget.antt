-- ===== src/Vault/ClaimRun/Forget.antt =====
-- What the end of a claim in MyTicketsVault.tsx leaves in the cache of rewards.
use lucky_scratch.Prelude.{ℕ, ◌≡◌, Option, none, List, [], ◌∷◌, All}
use lucky_scratch.Types.{LuckyScratchTicket}
use lucky_scratch.TicketCache.{RewardCacheScope, get}
use lucky_scratch.TicketCache.Laws.{IsWritable, get-remove, get-remove-none, remove-IsWritable}
use lucky_scratch.Vault.ClaimRun.{
  sepolia_chain_id, Chain, VaultState, ClaimMutationResult, remove_all, on_success,
}

module _ (chain : Chain) (now : ℕ) (scope : Option RewardCacheScope) where
  remove_all-keeps :
      (ts : List LuckyScratchTicket) (st : VaultState) (id : ℕ)
      → IsWritable st.browser
      → get now st.browser sepolia_chain_id id scope ≡ none
      → get now (remove_all chain now scope ts st).browser sepolia_chain_id id scope ≡ none
  unfolding remove_all
  remove_all-keeps [] st id w h = h
  remove_all-keeps (t ∷ ts) st id w h =
      remove_all-keeps ts _ id (remove-IsWritable sepolia_chain_id t.ticket_id scope st.browser w)
        (get-remove-none now sepolia_chain_id t.ticket_id id scope st.browser w h)

  remove_all-none :
      (ts : List LuckyScratchTicket) (st : VaultState)
      → IsWritable st.browser
      → All
          (λ t.
            get now (remove_all chain now scope ts st).browser sepolia_chain_id t.ticket_id scope
            ≡ none)
          ts
  unfolding remove_all
  remove_all-none [] st w = tt
  remove_all-none (t ∷ ts) st w =
      let kept = remove-IsWritable sepolia_chain_id t.ticket_id scope st.browser w in
      (
        remove_all-keeps ts _ t.ticket_id kept
            (get-remove now sepolia_chain_id t.ticket_id scope st.browser w),
        remove_all-none ts _ kept,
      )

  -- After onSuccess has run in a browser whose storage takes writes, a read of the cache finds
  -- nothing for any claimed ticket.
  pub on_success-forgets :
      (result : ClaimMutationResult) (st : VaultState)
      → IsWritable st.browser
      → All
          (λ t.
            get now
              (on_success chain now scope result st).browser
              sepolia_chain_id
              t.ticket_id
              scope
            ≡ none)
          result.claimed_tickets
  unfolding on_success
  on_success-forgets result st w = remove_all-none result.claimed_tickets st w
