-- ===== src/Vault/Settled/Laws.antt =====
-- A claim makes stale every query that shows a claimed ticket, its pool or the user's tickets.
use lucky_scratch.Prelude.{
  ℕ, ◌≡◌, refl, ◌∙◌, ◌⊎◌, inl, inr, Bool, true, false, ◌||◌, some, List, [], ◌∷◌, ◌++◌, map, arith,
  ◌==◌, any, All,
}
use lucky_scratch.Prelude.Texts.{Text, codes, text_eq_refl, is_empty, to_lower}
use lucky_scratch.Prelude.Decimal.{decimal}
use lucky_scratch.Types.{LuckyScratchTicket}
use lucky_scratch.Queries.{
  Key, text, Query, root, use_ticket, use_claim_precheck, use_pool, use_pool_current_round,
  use_purchase_context, use_platform_overview, use_recent_wins, use_user_tickets, use_user_wins,
}
use lucky_scratch.Queries.Stale.{starts_with, is_stale}
use lucky_scratch.Api.Search.{ListUserTicketsParams}
use lucky_scratch.Vault.Selection.{unique, has, add, has-add}
use lucky_scratch.Vault.ClaimRun.{ClaimMutationResult}
use lucky_scratch.Vault.Settled.{ticket_key, pool_key, user_keys, invalidated_keys}

any-append :
    {A : Type 0} (p : A → Bool) (xs ys : List A) → any p (xs ++ ys) ≡ (any p xs || any p ys)
any-append p [] ys = refl
any-append p (x ∷ xs) ys = ground (arith, any-append p xs ys)

has-unique : (n : ℕ) (seen ns : List ℕ) → has n (unique seen ns) ≡ (has n seen || has n ns)
unfolding unique
has-unique n seen [] = ground arith
has-unique n seen (m ∷ ns) = ground (arith, has-unique n (add m seen) ns, has-add n m seen)

abbrev pub is_claimed_ticket : ℕ → List LuckyScratchTicket → Bool
is_claimed_ticket id = any (λ t. t.ticket_id == id)

abbrev pub has_claimed_pool : ℕ → List LuckyScratchTicket → Bool
has_claimed_pool id ts = has id (map LuckyScratchTicket.pool_id ts)

stale_ticket :
    (id : ℕ) (rest : Key) (ts : List LuckyScratchTicket)
    → is_claimed_ticket id ts ≡ true
    → any
        (starts_with (root (text (codes "tickets") ∷ text (decimal id) ∷ rest)))
        (map ticket_key ts)
      ≡ true
stale_ticket id rest [] h = cc
stale_ticket id rest (t ∷ ts) h =
    ground (arith, stale_ticket id rest ts, text_eq_refl (decimal id), h)

stale_pool :
    (id : ℕ) (rest : Key) (ids : List ℕ)
    → has id ids ≡ true
    → any (starts_with (root (text (codes "pools") ∷ text (decimal id) ∷ rest))) (map pool_key ids)
      ≡ true
stale_pool id rest [] h = cc
stale_pool id rest (m ∷ ids) h =
    ground (arith, stale_pool id rest ids, text_eq_refl (decimal id), h)

-- The queries that show a ticket, its pool, or what its owner has and has won.
abbrev pub ticket_queries : Text → ListUserTicketsParams → ℕ → ℕ → ℕ → List Query
ticket_queries address params limit id pool_id =
    use_ticket (some (decimal id))
    ∷ use_claim_precheck (some (decimal id))
    ∷ use_pool (some (decimal pool_id))
    ∷ use_pool_current_round (some (decimal pool_id))
    ∷ use_purchase_context (some (decimal pool_id))
    ∷ use_platform_overview
    ∷ use_recent_wins limit
    ∷ use_user_tickets (some address) params
    ∷ use_user_wins (some address)
    ∷ []

any-parts :
    {A : Type 0} (p : A → Bool) (x : A) (xs ys zs : List A)
    → any p (x ∷ xs ++ ys ++ zs) ≡ (p x || any p xs || any p ys || any p zs)
any-parts p x xs ys zs = ground (arith, any-append p ((x ∷ xs) ++ ys) zs, any-append p (x ∷ xs) ys)

module _ (address : Text) (result : ClaimMutationResult) where
  abbrev ticket_part : List Key
  ticket_part = map ticket_key result.claimed_tickets

  abbrev pool_ids : List ℕ
  pool_ids = unique [] (map LuckyScratchTicket.pool_id result.claimed_tickets)

  abbrev other_part : List Key
  other_part =
      root (text (codes "stats") ∷ text (codes "overview") ∷ [])
      ∷ root (text (codes "wins") ∷ text (codes "recent") ∷ [])
      ∷ user_keys (some address) (codes "tickets" ∷ codes "wins" ∷ [])

  covers :
      (p : Key → Bool)
      → (any p ticket_part ≡ true)
        ⊎ ((any p (map pool_key pool_ids) ≡ true) ⊎ (any p other_part ≡ true))
      → any p (invalidated_keys (some address) result) ≡ true
  unfolding invalidated_keys
  covers p h = any-parts p _ ticket_part (map pool_key pool_ids) other_part ∙ ground (arith, h)

  stale-ticket :
      (id : ℕ) (rest : Key)
      → is_claimed_ticket id result.claimed_tickets ≡ true
      → any
          (starts_with (root (text (codes "tickets") ∷ text (decimal id) ∷ rest)))
          (invalidated_keys (some address) result)
        ≡ true
  stale-ticket id rest h =
      let key = root (text (codes "tickets") ∷ text (decimal id) ∷ rest) in
      covers (starts_with key) (inl (stale_ticket id rest result.claimed_tickets h))

  stale-pool :
      (id : ℕ) (rest : Key)
      → has_claimed_pool id result.claimed_tickets ≡ true
      → any
          (starts_with (root (text (codes "pools") ∷ text (decimal id) ∷ rest)))
          (invalidated_keys (some address) result)
        ≡ true
  stale-pool id rest h =
      let key = root (text (codes "pools") ∷ text (decimal id) ∷ rest) in
      let there : has id pool_ids ≡ true = has-unique id [] _ ∙ h in
      covers (starts_with key) (inr (inl (stale_pool id rest pool_ids there)))

  stale-other :
      (q : Query)
      → any (starts_with q.key) other_part ≡ true
      → is_stale (invalidated_keys (some address) result) q ≡ true
  stale-other q h = covers (starts_with q.key) (inr (inr h))

-- With a wallet address that is not empty, a successful claim makes stale, for each claimed ticket
-- and each of their pools, the queries of the ticket and its precheck, of the pool, its round and
-- its purchase context, of the platform's overview and recent wins, and of the user's tickets and
-- wins, whatever their parameters.
pub ticket_queries-is_stale :
    (address : Text) (result : ClaimMutationResult) (params : ListUserTicketsParams)
    (limit id pool_id : ℕ)
    → is_empty address ≡ false
    → is_claimed_ticket id result.claimed_tickets ≡ true
    → has_claimed_pool pool_id result.claimed_tickets ≡ true
    → All
        (λ query. is_stale (invalidated_keys (some address) result) query ≡ true)
        (ticket_queries address params limit id pool_id)
unfolding use_ticket use_claim_precheck use_pool use_pool_current_round use_purchase_context
    use_platform_overview use_recent_wins use_user_tickets use_user_wins
ticket_queries-is_stale address result params limit id pool_id h ht hp = (
  stale-ticket address result id [] ht,
  (
    stale-ticket address result id _ ht,
    (
      stale-pool address result pool_id [] hp,
      (
        stale-pool address result pool_id _ hp,
        (
          stale-pool address result pool_id _ hp,
          (
            stale-other address result use_platform_overview (ground (arith, h)),
            (
              stale-other address result (use_recent_wins limit) (ground (arith, h)),
              (
                stale-other address result (use_user_tickets (some address) params)
                    (ground (arith, h, text_eq_refl (to_lower address))),
                (
                  stale-other address result (use_user_wins (some address))
                      (ground (arith, h, text_eq_refl (to_lower address))),
                  tt,
                ),
              ),
            ),
          ),
        ),
      ),
    ),
  ),
)
