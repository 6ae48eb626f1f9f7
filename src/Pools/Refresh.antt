-- ===== src/Pools/Refresh.antt =====
-- Which queries of useLuckyScratchQueries.ts a pool action makes stale.
use lucky_scratch.Prelude.{ℕ, ◌≡◌, true, Option, some, List, [], ◌∷◌, arith, All}
use lucky_scratch.Prelude.Texts.{Text, text_eq_refl}
use lucky_scratch.Prelude.Decimal.{decimal}
use lucky_scratch.Queries.{
  Query, use_pools, use_pool, use_pool_current_round, use_purchase_context, use_creator_summary,
  creator_part, lower_part,
}
use lucky_scratch.Queries.Stale.{part_eq_refl, is_stale}
use lucky_scratch.Pools.{invalidated_keys}

-- The queries about a creator's pools, and about one of them.
abbrev pub pool_queries : Option Text → ℕ → List Query
pool_queries address pool_id =
    use_pools address
    ∷ use_creator_summary address
    ∷ use_pool (some (decimal pool_id))
    ∷ use_pool_current_round (some (decimal pool_id))
    ∷ use_purchase_context (some (decimal pool_id))
    ∷ []

-- For every address and pool, the keys that a pool action invalidates make stale the creator's
-- pools and summary, the pool, its current round and its purchase context.
pub invalidated_keys-is_stale :
    (address : Option Text) (pool_id : ℕ)
    → All
        (λ query. is_stale (invalidated_keys address pool_id) query ≡ true)
        (pool_queries address pool_id)
unfolding invalidated_keys use_pools use_creator_summary use_pool use_pool_current_round
    use_purchase_context
invalidated_keys-is_stale address pool_id = ground (
  arith,
  part_eq_refl (creator_part address),
  part_eq_refl (lower_part address),
  text_eq_refl (decimal pool_id),
)
