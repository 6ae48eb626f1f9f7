-- ===== src/Store/Tests.antt =====
-- The store with three pools.
use lucky_scratch.Prelude.{◌≡◌, refl, List, [], ◌∷◌, map}
use lucky_scratch.Prelude.Sorting.{sort_by}
use lucky_scratch.Types.{LuckyScratchPool}
use lucky_scratch.Samples.{pool_with}
use lucky_scratch.Store.{price, sort_pools}

abbrev pools : List LuckyScratchPool
pools = pool_with 1 5000000 3 ∷ pool_with 2 1000000 9 ∷ pool_with 3 5000000 9 ∷ []

sort_pools_test : map LuckyScratchPool.pool_id (sort_pools pools price) ≡ 2 ∷ 3 ∷ 1 ∷ []
unfolding sort_pools sort_by
sort_pools_test = refl
