-- ===== src/Home/Tests.antt =====
-- The home page over three pools.
use lucky_scratch.Prelude.{
  ◌≡◌, refl, Bool, true, false, not, none, List, [], ◌∷◌, map, filter, count_by,
}
use lucky_scratch.Prelude.Sorting.{AreFirst}
use lucky_scratch.Types.{LuckyScratchPool}
use lucky_scratch.Samples.{pool_with}
use lucky_scratch.Display.{earns_more}
use lucky_scratch.Home.{community_choice, theme_choice, placeholder, ticker_items}
use lucky_scratch.Prelude.Decimal.{decimal}
use lucky_scratch.Home.Laws.{IsChoice, is_running_community, is_running_official, home_choice_lem}

abbrev pools : List LuckyScratchPool
pools =
    pool_with 1 1000000 3
    ∷ record (pool_with 2 1000000 9) { protocol_owned = true }
    ∷ pool_with 3 1000000 7
    ∷ []

community_choice_test : map LuckyScratchPool.pool_id (community_choice pools) ≡ 3 ∷ 1 ∷ []
unfolding community_choice lucky_scratch.Display.sort_pools_by_revenue
    lucky_scratch.Prelude.Sorting.sort_by lucky_scratch.Store.is_store_visible
community_choice_test = refl

ticker_items_test : ticker_items decimal true [] pools ≡ placeholder true
unfolding ticker_items
ticker_items_test = refl

home_choice_lem_example :
    IsChoice is_running_community 4 pools (community_choice pools)
    × IsChoice is_running_official 8 pools (theme_choice pools)
home_choice_lem_example = home_choice_lem pools
