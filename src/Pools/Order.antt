-- ===== src/Pools/Order.antt =====
-- The list of a creator's pools, and the bar of a round.
use lucky_scratch.Prelude.{ℕ, ◌*◌, ◌≤◌, ◌<◌, ◌≡◌, Bool, true, false, List, arith, count_by, leb}
use lucky_scratch.Prelude.Texts.{Text}
use lucky_scratch.Prelude.Sorting.{IsSorted, IsTotal, sort_by-IsSorted, count_by-sort_by}
use lucky_scratch.Types.{LuckyScratchPool}
use lucky_scratch.Pools.Listing.{
  round_progress, filtered_pools, SortOption, sort_key, comes_before, pools,
}

leb_total : (m n : ℕ) → leb m n ≡ false → leb n m ≡ true
leb_total m n h = ground arith

comes_before_total : (sort : SortOption) → IsTotal (comes_before sort)
comes_before_total sort x y h = leb_total (sort_key sort y) (sort_key sort x) h

-- For every query and order the pools that match come out in that order, none added or dropped.
pub pools_lem :
    (query : Text) (sort : SortOption) (items : List LuckyScratchPool) (p : LuckyScratchPool → Bool)
    → IsSorted (comes_before sort) (pools query sort items)
      × (count_by p (pools query sort items) ≡ count_by p (filtered_pools query items))
unfolding pools
pools_lem query sort items p = (
  sort_by-IsSorted (comes_before sort) (comes_before_total sort) (filtered_pools query items),
  count_by-sort_by (comes_before sort) p (filtered_pools query items),
)

-- The bar is between 0 and 100 percent, also where more is reported sold than there is.
pub round_progress_bounds :
    (pool : LuckyScratchPool)
    → let (part, whole) = (round_progress pool).percent in (0 < whole) × (part ≤ 100 * whole)
unfolding round_progress
round_progress_bounds pool = ground arith
