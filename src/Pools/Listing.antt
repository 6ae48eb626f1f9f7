-- ===== src/Pools/Listing.antt =====
-- Which pools of a creator are listed and in which order, and how far a round is sold, in
-- packages/nextjs/components/profile/MyPoolsPanel.tsx.
use lucky_scratch.Prelude.{
  ℕ, ◌*◌, min, Bool, true, ◌||◌, Option, none, some, List, [], ◌++◌, leb, ltb, filter,
  if◌then◌else◌,
}
use lucky_scratch.Prelude.Texts.{Text, codes, trim, to_lower, includes, is_empty}
use lucky_scratch.Prelude.Decimal.{decimal}
use lucky_scratch.Prelude.Sorting.{sort_by}
use lucky_scratch.Types.{LuckyScratchPool, LuckyScratchPoolMetadata}
use lucky_scratch.Store.{get_pool_ticket_sales}

-- `pool.metadata?.name`
abbrev pub metadata_name : Option LuckyScratchPoolMetadata → Text
metadata_name none = []
metadata_name (some m) = m.name

unfoldable pub pool_title : LuckyScratchPool → Text
pool_title pool =
    let name = metadata_name pool.metadata in
    if is_empty name then codes "Pool #" ++ decimal pool.pool_id else name

-- A share in percent, as a fraction: `percent` over `total` where a round has tickets.
pub record RoundProgress : Type 0 where
  pub sold_count : ℕ
  pub total_tickets : ℕ
  pub percent : ℕ × ℕ

abbrev pub total_of : LuckyScratchPool → ℕ
total_of pool = elim pool.current_round_state [
  | none ↦ pool.total_tickets_per_round
  | some round ↦ round.total_tickets
]

unfoldable pub round_progress : LuckyScratchPool → RoundProgress
round_progress pool =
    let sold = get_pool_ticket_sales pool in
    let total = total_of pool in
    record {
      sold_count = sold;
      total_tickets = total;
      percent = if ltb 0 total then (min (100 * total) (sold * 100), total) else (0, 1);
    }

unfoldable pub matches_query : Text → LuckyScratchPool → Bool
matches_query query pool =
    let normalized = to_lower (trim query) in
    if is_empty normalized
    then true
    else includes (to_lower (pool_title pool)) normalized
      || includes (decimal pool.pool_id) normalized
      || includes (to_lower pool.creator) normalized

unfoldable pub filtered_pools : Text → List LuckyScratchPool → List LuckyScratchPool
filtered_pools query = filter (matches_query query)

-- `sortOptions`
pub data SortOption : Type 0 where
  latest popular win_rate price : SortOption

abbrev pub sort_key : SortOption → LuckyScratchPool → ℕ
sort_key popular pool = get_pool_ticket_sales pool
sort_key win_rate pool = pool.hit_rate_bps
sort_key price pool = pool.ticket_price
sort_key latest pool = pool.pool_id

-- A pool may stand before another whose key is not greater.
abbrev pub comes_before : SortOption → LuckyScratchPool → LuckyScratchPool → Bool
comes_before sort a b = leb (sort_key sort b) (sort_key sort a)

unfoldable pub pools : Text → SortOption → List LuckyScratchPool → List LuckyScratchPool
pools query sort items = sort_by (comes_before sort) (filtered_pools query items)
