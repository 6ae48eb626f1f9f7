-- ===== src/Rankings.antt =====
-- The ladder of pools: packages/nextjs/components/rankings/PoolRankingsPage.tsx.
pub mod Laws
use lucky_scratch.Prelude.{
  ℕ, suc, ◌+◌, ◌-◌, Bool, true, false, not, ◌&&◌, ◌||◌, Option, none, some, List, [], ◌∷◌, leb, ltb,
  ◌==◌, ◌++◌, filter, length, take, get_elem?, count_by,
}
use lucky_scratch.Prelude.Texts.{Text}
use lucky_scratch.Prelude.Sorting.{by_keys, sort_by}
use lucky_scratch.Types.{LuckyScratchPool}
use lucky_scratch.Store.{is_store_visible, get_pool_ticket_sales}
use lucky_scratch.Display.{get_pool_display_name}

pub data PoolMetric : Type 0 where
  win_rate sales_volume : PoolMetric

pub data PoolType : Type 0 where
  official community : PoolType

pub record RankedPool : Type 0 where
  pub rank : ℕ
  pub pool_id : ℕ
  pub name : Text
  pub kind : PoolType
  pub hit_rate_bps : ℕ
  pub metric_sales : ℕ
  pub sold_count : ℕ

abbrev pub comes_before : PoolMetric → LuckyScratchPool → LuckyScratchPool → Bool
comes_before win_rate left right =
    by_keys left.hit_rate_bps right.hit_rate_bps left.realized_revenue right.realized_revenue
comes_before sales_volume left right =
    by_keys left.realized_revenue right.realized_revenue left.hit_rate_bps right.hit_rate_bps

unfoldable pub ranked : PoolMetric → List LuckyScratchPool → List LuckyScratchPool
ranked metric items = sort_by (comes_before metric) (filter is_store_visible items)

abbrev pub type_of : Bool → PoolType
type_of true = official
type_of false = community

abbrev pub entry : ℕ → LuckyScratchPool → RankedPool
entry index pool = record {
  rank = index + 1;
  pool_id = pool.pool_id;
  name = get_pool_display_name pool;
  kind = type_of pool.protocol_owned;
  hit_rate_bps = pool.hit_rate_bps;
  metric_sales = pool.realized_revenue;
  sold_count = get_pool_ticket_sales pool;
}

-- `ranked.map((pool, index) => …)` from an index on.
abbrev pub entries : ℕ → List LuckyScratchPool → List RankedPool
entries index [] = []
entries index (pool ∷ pools) = entry index pool ∷ entries (suc index) pools

unfoldable pub leaderboard : PoolMetric → List LuckyScratchPool → List RankedPool
leaderboard metric items = entries 0 (ranked metric items)

abbrev pub podium_entry : ℕ → Option RankedPool → List (ℕ × RankedPool)
podium_entry rank none = []
podium_entry rank (some pool) = (rank, pool) ∷ []

-- Second, first and third, those that are there.
unfoldable pub podium_entries : List RankedPool → List (ℕ × RankedPool)
podium_entries board =
    podium_entry 2 (get_elem? board 1)
    ++ podium_entry 1 (get_elem? board 0)
    ++ podium_entry 3 (get_elem? board 2)

abbrev pub is_official : RankedPool → Bool
is_official pool = elim pool.kind [ official ↦ true | community ↦ false ]

abbrev pub top_window : List RankedPool → List RankedPool
top_window board = take 10 board

unfoldable pub official_count : List RankedPool → ℕ
official_count board = count_by is_official (top_window board)

unfoldable pub community_count : List RankedPool → ℕ
community_count board = length (top_window board) - official_count board
