-- ===== src/Store.antt =====
-- The store: packages/nextjs/app/store/page.tsx. Which pools are listed, their order, and the pages.
-- Bounds on the price are nano-USDC, `none` where the field is empty or not a number.
mod Tests
pub mod Laws
use lucky_scratch.Prelude.{
  ℕ, ◌+◌, ◌-◌, ◌*◌, ◌/◌, Bool, true, false, not, ◌&&◌, ◌||◌, Option, none, some, List, ltb, leb,
  ◌==◌, filter, length, take, drop, max, if◌then◌else◌,
}
use lucky_scratch.Prelude.Sorting.{by_keys, sort_by}
use lucky_scratch.Types.{LuckyScratchPool, PoolStatus, closed}
use lucky_scratch.Money.{from_micro_usdc}

abbrev pub items_per_page : ℕ
items_per_page = 8

pub data StoreTab : Type 0 where
  official community : StoreTab

pub data StoreSortOption : Type 0 where
  popular price winrate latest : StoreSortOption

abbrev pub is_closed : PoolStatus → Bool
is_closed closed = true
is_closed _ = false

unfoldable pub is_store_visible : LuckyScratchPool → Bool
is_store_visible pool = not (is_closed pool.status) && not pool.paused

-- `getPoolTicketSales` of display.ts
abbrev pub get_pool_ticket_sales : LuckyScratchPool → ℕ
get_pool_ticket_sales pool = elim pool.current_round_state [
  | none ↦ 0
  | some round ↦ round.sold_count
]

abbrev pub comes_before : StoreSortOption → LuckyScratchPool → LuckyScratchPool → Bool
comes_before popular left right =
    by_keys (get_pool_ticket_sales left) (get_pool_ticket_sales right) left.realized_revenue
      right.realized_revenue
comes_before price left right =
    ltb left.ticket_price right.ticket_price
    || (left.ticket_price == right.ticket_price && leb right.pool_id left.pool_id)
comes_before winrate left right =
    by_keys left.hit_rate_bps right.hit_rate_bps left.pool_id right.pool_id
comes_before latest left right = leb right.pool_id left.pool_id

unfoldable pub sort_pools : List LuckyScratchPool → StoreSortOption → List LuckyScratchPool
sort_pools pools sort = sort_by (comes_before sort) pools

abbrev pub in_tab : StoreTab → LuckyScratchPool → Bool
in_tab official pool = pool.protocol_owned
in_tab community pool = not pool.protocol_owned

abbrev pub at_least : Option ℕ → ℕ → Bool
at_least none amount = true
at_least (some bound) amount = not (ltb amount bound)

abbrev pub at_most : Option ℕ → ℕ → Bool
at_most none amount = true
at_most (some bound) amount = not (ltb bound amount)

unfoldable pub filtered_pools :
    List LuckyScratchPool → StoreTab → Option ℕ → Option ℕ → List LuckyScratchPool
filtered_pools pools tab min_price max_price =
    filter
      (λ pool.
        let ticket_price = from_micro_usdc (some pool.ticket_price) in
        in_tab tab pool && at_least min_price ticket_price && at_most max_price ticket_price)
      (filter is_store_visible pools)

unfoldable pub total_pages : List LuckyScratchPool → ℕ
total_pages sorted = max 1 ((length sorted + (items_per_page - 1)) / items_per_page)

unfoldable pub paginated_pools : List LuckyScratchPool → ℕ → List LuckyScratchPool
paginated_pools sorted current_page =
    take (current_page * items_per_page - (current_page - 1) * items_per_page)
      (drop ((current_page - 1) * items_per_page) sorted)

-- The effect on `[currentPage, totalPages]`.
unfoldable pub settle_page : ℕ → List LuckyScratchPool → ℕ
unfolding total_pages
settle_page current_page sorted =
    if ltb (total_pages sorted) current_page then total_pages sorted else current_page
