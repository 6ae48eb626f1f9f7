-- ===== src/Store/Laws.antt =====
-- What the store of packages/nextjs/app/store/page.tsx lists.
use lucky_scratch.Prelude.{
  ℕ, zero, suc, ◌+◌, ◌-◌, ◌*◌, ◌/◌, ◌≤◌, ◌<◌, ◌≡◌, refl, sym, ap, ◌∙◌, Bool, true, false, List, [],
  ◌++◌, arith, count_by, length, take, drop, min, max, take-add, take_all, length-take, length-drop,
}
use lucky_scratch.Prelude.Sorting.{IsSorted, sort_by-IsSorted, count_by-sort_by}
use lucky_scratch.Types.{LuckyScratchPool}
use lucky_scratch.Store.{
  StoreSortOption, popular, price, winrate, latest, comes_before, sort_pools, total_pages,
  paginated_pools, settle_page,
}

comes_before_total :
    (sort : StoreSortOption) (x y : LuckyScratchPool)
    → comes_before sort x y ≡ false
    → comes_before sort y x ≡ true
comes_before_total popular x y h = ground arith
comes_before_total price x y h = ground arith
comes_before_total winrate x y h = ground arith
comes_before_total latest x y h = ground arith

-- For every choice of order the pools come out in that order, and of any kind of pool there are as
-- many as there were.
pub sort_pools_lem :
    (pools : List LuckyScratchPool) (sort : StoreSortOption) (p : LuckyScratchPool → Bool)
    → IsSorted (comes_before sort) (sort_pools pools sort)
      × (count_by p (sort_pools pools sort) ≡ count_by p pools)
unfolding sort_pools
sort_pools_lem pools sort p = (
  sort_by-IsSorted (comes_before sort) (comes_before_total sort) pools,
  count_by-sort_by (comes_before sort) p pools,
)

-- The pages from the first to a given one.
abbrev pub pages_to : List LuckyScratchPool → ℕ → List LuckyScratchPool
pages_to sorted zero = []
pages_to sorted (suc n) = pages_to sorted n ++ paginated_pools sorted (suc n)

pages_to_lem : (sorted : List LuckyScratchPool) (n : ℕ) → pages_to sorted n ≡ take (8 * n) sorted
unfolding paginated_pools
pages_to_lem sorted zero = refl
pages_to_lem sorted (suc n) =
    rw (pages_to_lem sorted n, page_lem n)
      (sym (take-add (8 * n) 8 (8 * suc n) sorted (omega arith)))
  where
    page_lem :
        (n : ℕ)
        → take (suc n * 8 - (suc n - 1) * 8) (drop ((suc n - 1) * 8) sorted)
          ≡ take 8 (drop (8 * n) sorted)
    page_lem n = rw (size n, start n) refl
      where
        size : (n : ℕ) → suc n * 8 - (suc n - 1) * 8 ≡ 8
        size n = omega arith

        start : (n : ℕ) → (suc n - 1) * 8 ≡ 8 * n
        start n = omega arith

-- The pages of the store from the first to the last are together the sorted list, in order.
pub pages_to-total_pages :
    (sorted : List LuckyScratchPool) → pages_to sorted (total_pages sorted) ≡ sorted
unfolding total_pages
pages_to-total_pages sorted =
    pages_to_lem sorted (total_pages sorted)
    ∙ take_all (8 * total_pages sorted) sorted (ground arith)

length-paginated_pools :
    (sorted : List LuckyScratchPool) (page : ℕ)
    → length (paginated_pools sorted page)
      ≡ min (page * 8 - (page - 1) * 8) (length sorted - (page - 1) * 8)
unfolding paginated_pools
length-paginated_pools sorted page =
    length-take (page * 8 - (page - 1) * 8) (drop ((page - 1) * 8) sorted)
    ∙ ap (min (page * 8 - (page - 1) * 8)) (length-drop ((page - 1) * 8) sorted)

shown :
    (n p : ℕ)
    → 0 < n
    → 0 < p
    → p ≤ max 1 ((n + 7) / 8)
    → 0 < min (p * 8 - (p - 1) * 8) (n - (p - 1) * 8)
shown n p h1 h2 h3 = ground arith

-- From any page number of 1 or more, where a pool is listed, the page that is shown exists and
-- shows a pool.
pub settle_page_lem :
    (sorted : List LuckyScratchPool) (page : ℕ)
    → 0 < page
    → 0 < length sorted
    → (0 < settle_page page sorted)
      × (settle_page page sorted ≤ total_pages sorted)
      × (0 < length (paginated_pools sorted (settle_page page sorted)))
unfolding settle_page
settle_page_lem sorted page h some_pool = (
  ground arith,
  ground arith,
  rw (length-paginated_pools sorted (settle_page page sorted))
      (shown (length sorted) (settle_page page sorted) some_pool (ground arith) (ground arith)),
)
