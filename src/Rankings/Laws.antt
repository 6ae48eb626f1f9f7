-- ===== src/Rankings/Laws.antt =====
-- The order of the ladder, its ranks and its counts.
use lucky_scratch.Prelude.{
  ℕ, zero, suc, ◌+◌, ◌≡◌, refl, Bool, Option, none, some, List, [], ◌∷◌, ◌++◌, arith, get_elem?,
  count_by, All, All-append, filter,
}
use lucky_scratch.Prelude.Sorting.{IsSorted, IsTotal, sort_by-IsSorted, count_by-sort_by}
use lucky_scratch.Types.{LuckyScratchPool}
use lucky_scratch.Store.{is_store_visible}
use lucky_scratch.Rankings.{
  PoolMetric, win_rate, sales_volume, RankedPool, comes_before, ranked, entries, leaderboard,
  podium_entry, podium_entries,
}

comes_before_total : (metric : PoolMetric) → IsTotal (comes_before metric)
comes_before_total win_rate x y h = ground arith
comes_before_total sales_volume x y h = ground arith

get_elem?-entries :
    (index i : ℕ) (pools : List LuckyScratchPool) (e : RankedPool)
    → get_elem? (entries index pools) i ≡ some e
    → e.rank ≡ index + i + 1
get_elem?-entries index i [] e h = cc
get_elem?-entries index zero (p ∷ pools) e h = ground arith
get_elem?-entries index (suc i) (p ∷ pools) e h =
    omega (arith, get_elem?-entries (suc index) i pools e h)

-- The ladder is in order, lists the open pools, and the pool at a place has its rank.
pub ranked_lem :
    (metric : PoolMetric) (items : List LuckyScratchPool) (p : LuckyScratchPool → Bool)
    → IsSorted (comes_before metric) (ranked metric items)
      × (count_by p (ranked metric items) ≡ count_by p (filter is_store_visible items))
unfolding ranked
ranked_lem metric items p = (
  sort_by-IsSorted (comes_before metric) (comes_before_total metric)
      (filter is_store_visible items),
  count_by-sort_by (comes_before metric) p (filter is_store_visible items),
)

-- An entry of the podium shows the rank that it has on the ladder.
abbrev pub HasRank : ℕ × RankedPool → Type 0
HasRank (rank, e) = e.rank ≡ rank

podium_entry-HasRank :
    (i : ℕ) (pools : List LuckyScratchPool) (o : Option RankedPool)
    → get_elem? (entries 0 pools) i ≡ o
    → All HasRank (podium_entry (suc i) o)
podium_entry-HasRank i pools none h = tt
podium_entry-HasRank i pools (some e) h = (omega (arith, get_elem?-entries 0 i pools e h), tt)

pub podium_entries-HasRank :
    (metric : PoolMetric) (items : List LuckyScratchPool)
    → All HasRank (podium_entries (leaderboard metric items))
unfolding podium_entries leaderboard
podium_entries-HasRank metric items =
    let pools = ranked metric items in
    let board = entries 0 pools in
    All-append HasRank (podium_entry 2 (get_elem? board 1) ++ podium_entry 1 (get_elem? board 0))
      (podium_entry 3 (get_elem? board 2))
      (All-append HasRank (podium_entry 2 (get_elem? board 1)) (podium_entry 1 (get_elem? board 0))
        (podium_entry-HasRank 1 pools (get_elem? board 1) refl)
        (podium_entry-HasRank 0 pools (get_elem? board 0) refl))
      (podium_entry-HasRank 2 pools (get_elem? board 2) refl)
