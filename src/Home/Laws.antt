-- ===== src/Home/Laws.antt =====
-- Which pools the home page shows.
use lucky_scratch.Prelude.{
  ℕ, ◌<◌, ◌≤◌, ◌≡◌, ◌⊎◌, refl, sym, ap, ◌∙◌, min, Bool, true, false, not, ◌&&◌, List, [], ◌∷◌, ◌++◌,
  arith, filter, count_by, count_by-true, length, take,
}
use lucky_scratch.Prelude.Sorting.{sort_by, IsTotal, IsSorted, take-sort_by}
use lucky_scratch.Types.{LuckyScratchPool, closed}
use lucky_scratch.Store.{is_store_visible}
use lucky_scratch.Display.{earns_more, sort_pools_by_revenue}
use lucky_scratch.Home.{is_official, is_community, community_choice, theme_choice}

-- Of two pools that follow each other the first has the greater revenue, or the same revenue and no
-- smaller number.
abbrev pub IsByRevenue : List LuckyScratchPool → Type 0
IsByRevenue [] = Unit
IsByRevenue (x ∷ []) = Unit
IsByRevenue (x ∷ y ∷ pools) =
    ((y.realized_revenue < x.realized_revenue)
      ⊎ (x.realized_revenue ≡ y.realized_revenue) × (y.pool_id ≤ x.pool_id))
    × IsByRevenue (y ∷ pools)

abbrev pub is_running : LuckyScratchPool → Bool
is_running pool = elim pool.status [ closed ↦ false | _ ↦ not pool.paused ]

abbrev pub is_running_community : LuckyScratchPool → Bool
is_running_community pool = is_running pool && not pool.protocol_owned

abbrev pub is_running_official : LuckyScratchPool → Bool
is_running_official pool = is_running pool && pool.protocol_owned

-- The first of the wanted pools: with some rest behind them they are by revenue, and are the wanted
-- ones among the pools.
abbrev pub IsChoice :
    (LuckyScratchPool → Bool) → ℕ → List LuckyScratchPool → List LuckyScratchPool → Type 0
IsChoice wanted n items shown =
    (length shown ≡ min n (count_by wanted items))
    × (rest : List LuckyScratchPool) × IsByRevenue (shown ++ rest)
    × ((sort : LuckyScratchPool → Bool)
        → count_by sort (shown ++ rest) ≡ count_by (λ p. wanted p && sort p) items)

earns_more-IsTotal : IsTotal earns_more
earns_more-IsTotal x y h = ground arith

IsSorted-IsByRevenue :
    (pools : List LuckyScratchPool) → IsSorted earns_more pools → IsByRevenue pools
IsSorted-IsByRevenue [] h = tt
IsSorted-IsByRevenue (x ∷ []) h = tt
IsSorted-IsByRevenue (x ∷ y ∷ pools) (leads, h) = (ground arith, IsSorted-IsByRevenue (y ∷ pools) h)

count_by-filter :
    (keep wanted sort : LuckyScratchPool → Bool)
    → ((p : LuckyScratchPool) → keep p ≡ wanted p)
    → (items : List LuckyScratchPool)
    → count_by sort (filter keep items) ≡ count_by (λ p. wanted p && sort p) items
count_by-filter keep wanted sort same [] = refl
count_by-filter keep wanted sort same (x ∷ items) =
    ground (arith, same x, count_by-filter keep wanted sort same items)

count_by-and_true :
    (wanted : LuckyScratchPool → Bool) (items : List LuckyScratchPool)
    → count_by (λ p. wanted p && true) items ≡ count_by wanted items
count_by-and_true wanted [] = refl
count_by-and_true wanted (x ∷ items) = ground (arith, count_by-and_true wanted items)

take-IsChoice :
    (keep wanted : LuckyScratchPool → Bool) (n : ℕ) (items : List LuckyScratchPool)
    → ((p : LuckyScratchPool) → keep p ≡ wanted p)
    → IsChoice wanted n items (take n (sort_by earns_more (filter keep items)))
take-IsChoice keep wanted n items same =
    let (rest, sorted, all, size) =
      take-sort_by earns_more earns_more-IsTotal n (filter keep items) in
    (
      size
          ∙ ap (min n) (
              sym (count_by-true (filter keep items))
              ∙ count_by-filter keep wanted (λ _. true) same items
              ∙ count_by-and_true wanted items),
      rest,
      IsSorted-IsByRevenue (take n (sort_by earns_more (filter keep items)) ++ rest) sorted,
      λ sort. all sort ∙ count_by-filter keep wanted sort same items,
    )

is_community-running : (p : LuckyScratchPool) → is_community p ≡ is_running_community p
unfolding is_store_visible
is_community-running p = ground arith

is_official-running : (p : LuckyScratchPool) → is_official p ≡ is_running_official p
unfolding is_store_visible
is_official-running p = ground arith

-- The home page shows the first four of the community pools and the first eight of the official
-- ones that are neither closed nor paused, or all if there are fewer: with some rest behind them
-- the pools shown are in the order of their revenue and then of their number, both falling, and
-- are exactly these pools.
pub home_choice_lem :
    (items : List LuckyScratchPool)
    → IsChoice is_running_community 4 items (community_choice items)
      × IsChoice is_running_official 8 items (theme_choice items)
unfolding community_choice theme_choice sort_pools_by_revenue
home_choice_lem items = (
  take-IsChoice is_community is_running_community 4 items is_community-running,
  take-IsChoice is_official is_running_official 8 items is_official-running,
)
