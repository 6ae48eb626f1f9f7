-- ===== src/Home.antt =====
-- The home page: packages/nextjs/components/home. CommunityPoolsSection.tsx and ThemePoolsSection.tsx
-- choose pools, LiveWinnersTicker.tsx tells of claims, HeroSection.tsx of the backend and
-- StatsSection.tsx of the platform. The formats of numbers and `encodeURIComponent` are parameters.
pub mod Laws
mod Tests
use lucky_scratch.Prelude.{
  ℕ, suc, Bool, true, false, not, ◌&&◌, Option, none, some, List, [], ◌∷◌, ◌++◌, leb, ◌==◌, map,
  filter, take, if◌then◌else◌,
}
use lucky_scratch.Prelude.Texts.{Text, codes, text_eq}
use lucky_scratch.Prelude.Decimal.{decimal}
use lucky_scratch.Types.{LuckyScratchPool, LuckyScratchTicket}
use lucky_scratch.Store.{is_store_visible}
use lucky_scratch.Display.{
  get_pool_display_name, get_pool_visual_profile, Rarity, get_pool_rarity, sort_pools_by_revenue,
}
use lucky_scratch.Display.Cover.{get_pool_display_image, get_recent_win_label}

-- The format of micro-USDC and of basis points, and `encodeURIComponent`.
pub record Formats : Type 0 where
  pub usdc : ℕ → Text
  pub percent : ℕ → Text
  pub encode : Text → Text

pub record CommunityPoolData : Type 0 where
  pub id : Text
  pub name : Text
  pub image : Text
  pub return_rate : Text
  pub max_prize : Text
  pub price : Text

pub record PoolCardData : Type 0 where
  pub id : Text
  pub name : Text
  pub image : Text
  pub rarity : Rarity
  pub price : Text
  pub win_rate : Text
  pub max_prize : Text
  pub animation_type : Text
  pub hidden_on_mobile : Bool

abbrev pub is_official : LuckyScratchPool → Bool
is_official pool = pool.protocol_owned && is_store_visible pool

abbrev pub is_community : LuckyScratchPool → Bool
is_community pool = not pool.protocol_owned && is_store_visible pool

-- The pools that the two sections show.
unfoldable pub community_choice : List LuckyScratchPool → List LuckyScratchPool
community_choice items = take 4 (sort_pools_by_revenue (filter is_community items))

unfoldable pub theme_choice : List LuckyScratchPool → List LuckyScratchPool
theme_choice items = take 8 (sort_pools_by_revenue (filter is_official items))

module _ (formats : Formats) where
  abbrev pub community_card : LuckyScratchPool → CommunityPoolData
  community_card pool = record {
    id = decimal pool.pool_id;
    name = get_pool_display_name pool;
    image = get_pool_display_image formats.encode pool;
    return_rate = formats.percent pool.target_rtp_bps ++ codes "%";
    max_prize = formats.usdc pool.max_prize ++ codes "U";
    price = formats.usdc pool.ticket_price ++ codes " USDC";
  }

  unfoldable pub community_pools : List LuckyScratchPool → List CommunityPoolData
  community_pools items = map community_card (community_choice items)

  abbrev pub theme_card : ℕ → LuckyScratchPool → PoolCardData
  theme_card index pool = record {
    id = decimal pool.pool_id;
    name = get_pool_display_name pool;
    image = get_pool_display_image formats.encode pool;
    rarity = get_pool_rarity pool;
    price = formats.usdc pool.ticket_price ++ codes "U";
    win_rate = formats.percent pool.hit_rate_bps ++ codes "%";
    max_prize = formats.usdc pool.max_prize ++ codes "U";
    animation_type = (get_pool_visual_profile pool).animation_type;
    hidden_on_mobile = leb 4 index;
  }

  -- `.map((pool, index) => …)` from an index on.
  abbrev pub theme_cards : ℕ → List LuckyScratchPool → List PoolCardData
  theme_cards index [] = []
  theme_cards index (pool ∷ pools) = theme_card index pool ∷ theme_cards (suc index) pools

  unfoldable pub theme_pools : List LuckyScratchPool → List PoolCardData
  theme_pools items = theme_cards 0 (theme_choice items)

-- `poolNames.get(poolId)`, where a later pool replaces an earlier one of the same number.
abbrev pub name_of : ℕ → List LuckyScratchPool → Option Text
name_of id [] = none
name_of id (pool ∷ pools) = elim (name_of id pools) [
  | some name ↦ some name
  | none ↦ if pool.pool_id == id then some (get_pool_display_name pool) else none
]

-- A line of the ticker, with the number of its ticket unless it holds the place of one.
pub record Winner : Type 0 where
  pub key : Option ℕ
  pub label : Text

abbrev pub placeholder : Bool → List Winner
placeholder is_loading =
    record {
      key = none;
      label =
          if is_loading
          then codes "Loading recent claimed wins..."
          else codes "No claimed wins yet. The next claim will appear here.";
    }
    ∷ []

abbrev pub winner : (ℕ → Text) → List LuckyScratchPool → LuckyScratchTicket → Winner
winner usdc pools ticket = record {
  key = some ticket.ticket_id;
  label = get_recent_win_label usdc ticket (name_of ticket.pool_id pools);
}

unfoldable pub ticker_items :
    (ℕ → Text) → Bool → List LuckyScratchTicket → List LuckyScratchPool → List Winner
ticker_items usdc is_loading [] pools = placeholder is_loading
ticker_items usdc is_loading (t ∷ ts) pools = map (winner usdc pools) (t ∷ ts)

-- From the status and the chain that the backend answers, if it does.
unfoldable pub status_label : Option (Text × Text) → Text
status_label none = codes "System Status: syncing backend"
status_label (some (status, chain)) =
    if text_eq status (codes "ok")
    then codes "System Status: " ++ chain ++ codes " online"
    else codes "System Status: syncing backend"
