-- ===== src/Display.antt =====
-- What a pool is shown as: packages/nextjs/services/luckyScratch/display.ts. Labels that are
-- formatted by the locale, and the drawing of a missing cover, are left out.
pub mod Hash
pub mod Cover
mod Tests
use lucky_scratch.Prelude.{
  ℕ, ◌+◌, ◌-◌, ◌*◌, Bool, true, false, not, ◌&&◌, ◌||◌, Option, none, some, List, [], ◌∷◌, ◌++◌,
  leb, ltb, ◌==◌, any, find?, length, take, drop, or_else, if◌then◌else◌,
}
use lucky_scratch.Prelude.Texts.{Text, codes, trim, to_lower, includes, is_empty}
use lucky_scratch.Prelude.Decimal.{decimal}
use lucky_scratch.Prelude.Sorting.{sort_by}
use lucky_scratch.Types.{LuckyScratchPool, LuckyScratchPoolMetadata}
use lucky_scratch.Money.{nano_usdc, from_micro_usdc}
use lucky_scratch.Pools.Listing.{metadata_name}

-- `POOL_THEME_PRESETS`; a theme names its storeTheme, its label and its animation.
pub record Preset : Type 0 where
  pub keywords : List Text
  pub store_theme : Text
  pub theme_label : Text
  pub animation_type : Text

abbrev pub preset : List Text → Text → Text → Text → Preset
preset keywords theme label animation = record {
  keywords = keywords;
  store_theme = theme;
  theme_label = label;
  animation_type = animation;
}

abbrev pub cosmic : Preset
cosmic =
    preset (codes "cosmic" ∷ codes "nebula" ∷ codes "space" ∷ codes "void" ∷ []) (codes "cosmic")
      (codes "Cosmic") (codes "cosmic")

unfoldable pub pool_theme_presets : List Preset
pool_theme_presets =
    preset (codes "dragon" ∷ codes "flame" ∷ codes "ember" ∷ []) (codes "dragon") (codes "Dragon")
      (codes "dragon")
    ∷ preset (codes "sakura" ∷ codes "blossom" ∷ codes "petal" ∷ []) (codes "sakura")
        (codes "Sakura") (codes "sakura")
    ∷ preset (codes "diamond" ∷ codes "crystal" ∷ codes "gem" ∷ []) (codes "diamond")
        (codes "Diamond") (codes "diamond")
    ∷ preset (codes "lantern" ∷ codes "fortune" ∷ codes "lucky" ∷ []) (codes "lantern")
        (codes "Lantern") (codes "lantern")
    ∷ preset (codes "star" ∷ codes "starlight" ∷ codes "astral" ∷ []) (codes "star") (codes "Star")
        (codes "starlight")
    ∷ preset (codes "crown" ∷ codes "royal" ∷ codes "king" ∷ []) (codes "crown") (codes "Crown")
        (codes "golden")
    ∷ preset (codes "rainbow" ∷ codes "prism" ∷ codes "aurora" ∷ []) (codes "rainbow")
        (codes "Rainbow") (codes "crystal")
    ∷ cosmic
    ∷ []

-- `[…].filter(Boolean).join(" ")`
abbrev pub join_words : List Text → Text
join_words [] = []
join_words (w ∷ ws) =
    let rest = join_words ws in
    if is_empty w then rest else if is_empty rest then w else w ++ b' ' ∷ rest

abbrev pub metadata_words : Option LuckyScratchPoolMetadata → List Text
metadata_words none = []
metadata_words (some m) = m.theme_key ∷ m.name ∷ m.description ∷ m.theme_id ∷ []

unfoldable pub theme_search_text : LuckyScratchPool → Text
theme_search_text pool = to_lower (join_words (pool.theme_id ∷ metadata_words pool.metadata))

unfoldable pub get_pool_display_name : LuckyScratchPool → Text
get_pool_display_name pool =
    let name = trim (metadata_name pool.metadata) in
    if is_empty name then codes "Pool #" ++ decimal pool.pool_id else name

-- `s.slice(-n)`; `slice(-0)` is the whole text.
abbrev pub last_of : ℕ → Text → Text
last_of n s = if n == 0 then s else drop (length s - n) s

unfoldable pub get_pool_short_creator : Text → ℕ → ℕ → Text
get_pool_short_creator creator lead tail =
    let normalized = trim creator in
    if leb (length normalized) (lead + tail + 2)
    then normalized
    else take lead normalized ++ codes "..." ++ last_of tail normalized

abbrev pub has_keyword : Text → Preset → Bool
has_keyword text preset = any (includes text) preset.keywords

unfoldable pub get_pool_visual_profile : LuckyScratchPool → Preset
get_pool_visual_profile pool =
    or_else (find? (has_keyword (theme_search_text pool)) pool_theme_presets) cosmic

pub data Rarity : Type 0 where
  legendary super_rare rare common : Rarity

unfoldable pub get_pool_rarity : LuckyScratchPool → Rarity
get_pool_rarity pool =
    let max_prize_usdc = from_micro_usdc (some pool.max_prize) in
    if leb (400 * nano_usdc) max_prize_usdc
    then legendary
    else if leb (150 * nano_usdc) max_prize_usdc
    then super_rare
    else if leb (50 * nano_usdc) max_prize_usdc
    then rare
    else common

-- By revenue and then by number, both falling.
abbrev pub earns_more : LuckyScratchPool → LuckyScratchPool → Bool
earns_more left right =
    ltb right.realized_revenue left.realized_revenue
    || (left.realized_revenue == right.realized_revenue && leb right.pool_id left.pool_id)

unfoldable pub sort_pools_by_revenue : List LuckyScratchPool → List LuckyScratchPool
sort_pools_by_revenue = sort_by earns_more
