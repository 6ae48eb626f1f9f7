-- ===== src/Display/Cover.antt =====
-- The cover of a pool in packages/nextjs/services/luckyScratch/display.ts, drawn where the pool has
-- no picture, and the short labels beside it. `encodeURIComponent` and the format of an amount are
-- parameters.
pub mod Laws
use lucky_scratch.Prelude.{
  ℕ, Bool, true, false, Option, none, some, List, [], ◌∷◌, ◌++◌, ◌==◌, if◌then◌else◌,
}
use lucky_scratch.Prelude.Texts.{Text, codes, text_eq, is_empty}
use lucky_scratch.Types.{LuckyScratchTicket, LuckyScratchPool}
use lucky_scratch.Display.{get_pool_display_name, get_pool_visual_profile, get_pool_short_creator}

-- `text.replace(/c/g, by)`
abbrev pub replace : ℕ → Text → Text → Text
replace c by [] = []
replace c by (d ∷ s) = if d == c then by ++ replace c by s else d ∷ replace c by s

-- The three replacements in the name: of &, of < and of >.
unfoldable pub escaped : Text → Text
escaped name =
    replace b'>' (codes "&gt;") (replace b'<' (codes "&lt;") (replace b'&' (codes "&amp;") name))

unfoldable pub accent : Text → Text
accent store_theme =
    if text_eq store_theme (codes "dragon")
    then codes "#FF7351"
    else if text_eq store_theme (codes "crown")
    then codes "#FFD709"
    else if text_eq store_theme (codes "diamond")
    then codes "#D4D2ED"
    else if text_eq store_theme (codes "sakura")
    then codes "#A694FF"
    else codes "#00BCD4"

abbrev pub lines : List Text → Text
lines [] = []
lines (l ∷ []) = l
lines (l ∷ m ∷ ls) = l ++ 10 ∷ lines (m ∷ ls)

-- The picture up to the name, for a colour; and past the name.
abbrev pub svg_head : Text → Text
svg_head colour = lines (
    codes "<svg xmlns=\"http://www.w3.org/2000/svg\" viewBox=\"0 0 1200 1600\">"
    ∷ codes "    <defs>"
    ∷ codes "      <linearGradient id=\"g\" x1=\"0\" y1=\"0\" x2=\"1\" y2=\"1\">"
    ∷ codes "        <stop offset=\"0%\" stop-color=\"#0C1323\"/>"
    ∷ (codes "        <stop offset=\"100%\" stop-color=\"" ++ colour ++ codes "\"/>")
    ∷ codes "      </linearGradient>"
    ∷ codes "    </defs>"
    ∷ codes "    <rect width=\"1200\" height=\"1600\" fill=\"url(#g)\"/>"
    ∷ (codes "    <circle cx=\"950\" cy=\"320\" r=\"220\" fill=\""
        ++ colour
        ++ codes "\" opacity=\"0.22\"/>")
    ∷ codes "    <circle cx=\"280\" cy=\"1280\" r=\"280\" fill=\"#ffffff\" opacity=\"0.08\"/>"
    ∷ codes
        "    <text x=\"96\" y=\"1280\" fill=\"#ffffff\" font-family=\"Arial, sans-serif\" font-size=\"112\" font-weight=\"700\">"
    ∷ [])

abbrev pub svg_tail : Text
svg_tail = lines (codes "</text>" ∷ codes "  </svg>" ∷ [])

unfoldable pub drawn_cover : LuckyScratchPool → Text
unfolding escaped accent
drawn_cover pool =
    svg_head (accent (get_pool_visual_profile pool).store_theme)
    ++ escaped (get_pool_display_name pool)
    ++ svg_tail

-- `a || b`
abbrev pub first_given : Option Text → Option Text → Option Text
first_given none rest = rest
first_given (some s) rest = if is_empty s then rest else some s

unfoldable pub get_pool_display_image : (Text → Text) → LuckyScratchPool → Text
get_pool_display_image encode pool =
    let drawn = codes "data:image/svg+xml;charset=UTF-8," ++ encode (drawn_cover pool) in
    elim pool.metadata [
      | none ↦ drawn
      | some m ↦ elim (first_given m.cover_image_url (first_given m.ticket_art_url none)) [
        | none ↦ drawn
        | some image ↦ image
      ]
    ]

unfoldable pub get_recent_win_label : (ℕ → Text) → LuckyScratchTicket → Option Text → Text
get_recent_win_label format ticket pool_name =
    let claimer = if is_empty ticket.claimed_by then ticket.owner else ticket.claimed_by in
    get_pool_short_creator claimer 6 4
    ++ codes " won "
    ++ format ticket.claim_clear_reward_amount
    ++ codes " USDC"
    ++ elim (first_given pool_name none) [ none ↦ [] | some name ↦ codes " in " ++ name ]

-- `.replace("...", "")`, of the first three dots.
abbrev pub without_dots : Text → Text
without_dots [] = []
without_dots (c ∷ []) = c ∷ []
without_dots (c ∷ d ∷ []) = c ∷ d ∷ []
without_dots (c ∷ d ∷ e ∷ s) =
    let rest = without_dots (d ∷ e ∷ s) in
    if text_eq (c ∷ d ∷ e ∷ []) (codes "...") then s else c ∷ rest

unfoldable pub get_address_badge_text : Text → Text
get_address_badge_text address = without_dots (get_pool_short_creator address 4 2)
