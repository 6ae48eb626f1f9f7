-- ===== src/Purchase/Gallery.antt =====
-- The galleries of the purchase page: which tickets ManualPickGallery.tsx shows, and the quantity of
-- BatchPickGallery.tsx, in packages/nextjs/components/purchase/. The animations are taken as ended.
use lucky_scratch.Prelude.{
  get_elem?-take, get_elem?-drop, ℕ, zero, suc, ◌+◌, ◌-◌, ◌*◌, ◌/◌, ◌%◌, ◌≤◌, ◌<◌, ◌≡◌, refl, ◌∙◌,
  List, [], ◌∷◌, arith, leb, ltb, take, drop, length, get_elem?, if◌then◌else◌,
}
use lucky_scratch.Prelude.Texts.{Text}
use lucky_scratch.Purchase.{has_id, handle_select, handle_deselect}

abbrev pub display_count : ℕ
display_count = 8

unfoldable pub current_batch : List Text → ℕ → List Text
current_batch available_ids offset = take display_count (drop offset available_ids)

-- The end of `handleRefresh`.
unfoldable pub handle_refresh : List Text → ℕ → ℕ
handle_refresh available_ids offset =
    let next_offset = offset + display_count in
    if leb (length available_ids) next_offset then 0 else next_offset

unfoldable pub handle_card_click : Text → List Text → List Text
handle_card_click id selected_ids =
    if has_id id selected_ids
    then handle_deselect id selected_ids
    else handle_select id selected_ids

unfoldable pub handle_increment : ℕ → ℕ → ℕ
handle_increment max_quantity quantity =
    if ltb quantity max_quantity then quantity + 1 else quantity

unfoldable pub handle_decrement : ℕ → ℕ
handle_decrement quantity = if ltb 1 quantity then quantity - 1 else quantity

-- The offset after a number of refreshes.
abbrev pub refreshed : List Text → ℕ → ℕ
refreshed ids zero = 0
refreshed ids (suc n) = handle_refresh ids (refreshed ids n)

refreshed_lem : (ids : List Text) (n : ℕ) → 8 * n < length ids → refreshed ids n ≡ 8 * n
unfolding handle_refresh
refreshed_lem ids zero h = refl
refreshed_lem ids (suc n) h = ground (arith, refreshed_lem ids n)

-- Every available ticket comes up in the gallery: the one at index i is shown at place i mod 8
-- after i / 8 refreshes from the start.
pub refresh_shows :
    (ids : List Text) (i : ℕ)
    → i < length ids
    → get_elem? (current_batch ids (refreshed ids (i / 8))) (i % 8) ≡ get_elem? ids i
unfolding current_batch
refresh_shows ids i h = rw (refreshed_lem ids (i / 8) (omega arith)) (
    get_elem?-take 8 (i % 8) (drop (8 * (i / 8)) ids) (omega arith)
    ∙ get_elem?-drop (8 * (i / 8)) (i % 8) i ids (omega arith))

pub data Step : Type 0 where
  increment decrement : Step

abbrev pub stepped : ℕ → ℕ → List Step → ℕ
stepped most quantity [] = quantity
stepped most quantity (increment ∷ ss) = stepped most (handle_increment most quantity) ss
stepped most quantity (decrement ∷ ss) = stepped most (handle_decrement quantity) ss

-- The quantity stays between one and the most there may be.
pub stepped_bounds :
    (most quantity : ℕ) (ss : List Step)
    → 1 ≤ quantity
    → quantity ≤ most
    → (1 ≤ stepped most quantity ss) × (stepped most quantity ss ≤ most)
unfolding handle_increment handle_decrement
stepped_bounds most q [] h k = (h, k)
stepped_bounds most q (increment ∷ ss) h k =
    stepped_bounds most (handle_increment most q) ss (ground arith) (ground arith)
stepped_bounds most q (decrement ∷ ss) h k =
    stepped_bounds most (handle_decrement q) ss (ground arith) (ground arith)
