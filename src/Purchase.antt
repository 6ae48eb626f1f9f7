-- ===== src/Purchase.antt =====
-- Buying tickets: packages/nextjs/components/purchase/PurchasePage.tsx. The selection and what it
-- allows; `handlePurchase` is in a child.
mod Tests
pub mod Handler
pub mod Prizes
pub mod Selection
pub mod Runs
pub mod Bought
pub mod Gallery
pub mod Hint
pub mod Canvas
pub mod Animation
use lucky_scratch.Prelude.{
  ℕ, ◌+◌, ◌*◌, Bool, true, false, not, ◌&&◌, ◌||◌, Option, none, some, List, [], ◌∷◌, ◌++◌, map,
  leb, ltb, ◌==◌, length, take, filter, any, if◌then◌else◌, is_some, min, max,
}
use lucky_scratch.Prelude.Texts.{Text, text_eq, codes}
use lucky_scratch.Prelude.Decimal.{decimal, pad_start}
use lucky_scratch.Prelude.Sorting.{sort_by}
use lucky_scratch.Types.{
  LuckyScratchPool, LuckyScratchPoolRound, LuckyScratchPurchaseContext, PrizeTierPreview,
  PoolStatus, active, RoundStatus, ready, pending_encryption,
}

unfoldable pub format_ticket_display_id : ℕ → Text
format_ticket_display_id index = pad_start 4 (decimal (index + 1))

pub data ModeLabel : Type 0 where
  high_win_rate balanced high_multiplier : ModeLabel

unfoldable pub mode_label_from_pool : ℕ → ModeLabel
mode_label_from_pool hit_rate_bps =
    if leb 5500 hit_rate_bps
    then high_win_rate
    else if leb 3500 hit_rate_bps
    then balanced
    else high_multiplier

-- `right.prizeAmount - left.prizeAmount || right.count - left.count`: whether `left` comes first.
abbrev pub before : PrizeTierPreview → PrizeTierPreview → Bool
before left right =
    ltb right.prize_amount left.prize_amount
    || (right.prize_amount == left.prize_amount && leb right.count left.count)

-- The tiers that `buildPrizeStructure` shows, in its order; their labels and icons are not modelled.
unfoldable pub build_prize_structure : List PrizeTierPreview → List PrizeTierPreview
build_prize_structure tiers =
    sort_by before (filter (λ t. ltb 0 t.prize_amount && ltb 0 t.count) tiers)

pub data Mode : Type 0 where
  manual quick : Mode

pub data Phase : Type 0 where
  selecting authorizing purchasing purchased : Phase

-- The state of the page that a purchase reads.
pub record Picks : Type 0 where
  pub mode : Mode
  pub selected_ids : List Text
  pub quick_quantity : ℕ

abbrev pub has_id : Text → List Text → Bool
has_id id = any (λ x. text_eq x id)

unfoldable pub handle_select : Text → List Text → List Text
handle_select id prev = if leb 10 (length prev) || has_id id prev then prev else prev ++ id ∷ []

unfoldable pub handle_deselect : Text → List Text → List Text
handle_deselect id prev = filter (λ x. not (text_eq x id)) prev

abbrev is_active : PoolStatus → Bool
is_active active = true
is_active _ = false

abbrev is_ready : RoundStatus → Bool
is_ready ready = true
is_ready _ = false

-- `purchaseContext?.currentRound || pool?.currentRoundState`
abbrev pub current_round_of : LuckyScratchPurchaseContext → Option LuckyScratchPoolRound
current_round_of context = elim context.current_round [
  | none ↦ context.pool.current_round_state
  | some round ↦ some round
]

abbrev round_is_ready : Option LuckyScratchPoolRound → Bool
round_is_ready none = false
round_is_ready (some round) = is_ready round.status

unfoldable pub round_ready : LuckyScratchPurchaseContext → Bool
round_ready context =
    is_active context.pool.status
    && not context.pool.close_requested
    && context.pool.initialized
    && round_is_ready (current_round_of context)

-- `displayIdToIndex.get(id)`: the last index with that id, as a later `set` replaces an earlier one.
unfoldable pub display_id_to_index : List ℕ → Text → Option ℕ
display_id_to_index [] id = none
display_id_to_index (index ∷ indexes) id =
    let rest = display_id_to_index indexes id in
    elim rest [
      | some found ↦ some found
      | none ↦ if text_eq (format_ticket_display_id index) id then some index else none
    ]

abbrev pub keep_some : Option ℕ → List ℕ → List ℕ
keep_some none rest = rest
keep_some (some index) rest = index ∷ rest

unfoldable pub indexes_of : List ℕ → List Text → List ℕ
unfolding display_id_to_index
indexes_of available [] = []
indexes_of available (id ∷ ids) =
    keep_some (display_id_to_index available id) (indexes_of available ids)

-- `quickPickIds` is a parameter: ten of the available ids in an order of chance.
unfoldable pub active_selection : Picks → List Text → List Text
active_selection picks quick_pick_ids = elim picks.mode [
  | manual ↦ picks.selected_ids
  | quick ↦ take picks.quick_quantity quick_pick_ids
]

unfoldable pub active_count : Picks → ℕ
active_count picks = elim picks.mode [
  | manual ↦ length picks.selected_ids
  | quick ↦ picks.quick_quantity
]

unfoldable pub active_ticket_indexes : LuckyScratchPurchaseContext → Picks → List Text → List ℕ
active_ticket_indexes context picks quick_pick_ids =
    indexes_of context.available_ticket_indexes (active_selection picks quick_pick_ids)

unfoldable pub total_cost_micro : LuckyScratchPurchaseContext → Picks → ℕ
total_cost_micro context picks = context.pool.ticket_price * active_count picks

-- The two effects: a pool without selection is bought from by quantity, and the quantity is at most
-- the number of tickets there are.
unfoldable pub settle_mode : LuckyScratchPurchaseContext → Picks → Picks
settle_mode context picks = elim picks.mode [
  | manual ↦
      if context.pool.selectable then picks else record picks { mode = quick; selected_ids = [] }
  | quick ↦ picks
]

unfoldable pub settle_quantity : LuckyScratchPurchaseContext → Picks → Picks
settle_quantity context picks =
    let total = length context.available_ticket_indexes in
    if ltb total picks.quick_quantity && ltb 0 total
    then record picks { quick_quantity = total }
    else picks

unfoldable pub handle_buy_more : LuckyScratchPurchaseContext → Picks → Picks
handle_buy_more context picks = record picks {
  selected_ids = [];
  quick_quantity = min 3 (max 1 (length context.available_ticket_indexes));
}
