-- ===== src/Purchase/Animation.antt =====
-- The sequence after a purchase: packages/nextjs/components/purchase/PurchaseRevealAnimation.tsx. A
-- timeline is an event that ends a phase; a canvas of a ticket reports its threshold; timers fire in
-- any order; `rerender` gives the view a new onComplete or a new array of the same tickets.
pub mod Laws
mod Tests
use lucky_scratch.Prelude.{
  ℕ, zero, suc, Bool, true, false, not, ◌&&◌, ◌||◌, Option, none, some, List, [], ◌∷◌, ◌++◌, ◌==◌,
  length, get_elem?, if◌then◌else◌,
}
use lucky_scratch.Prelude.Texts.{Text}
use lucky_scratch.Scratch.{has_text}

pub data RevealPhase : Type 0 where
  gather shuffle spread scratch done : RevealPhase

pub data Timer : Type 0 where
  reveal : Text → Timer
  complete : Timer

pub record View : Type 0 where
  pub phase : RevealPhase
  pub scratched_tickets : List Text
  pub revealed_tickets : List Text
  pub timers : List Timer
  pub completions : ℕ  -- how often onComplete was called

pub data Event : Type 0 where
  timeline_complete rerender : Event
  threshold_reached : Text → Event
  fire : ℕ → Event

abbrev pub add_text : Text → List Text → List Text
add_text t s = if has_text t s then s else t ∷ s

abbrev pub next_phase : RevealPhase → RevealPhase
next_phase gather = shuffle
next_phase shuffle = spread
next_phase spread = scratch
next_phase phase = phase

abbrev pub is_scratch : RevealPhase → Bool
is_scratch scratch = true
is_scratch _ = false

abbrev pub same_phase : RevealPhase → RevealPhase → Bool
same_phase gather gather = true
same_phase shuffle shuffle = true
same_phase spread spread = true
same_phase scratch scratch = true
same_phase done done = true
same_phase _ _ = false

-- `handleScratchThreshold`
unfoldable pub handle_scratch_threshold : Text → View → View
handle_scratch_threshold id v = record v {
  scratched_tickets = add_text id v.scratched_tickets;
  timers = v.timers ++ reveal id ∷ [];
}

abbrev pub nth_removed : ℕ → List Timer → List Timer
nth_removed n [] = []
nth_removed zero (t ∷ ts) = ts
nth_removed (suc n) (t ∷ ts) = t ∷ nth_removed n ts

abbrev pub fired : Option Timer → ℕ → View → View
fired none n v = v
fired (some (reveal id)) n v = record v {
  revealed_tickets = add_text id v.revealed_tickets;
  timers = nth_removed n v.timers;
}
fired (some complete) n v = record v {
  phase = done;
  completions = suc v.completions;
  timers = nth_removed n v.timers;
}

module _ (tickets : List Text) where
  -- A canvas is there in the phase of scratching, over a ticket that is not scratched.
  abbrev pub has_canvas : Text → View → Bool
  has_canvas id v =
      is_scratch v.phase && has_text id tickets && not (has_text id v.scratched_tickets)

  unfoldable pub handle : View → Event → View
  unfolding handle_scratch_threshold
  handle v timeline_complete = record v { phase = next_phase v.phase }
  handle v rerender = v
  handle v (threshold_reached id) = if has_canvas id v then handle_scratch_threshold id v else v
  handle v (fire n) = fired (get_elem? v.timers n) n v

  abbrev pub is_rerender : Event → Bool
  is_rerender rerender = true
  is_rerender _ = false

  -- The effect runs where one of its dependencies has changed.
  abbrev pub depends : View → View → Event → Bool
  depends v w e =
      is_rerender e
      || not (same_phase v.phase w.phase)
      || not (length v.revealed_tickets == length w.revealed_tickets)

  unfoldable pub complete_effect : View → View
  complete_effect v =
      if is_scratch v.phase && length v.revealed_tickets == length tickets
      then record v { timers = v.timers ++ complete ∷ [] }
      else v

  unfoldable pub step : View → Event → View
  unfolding handle
  step v e = let w = handle v e in if depends v w e then complete_effect w else w

  unfoldable pub run : View → List Event → View
  run v [] = v
  run v (e ∷ es) = run (step v e) es

abbrev pub mount : View
mount = record {
  phase = gather;
  scratched_tickets = [];
  revealed_tickets = [];
  timers = [];
  completions = 0;
}
