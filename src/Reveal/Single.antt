-- ===== src/Reveal/Single.antt =====
-- One ticket scratched: packages/nextjs/components/scratch/SingleScratchView.tsx.
-- An event is a pointer's, the answer of onScratch, the timer of the reveal, or new properties.
-- Pointer events are taken in every phase, also where the styles of the page would keep them away.
pub mod Laws
mod Tests
use lucky_scratch.Prelude.{
  same_bool, ℕ, suc, ◌+◌, ◌-◌, Bool, true, false, not, ◌&&◌, Option, List, [], ◌∷◌, ltb,
  if◌then◌else◌,
}
use lucky_scratch.Reveal.Canvas.{Progress, calculate_progress, reaches_threshold}

pub data ScratchPhase : Type 0 where
  ready scratching submitting revealed : ScratchPhase

pub record Props : Type 0 where
  pub is_scratchable : Bool
  pub is_ready_to_scratch : Bool
  pub has_preparation_error : Bool

pub record View : Type 0 where
  pub props : Props
  pub phase : ScratchPhase
  pub progress : Progress
  pub is_drawing : Bool
  pub has_triggered : Bool
  pub in_flight : ℕ  -- calls of onScratch that have no answer
  pub succeeded : ℕ  -- calls of onScratch that went well
  pub timers : ℕ

pub data Event : Type 0 where
  pointer_down : Event
  pointer_move pointer_up : Option (List ℕ) → Event
  settle : Bool → Event
  fire : Event
  receive : Props → Event

abbrev pub can_scratch : Props → Bool
can_scratch p = p.is_scratchable && p.is_ready_to_scratch && not p.has_preparation_error

-- The effect on `[isScratchable]`; a page without a canvas leaves the view of a ticket to scratch.
unfoldable pub coat : Bool → View → View
coat has_canvas v =
    if not v.props.is_scratchable
    then record v {
      progress = record { transparent = 1; total = 1 };
      phase = revealed;
      has_triggered = true;
    }
    else if has_canvas
    then record v {
      progress = record { transparent = 0; total = 1 };
      phase = ready;
      has_triggered = false;
    }
    else v

-- `completeScratch` as far as the call.
unfoldable pub complete_scratch : View → View
complete_scratch v =
    if v.props.is_scratchable
    then record v { phase = submitting; in_flight = suc v.in_flight }
    else record v { phase = submitting }

unfoldable pub check_progress : Option (List ℕ) → View → View
unfolding complete_scratch
check_progress pixels v =
    let p = calculate_progress pixels in
    let w = record v { progress = p } in
    if v.has_triggered
    then v
    else if reaches_threshold p
    then complete_scratch (record w { has_triggered = true })
    else w

-- The call answers: the reveal is set, or the coating can be scratched again.
unfoldable pub settled : Bool → View → View
settled true v = record v {
  in_flight = v.in_flight - 1;
  succeeded = suc v.succeeded;
  timers = suc v.timers;
}
settled false v = record v { in_flight = v.in_flight - 1; has_triggered = false; phase = ready }

unfoldable pub step : Bool → View → Event → View
unfolding check_progress settled coat
step has_canvas v pointer_down =
    if can_scratch v.props then record v { is_drawing = true; phase = scratching } else v
step has_canvas v (pointer_move pixels) = if v.is_drawing then check_progress pixels v else v
step has_canvas v (pointer_up pixels) = check_progress pixels (record v { is_drawing = false })
step has_canvas v (settle answer) = if ltb 0 v.in_flight then settled answer v else v
step has_canvas v fire =
    if ltb 0 v.timers then record v { timers = v.timers - 1; phase = revealed } else v
step has_canvas v (receive p) =
    let w = record v { props = p } in
    if same_bool v.props.is_scratchable p.is_scratchable then w else coat has_canvas w

unfoldable pub mount : Bool → Props → View
unfolding coat
mount has_canvas p = coat has_canvas (record {
  props = p;
  phase = if p.is_scratchable then ready else revealed;
  progress = record { transparent = 0; total = 1 };
  is_drawing = false;
  has_triggered = false;
  in_flight = 0;
  succeeded = 0;
  timers = 0;
})

unfoldable pub run : Bool → View → List Event → View
run has_canvas v [] = v
run has_canvas v (e ∷ es) = run has_canvas (step has_canvas v e) es
