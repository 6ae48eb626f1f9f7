-- ===== src/Purchase/Canvas.antt =====
-- The coating of a bought ticket: packages/nextjs/components/purchase/ScratchCanvas.tsx. Mouse and
-- touch do the same. The threshold is a number of percent; a canvas is read after the stroke.
pub mod Laws
mod Tests
use lucky_scratch.Prelude.{
  ℕ, suc, ◌*◌, Bool, true, false, not, ◌&&◌, ◌||◌, Option, List, [], ◌∷◌, ltb, leb, if◌then◌else◌,
}
use lucky_scratch.Reveal.Canvas.{Progress}

-- The loop over the alpha bytes is that of the single view.
unfoldable pub calculate_progress : Option (List ℕ) → Progress
calculate_progress = lucky_scratch.Reveal.Canvas.calculate_progress

-- `p >= threshold`, which no share of zero pixels satisfies.
abbrev pub reaches : ℕ → Progress → Bool
reaches threshold p = ltb 0 p.total && leb (threshold * p.total) (100 * p.transparent)

pub record Canvas : Type 0 where
  pub threshold : ℕ
  pub disabled : Bool
  pub is_drawing : Bool
  pub has_triggered : Bool
  pub progress : Progress
  pub calls : ℕ  -- how often onThresholdReached was called

pub data Event : Type 0 where
  coat : Bool → Event  -- the effect on the size and the colour, with a canvas or without one
  pointer_down : Event
  pointer_move pointer_up : Option (List ℕ) → Event
  set_disabled : Bool → Event

unfoldable pub check_progress : Option (List ℕ) → Canvas → Canvas
check_progress pixels c =
    let p = calculate_progress pixels in
    if c.has_triggered
    then c
    else if reaches c.threshold p
    then record c { progress = p; has_triggered = true; calls = suc c.calls }
    else record c { progress = p }

unfoldable pub step : Canvas → Event → Canvas
unfolding check_progress
step c (coat has_canvas) =
    if has_canvas
    then record c { has_triggered = false; progress = record { transparent = 0; total = 1 } }
    else c
step c pointer_down = if c.disabled then c else record c { is_drawing = true }
step c (pointer_move pixels) = if not c.is_drawing || c.disabled then c else check_progress pixels c
step c (pointer_up pixels) = check_progress pixels (record c { is_drawing = false })
step c (set_disabled b) = record c { disabled = b }

unfoldable pub run : Canvas → List Event → Canvas
run c [] = c
run c (e ∷ es) = run (step c e) es

unfoldable pub mount : ℕ → Bool → Canvas
mount threshold disabled = record {
  threshold = threshold;
  disabled = disabled;
  is_drawing = false;
  has_triggered = false;
  progress = record { transparent = 0; total = 1 };
  calls = 0;
}
