-- ===== src/Purchase/Canvas/Tests.antt =====
-- A stroke over a coating of four pixels.
use lucky_scratch.Prelude.{◌≡◌, refl, true, false, some, List, [], ◌∷◌}
use lucky_scratch.Purchase.Canvas.{
  Event, coat, pointer_down, pointer_move, pointer_up, run, step, mount, check_progress,
  calculate_progress,
}

abbrev strokes : List Event
strokes =
    coat true
    ∷ pointer_down
    ∷ pointer_move (some (0 ∷ 0 ∷ 0 ∷ 255 ∷ 0 ∷ 0 ∷ 0 ∷ 0 ∷ []))
    ∷ pointer_up (some (0 ∷ 0 ∷ 0 ∷ 0 ∷ 0 ∷ 0 ∷ 0 ∷ 0 ∷ []))
    ∷ []

calls_test : (run (mount 50 false) strokes).calls ≡ 1
unfolding run step mount check_progress calculate_progress
    lucky_scratch.Reveal.Canvas.calculate_progress
calls_test = refl

coated_test : (run (run (mount 50 false) strokes) strokes).calls ≡ 2
unfolding run step mount check_progress calculate_progress
    lucky_scratch.Reveal.Canvas.calculate_progress
coated_test = refl
