-- ===== src/Reveal/Single/Tests.antt =====
-- One ticket: a first scratch fails, the second opens it.
use lucky_scratch.Prelude.{◌≡◌, ◌≢◌, ◌⊎◌, ◌≤◌, ◌+◌, refl, true, false, some, List, [], ◌∷◌}
use lucky_scratch.Reveal.Single.{
  revealed, Props, Event, pointer_down, pointer_move, pointer_up, settle, fire, receive, mount, run,
}
use lucky_scratch.Reveal.Single.Laws.{run_once}

abbrev props : Props
props = record { is_scratchable = true; is_ready_to_scratch = true; has_preparation_error = false }

abbrev events : List Event
events =
    pointer_down
    ∷ pointer_move (some (255 ∷ 0 ∷ []))
    ∷ pointer_move (some (0 ∷ 0 ∷ []))
    ∷ settle false
    ∷ receive props
    ∷ pointer_up (some (0 ∷ 0 ∷ []))
    ∷ settle true
    ∷ fire
    ∷ []

revealed_test : (run true (mount true props) events).phase ≡ revealed
unfolding run lucky_scratch.Reveal.Single.step mount lucky_scratch.Reveal.Canvas.reaches_threshold
    lucky_scratch.Reveal.Canvas.calculate_progress
revealed_test = refl

run_once_example :
    let v = run true (mount true props) events in
    (v.in_flight + v.succeeded ≤ 1) × ((v.succeeded ≡ 1) ⊎ (v.phase ≢ revealed))
run_once_example =
    run_once true props events refl (tt, (tt, (tt, (tt, (refl, (tt, (tt, (tt, tt))))))))
