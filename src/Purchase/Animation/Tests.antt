-- ===== src/Purchase/Animation/Tests.antt =====
-- The sequence over two tickets, to its end, and with new properties in the last two seconds.
use lucky_scratch.Prelude.{◌≤◌, ◌≡◌, ◌⊎◌, refl, List, [], ◌∷◌, ◌++◌, length}
use lucky_scratch.Prelude.Texts.{Text, codes}
use lucky_scratch.Purchase.Animation.{
  Event, timeline_complete, rerender, threshold_reached, fire, handle_scratch_threshold, handle,
  complete_effect, step, run, mount,
}
use lucky_scratch.Purchase.Animation.Laws.{complete_once}

abbrev tickets : List Text
tickets = codes "40" ∷ codes "41" ∷ []

abbrev scratched : List Event
scratched =
    timeline_complete
    ∷ timeline_complete
    ∷ timeline_complete
    ∷ threshold_reached (codes "41")
    ∷ threshold_reached (codes "40")
    ∷ fire 1
    ∷ fire 0
    ∷ []

finished_test : (run tickets mount (scratched ++ fire 0 ∷ [])).completions ≡ 1
unfolding run step handle handle_scratch_threshold complete_effect
finished_test = refl

rerender_test : (run tickets mount (scratched ++ rerender ∷ fire 0 ∷ fire 0 ∷ [])).completions ≡ 2
unfolding run step handle handle_scratch_threshold complete_effect
rerender_test = refl

complete_once_example :
    let v = run tickets mount (scratched ++ fire 0 ∷ []) in
    (v.completions ≤ 1) × ((v.completions ≡ 0) ⊎ (length tickets ≤ length v.revealed_tickets))
complete_once_example =
    complete_once tickets (scratched ++ fire 0 ∷ [])
      (refl, (refl, (refl, (refl, (refl, (refl, (refl, (refl, tt))))))))
