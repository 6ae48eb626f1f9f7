-- ===== src/Reveal/Batch/Tests.antt =====
-- Two tickets scratched together.
use lucky_scratch.Prelude.{◌≡◌, refl, true, false, List, [], ◌∷◌, arith, length, suc}
use lucky_scratch.Prelude.Texts.{Text, codes}
use lucky_scratch.Reveal.Batch.{
  submitting, done, Props, Event, manual_reveal, scratch_all, settle, fire, step, mount, run, has,
  handle,
}
use lucky_scratch.Reveal.Batch.Finish.{fires, show_summary_lem}
use lucky_scratch.Reveal.Batch.Once.{scratch_once}
use lucky_scratch.Scratch.Page.{reveal_prepared_scratch}
use lucky_scratch.Reveal.Batch.Opening.{batch_props, opened, scratch_all_opens}
use lucky_scratch.Reveal.Batch.Shut.{reveal_needs_scratch}

abbrev ids : List Text
ids = codes "5" ∷ codes "6" ∷ []

abbrev props : Props
props = record {
  scratchable_ticket_ids = ids;
  is_ready_to_scratch = true;
  has_preparation_error = false;
  has_on_scratch_all = true;
}

abbrev clicked : List Event
clicked = scratch_all ∷ settle true ∷ []

abbrev finished : List Event
finished = scratch_all ∷ settle false ∷ scratch_all ∷ settle true ∷ fire 1 ∷ fire 0 ∷ fire 0 ∷ []

submitting_test : (run ids (mount ids props) (scratch_all ∷ [])).phase ≡ submitting
unfolding run step mount
submitting_test = refl

show_summary_lem_example : has 1 (run ids (mount ids props) finished).revealed_indices ≡ true
unfolding run step mount
show_summary_lem_example = show_summary_lem ids props finished 1 refl (omega arith)

scratch_once_example :
    let v = run ids (mount ids props) clicked in
    ((run ids v (manual_reveal 0 ∷ scratch_all ∷ [])).scratch_promise ≡ done)
    × ((run ids v (manual_reveal 0 ∷ scratch_all ∷ [])).scratch_calls ≡ v.scratch_calls)
unfolding run step mount
scratch_once_example =
    scratch_once ids (run ids (mount ids props) clicked) (manual_reveal 0 ∷ scratch_all ∷ []) refl

reveal_needs_scratch_example :
    (run ids (mount ids props) (manual_reveal 0 ∷ settle true ∷ [])).scratch_promise ≡ done
unfolding run step mount
reveal_needs_scratch_example =
    reveal_needs_scratch ids 0 props (manual_reveal 0 ∷ settle true ∷ []) (refl, refl)
      (tt, (tt, tt)) refl

-- The tickets are checked, and the results are not ready yet.
abbrev preparing : List Props
preparing = batch_props true ids ids false false ∷ []

scratch_all_opens_example :
    let v =
      opened ids preparing
        (batch_props true ids ids true false)
        (reveal_prepared_scratch true ids) in
    (run ids v (fires (suc (length v.timers)))).show_summary ≡ true
unfolding batch_props lucky_scratch.Scratch.Page.visible_scratchable_ticket_ids mount run step
    handle
scratch_all_opens_example = scratch_all_opens ids preparing ids true false refl refl (omega arith)
