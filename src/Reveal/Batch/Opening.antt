-- ===== src/Reveal/Batch/Opening.antt =====
-- The batch view inside packages/nextjs/components/scratch/ScratchPage.tsx: a click on "Scratch all"
-- up to the summary.
use lucky_scratch.Prelude.{
  suc, ◌<◌, ◌≡◌, refl, ap, ◌∙◌, ◌++◌, Bool, true, false, List, [], ◌∷◌, arith, length, map,
}
use lucky_scratch.Prelude.Texts.{Text}
use lucky_scratch.Scratch.Page.{reveal_prepared_scratch, visible_scratchable_ticket_ids}
use lucky_scratch.Reveal.Batch.{
  ready, animating, Props, all, View, scratch_all, settle, can_scratch, settle_on, finish_effect,
  mark_effect, button_enabled, handle_scratch_all, submit_scratch_all_once, handle, step, mount,
  run, blank, pending, unset, Event, receive,
}
use lucky_scratch.Reveal.Batch.Finish.{fires, animating_finishes}

-- What the page hands to the view.
unfoldable pub batch_props : Bool → List Text → List Text → Bool → Bool → Props
batch_props has_checked scratchable ids are_results_ready has_error = record {
  scratchable_ticket_ids = visible_scratchable_ticket_ids has_checked scratchable ids;
  is_ready_to_scratch = are_results_ready;
  has_preparation_error = has_error;
  has_on_scratch_all = true;
}

module _ (ids : List Text) where
  -- A view in which the button can be clicked and nothing is waited for.
  abbrev IsFresh : View → Type 0
  IsFresh v =
      (v.phase ≡ ready)
      × (v.all_revealed ≡ false)
      × (v.scratch_promise ≡ unset)
      × (v.waiters ≡ [])
      × (can_scratch v.props ≡ true)
      × (v.props.has_on_scratch_all ≡ true)

  abbrev IsAsked : View → Type 0
  IsAsked v = (v.scratch_promise ≡ pending) × (v.waiters ≡ all v.props v.revealed_indices ∷ [])

  handle_scratch_all-IsAsked : (v : View) → IsFresh v → IsAsked (handle ids v scratch_all)
  unfolding handle handle_scratch_all submit_scratch_all_once
  handle_scratch_all-IsAsked v (a, b, c, d, e, f) =
      let enabled : button_enabled ids v ≡ true = ground arith in
      simp (enabled, c, e, f) (refl, ap (λ ws. ws ++ all v.props v.revealed_indices ∷ []) d)

  finish-IsAsked : (v : View) → IsAsked v → IsAsked (finish_effect ids v)
  finish-IsAsked v h = ground arith

  settle-animating :
      (v : View) → IsAsked v → (settle_on ids v.scratch_promise true v).phase ≡ animating
  settle-animating v (a, b) = rw (a, b) refl

  finish-phase : (v : View) → (finish_effect ids v).phase ≡ v.phase
  finish-phase v = ground arith

  clicked-animating :
      (v : View) → IsFresh v → (run ids v (scratch_all ∷ settle true ∷ [])).phase ≡ animating
  unfolding run step handle
  clicked-animating v h =
      let w : View = handle ids v scratch_all in
      let asked : IsAsked (finish_effect ids w) =
        finish-IsAsked w (handle_scratch_all-IsAsked v h) in
      finish-phase (settle_on ids (finish_effect ids w).scratch_promise true (finish_effect ids w))
      ∙ settle-animating (finish_effect ids w) asked

  -- Nothing has been clicked.
  abbrev IsIdle : View → Type 0
  IsIdle v = (v.phase ≡ ready) × (v.scratch_promise ≡ unset) × (v.waiters ≡ [])

  finish-IsIdle :
      (v : View) → IsIdle v → IsIdle (finish_effect ids v) × ((finish_effect ids v).props ≡ v.props)
  finish-IsIdle v h = ground arith

  receive-IsIdle :
      (p : Props) (v : View)
      → IsIdle v
      → IsIdle (step ids v (receive p)) × ((step ids v (receive p)).props ≡ p)
  unfolding step handle
  receive-IsIdle p v h = finish-IsIdle (mark_effect ids (record v { props = p })) h

  mount-IsIdle : (p : Props) → IsIdle (mount ids p)
  unfolding mount
  mount-IsIdle p = (finish-IsIdle (mark_effect ids (blank p)) (refl, refl, refl)).0

  receives-IsIdle :
      (ps : List Props) (v : View)
      → IsIdle v
      → (w : View) × IsIdle w
        × ((es : List Event) → run ids v (map receive ps ++ es) ≡ run ids w es)
  unfolding run
  receives-IsIdle [] v h = (v, h, λ es. refl)
  receives-IsIdle (p ∷ ps) v h =
      receives-IsIdle ps (step ids v (receive p)) (receive-IsIdle p v h).0

  answer_lem :
      (scratchable : List Text) (are_results_ready has_error : Bool)
      → can_scratch (batch_props true scratchable ids are_results_ready has_error) ≡ true
      → reveal_prepared_scratch are_results_ready scratchable ≡ true
  unfolding batch_props reveal_prepared_scratch visible_scratchable_ticket_ids
  answer_lem scratchable r e h = ground arith

  -- The properties of the first render, before the page has checked anything.
  abbrev pub first_props : Props
  first_props = batch_props false [] ids false false

  -- The view mounts with them and then receives others, the last of them as given.
  abbrev pub received : List Props → Props → List Event
  received ps p = map receive ps ++ receive p ∷ []

  abbrev pub opened : List Props → Props → Bool → View
  opened ps p answer =
      run ids (mount ids first_props)
        (map receive ps ++ receive p ∷ scratch_all ∷ settle answer ∷ [])

  opened-animating :
      (ps : List Props) (p : Props)
      → can_scratch p ≡ true
      → p.has_on_scratch_all ≡ true
      → (run ids (mount ids first_props) (received ps p)).all_revealed ≡ false
      → (opened ps p true).phase ≡ animating
  unfolding run
  opened-animating ps p c o h =
      let (w, idle, same) = receives-IsIdle ps (mount ids first_props) (mount-IsIdle first_props) in
      let ((a, b, d), props) = receive-IsIdle p w idle in
      let left : (step ids w (receive p)).all_revealed ≡ false = rw (same (receive p ∷ [])) at h in
      ap View.phase (same (receive p ∷ scratch_all ∷ settle true ∷ []))
      ∙ clicked-animating (step ids w (receive p))
          (a, left, b, d, ap can_scratch props ∙ c, ap Props.has_on_scratch_all props ∙ o)

  -- With at least one ticket: the view mounts before the page has checked anything, then receives
  -- any properties, and last those with which the page has made its check and grants the
  -- conditions to scratch. If not all tickets are revealed by then, a press of the button for all,
  -- the page's answer and then the timers in the order they were set, one more than are pending,
  -- lead to the summary.
  pub scratch_all_opens :
      (ps : List Props) (scratchable : List Text) (are_results_ready has_error : Bool)
      → can_scratch (batch_props true scratchable ids are_results_ready has_error) ≡ true
      → (run ids
          (mount ids first_props)
          (received ps (batch_props true scratchable ids are_results_ready has_error))).all_revealed
        ≡ false
      → 0 < length ids
      → let v =
          opened ps
            (batch_props true scratchable ids are_results_ready has_error)
            (reveal_prepared_scratch are_results_ready scratchable) in
        (run ids v (fires (suc (length v.timers)))).show_summary ≡ true
  scratch_all_opens ps scratchable r e c h b =
      let p : Props = batch_props true scratchable ids r e in
      rw (answer_lem scratchable r e c) (
        animating_finishes ids first_props
          (map receive ps ++ receive p ∷ scratch_all ∷ settle true ∷ []) b
          (opened-animating ps p c (unfold batch_props in refl) h))
