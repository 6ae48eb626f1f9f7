-- ===== src/Reveal/Batch.antt =====
-- Several tickets scratched together: packages/nextjs/components/scratch/BatchScratchView.tsx.
-- An event is a click, a card scratched far enough, the answer of onScratchAll, a timer, or new
-- properties; after each the effects run. A handler that awaits the answer is a waiter with what its
-- closure holds. The tickets are those of the address bar and stay the same.
pub mod Marks
pub mod Timers
pub mod Answers
pub mod Laws
pub mod Keeps
pub mod Finish
pub mod Once
pub mod Shut
pub mod Opening
mod Tests
use lucky_scratch.Prelude.{
  ℕ, zero, suc, ◌+◌, Bool, true, false, not, ◌&&◌, ◌||◌, Option, none, some, List, [], ◌∷◌, ◌++◌,
  ltb, ◌==◌, any, length, get_elem?, if◌then◌else◌,
}
use lucky_scratch.Prelude.Texts.{Text}
use lucky_scratch.Scratch.{has_text}

pub data BatchPhase : Type 0 where
  ready submitting animating revealed : BatchPhase

-- `scratchPromiseRef.current`: null, a promise that is not settled, or one that holds true.
pub data ScratchPromise : Type 0 where
  unset pending done : ScratchPromise

pub record Props : Type 0 where
  pub scratchable_ticket_ids : List Text
  pub is_ready_to_scratch : Bool
  pub has_preparation_error : Bool
  pub has_on_scratch_all : Bool

-- `handleManualReveal` and `handleScratchAll` at their await.
pub data Waiter : Type 0 where
  manual : ℕ → Waiter
  all : Props → List ℕ → Waiter

pub data Timer : Type 0 where
  reveal : ℕ → Timer
  summary : Timer

pub record View : Type 0 where
  pub props : Props
  pub phase : BatchPhase
  pub revealed_indices : List ℕ
  pub all_revealed : Bool
  pub show_summary : Bool
  pub scratch_promise : ScratchPromise
  pub waiters : List Waiter
  pub timers : List Timer
  pub scratch_calls : ℕ  -- how often onScratchAll was called

pub data Event : Type 0 where
  manual_reveal : ℕ → Event
  scratch_all : Event
  settle : Bool → Event
  fire : ℕ → Event
  receive : Props → Event

-- A Set of indexes: `has` and `add`.
abbrev pub has : ℕ → List ℕ → Bool
has i = any (λ j. j == i)

abbrev pub add : ℕ → List ℕ → List ℕ
add i s = if has i s then s else i ∷ s

abbrev pub can_scratch : Props → Bool
can_scratch p =
    ltb 0 (length p.scratchable_ticket_ids) && p.is_ready_to_scratch && not p.has_preparation_error

-- The effect on `[scratchableIdSet, ticketIds]`: the tickets from index `i` on.
abbrev pub mark : Props → ℕ → List Text → List ℕ → List ℕ
mark p i [] s = s
mark p i (id ∷ ids) s =
    mark p (suc i) ids (if has_text id p.scratchable_ticket_ids then s else add i s)

-- The timers of `handleScratchAll`.
abbrev pub schedule : Props → List ℕ → ℕ → List Text → List Timer
schedule p seen i [] = []
schedule p seen i (id ∷ ids) =
    let rest = schedule p seen (suc i) ids in
    if not (has_text id p.scratchable_ticket_ids) || has i seen then rest else reveal i ∷ rest

abbrev pub after_submitting : BatchPhase → BatchPhase
after_submitting submitting = ready
after_submitting phase = phase

abbrev pub nth_removed : ℕ → List Timer → List Timer
nth_removed n [] = []
nth_removed zero (t ∷ ts) = ts
nth_removed (suc n) (t ∷ ts) = t ∷ nth_removed n ts

abbrev pub fired : Option Timer → ℕ → View → View
fired none n v = v
fired (some (reveal i)) n v = record v {
  revealed_indices = add i v.revealed_indices;
  timers = nth_removed n v.timers;
}
fired (some summary) n v = record v { show_summary = true; timers = nth_removed n v.timers }

-- The view before its first effects.
abbrev pub blank : Props → View
blank p = record {
  props = p;
  phase = ready;
  revealed_indices = [];
  all_revealed = false;
  show_summary = false;
  scratch_promise = unset;
  waiters = [];
  timers = [];
  scratch_calls = 0;
}

module _ (ticket_ids : List Text) where
  abbrev pub is_scratchable_at : Props → ℕ → Bool
  is_scratchable_at p i = elim (get_elem? ticket_ids i) [
    | none ↦ false
    | some id ↦ has_text id p.scratchable_ticket_ids
  ]

  -- What follows the await once the answer is true.
  abbrev pub resume : Waiter → View → View
  resume (manual i) v = record v {
    phase = after_submitting v.phase;
    revealed_indices = add i v.revealed_indices;
  }
  resume (all p seen) v = record v {
    phase = animating;
    timers = v.timers ++ schedule p seen 0 ticket_ids;
  }

  abbrev pub resume_all : List Waiter → View → View
  resume_all [] v = v
  resume_all (w ∷ ws) v = resume_all ws (resume w v)

  abbrev pub submit_on : ScratchPromise → Waiter → View → View
  submit_on unset w v = record v {
    phase = submitting;
    scratch_promise = pending;
    waiters = v.waiters ++ w ∷ [];
    scratch_calls = suc v.scratch_calls;
  }
  submit_on pending w v = record v { waiters = v.waiters ++ w ∷ [] }
  submit_on done w v = resume w v

  -- A handler as far as `await submitScratchAllOnce()`, and past it where the answer is known.
  unfoldable pub submit_scratch_all_once : Waiter → View → View
  submit_scratch_all_once w v =
      if v.props.has_on_scratch_all then submit_on v.scratch_promise w v else resume w v

  unfoldable pub handle_manual_reveal : ℕ → View → View
  handle_manual_reveal i v =
      if can_scratch v.props && is_scratchable_at v.props i
      then submit_scratch_all_once (manual i) v
      else v

  unfoldable pub handle_scratch_all : View → View
  handle_scratch_all v =
      if can_scratch v.props then submit_scratch_all_once (all v.props v.revealed_indices) v else v

  -- The button is shown in two phases and enabled in one of them.
  abbrev pub button_enabled : View → Bool
  button_enabled v = elim v.phase [ ready ↦ not v.all_revealed | _ ↦ false ]

  abbrev pub settle_on : ScratchPromise → Bool → View → View
  settle_on pending true v =
      resume_all v.waiters (record v { scratch_promise = done; waiters = [] })
  settle_on pending false v = record v { phase = ready; scratch_promise = unset; waiters = [] }
  settle_on _ _ v = v

  abbrev pub mark_effect : View → View
  mark_effect v = record v { revealed_indices = mark v.props 0 ticket_ids v.revealed_indices }

  -- The effect that ends the reveal.
  abbrev pub finish_effect : View → View
  finish_effect v =
      if ltb 0 (length ticket_ids)
        && length v.revealed_indices == length ticket_ids
        && not v.all_revealed
      then record v { all_revealed = true; timers = v.timers ++ summary ∷ [] }
      else v

  unfoldable pub handle : View → Event → View
  unfolding handle_manual_reveal handle_scratch_all submit_scratch_all_once
  handle v (manual_reveal i) = handle_manual_reveal i v
  handle v scratch_all = if button_enabled v then handle_scratch_all v else v
  handle v (settle answer) = settle_on v.scratch_promise answer v
  handle v (fire n) = fired (get_elem? v.timers n) n v
  handle v (receive p) = mark_effect (record v { props = p })

  unfoldable pub step : View → Event → View
  unfolding handle
  step v e = finish_effect (handle v e)

  unfoldable pub mount : Props → View
  mount p = finish_effect (mark_effect (blank p))

  unfoldable pub run : View → List Event → View
  run v [] = v
  run v (e ∷ es) = run (step v e) es
