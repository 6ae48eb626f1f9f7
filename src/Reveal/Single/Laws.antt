-- ===== src/Reveal/Single/Laws.antt =====
-- A ticket that stays to be scratched is scratched once, and revealed after that.
use lucky_scratch.Prelude.{
  ℕ, ◌+◌, ◌≤◌, ◌≡◌, Bool, true, false, Option, List, [], ◌∷◌, arith, All, Bool-cases, inl, inr, ◌⊎◌,
  ◌≢◌,
}
use lucky_scratch.Reveal.Canvas.{reaches_threshold, calculate_progress}
use lucky_scratch.Reveal.Single.{
  revealed, Props, View, Event, pointer_down, pointer_move, pointer_up, settle, fire, receive, coat,
  complete_scratch, check_progress, settled, step, mount, run,
}

pub record Inv (v : View) : Type 0 where
  pub to_scratch : v.props.is_scratchable ≡ true
  pub once : v.in_flight + v.succeeded ≤ 1
  pub armed : v.has_triggered ≡ false → v.in_flight + v.succeeded ≡ 0
  pub timed : v.timers ≤ v.succeeded
  pub shown : v.phase ≡ revealed → v.succeeded ≡ 1

abbrev pub KeepsScratchable : Event → Type 0
KeepsScratchable (receive p) = p.is_scratchable ≡ true
KeepsScratchable _ = Unit

check_progress-Inv : (pixels : Option (List ℕ)) (v : View) → Inv v → Inv (check_progress pixels v)
unfolding check_progress complete_scratch
check_progress-Inv pixels v k = elim (Bool-cases v.has_triggered) [
  | inl done ↦ ground arith
  | inr armed ↦ elim (Bool-cases (reaches_threshold (calculate_progress pixels))) [
    | inl enough ↦ ground arith
    | inr little ↦ ground arith
  ]
]

step-Inv :
    (has_canvas : Bool) (v : View) (e : Event)
    → KeepsScratchable e
    → Inv v
    → Inv (step has_canvas v e)
unfolding step settled
step-Inv c v pointer_down h k = ground arith
step-Inv c v (pointer_move pixels) h k = ground (arith, check_progress-Inv pixels v k)
step-Inv c v (pointer_up pixels) h k =
    check_progress-Inv pixels (record v { is_drawing = false }) (ground arith)
step-Inv c v (settle true) h k = ground arith
step-Inv c v (settle false) h k = ground arith
step-Inv c v fire h k = ground arith
step-Inv c v (receive p) h k = ground arith

mount-Inv : (has_canvas : Bool) (p : Props) → p.is_scratchable ≡ true → Inv (mount has_canvas p)
unfolding mount coat
mount-Inv c p h = ground arith

pub run-Inv :
    (has_canvas : Bool) (v : View) (es : List Event)
    → All KeepsScratchable es
    → Inv v
    → Inv (run has_canvas v es)
unfolding run
run-Inv c v [] h k = k
run-Inv c v (e ∷ es) (h, hs) k = run-Inv c (step c v e) es hs (step-Inv c v e h k)

shown-or : (v : View) → Inv v → (v.succeeded ≡ 1) ⊎ (v.phase ≢ revealed)
shown-or v k = ground arith

-- Where a view of one ticket is mounted for a ticket to be scratched and stays so, after any
-- sequence of strokes, answers, timers and new properties at most one call of the scratch is in
-- flight or has succeeded, and the ticket shows as revealed only after one has succeeded.
pub run_once :
    (has_canvas : Bool) (p : Props) (es : List Event)
    → p.is_scratchable ≡ true
    → All KeepsScratchable es
    → let v = run has_canvas (mount has_canvas p) es in
      (v.in_flight + v.succeeded ≤ 1) × ((v.succeeded ≡ 1) ⊎ (v.phase ≢ revealed))
run_once c p es s h =
    let k : Inv (run c (mount c p) es) = run-Inv c (mount c p) es h (mount-Inv c p s) in
    (k.once, shown-or (run c (mount c p) es) k)
