-- ===== src/Purchase/Canvas/Laws.antt =====
-- How often a coating reports that it is scratched off.
use lucky_scratch.Prelude.{
  ℕ, ◌+◌, ◌≤◌, Bool, true, false, List, [], ◌∷◌, arith, sum_by, if◌then◌else◌,
}
use lucky_scratch.Purchase.Canvas.{
  Canvas, Event, coat, pointer_down, pointer_move, pointer_up, set_disabled, step, run, mount,
  check_progress,
}

abbrev pub is_coat : Event → Bool
is_coat (coat has_canvas) = true
is_coat _ = false

-- A report that may still come.
abbrev pub armed : Canvas → ℕ
armed c = if c.has_triggered then 0 else 1

abbrev pub coats : Event → ℕ
coats e = if is_coat e then 1 else 0

step-calls :
    (c : Canvas) (e : Event) → (step c e).calls + armed (step c e) ≤ c.calls + armed c + coats e
unfolding step check_progress
step-calls c (coat b) = ground arith
step-calls c pointer_down = ground arith
step-calls c (pointer_move pixels) = ground arith
step-calls c (pointer_up pixels) = ground arith
step-calls c (set_disabled b) = ground arith

run-calls :
    (c : Canvas) (es : List Event)
    → (run c es).calls + armed (run c es) ≤ c.calls + armed c + sum_by coats es
unfolding run
run-calls c [] = omega arith
run-calls c (e ∷ es) = omega (arith, step-calls c e, run-calls (step c e) es)

-- A coating reports at most once until it is drawn anew.
pub mount-calls :
    (threshold : ℕ) (disabled : Bool) (es : List Event)
    → (run (mount threshold disabled) es).calls ≤ 1 + sum_by coats es
unfolding mount
mount-calls threshold disabled es = omega (arith, run-calls (mount threshold disabled) es)
