-- ===== src/Purchase/Animation/Laws.antt =====
-- The end of the sequence: how often it is reported, and after how many reveals.
use lucky_scratch.Prelude.{
  ℕ, zero, suc, ◌+◌, ◌≤◌, ◌≡◌, ◌⊎◌, refl, Bool, true, false, Option, none, some, List, [], ◌∷◌,
  ◌++◌, arith, count_by, length, get_elem?, All, if◌then◌else◌,
}
use lucky_scratch.Prelude.Texts.{Text}
use lucky_scratch.Purchase.Animation.{
  RevealPhase, scratch, done, Timer, reveal, complete, View, Event, timeline_complete, rerender,
  threshold_reached, fire, add_text, nth_removed, fired, handle_scratch_threshold, is_rerender,
  depends, complete_effect, step, run, mount,
}

abbrev is_complete : Timer → Bool
is_complete complete = true
is_complete (reveal id) = false

-- The reports made and set.
abbrev reports : View → ℕ
reports v = v.completions + count_by is_complete v.timers

abbrev is_early : RevealPhase → Bool
is_early scratch = false
is_early done = false
is_early _ = true

abbrev IsUntouched : View → Type 0
IsUntouched v = (v.revealed_tickets ≡ []) × (v.timers ≡ []) × (v.completions ≡ 0)

count_by-snoc :
    (ts : List Timer) (t : Timer)
    → count_by is_complete (ts ++ t ∷ [])
      ≡ count_by is_complete ts + (if is_complete t then 1 else 0)
count_by-snoc [] t = ground arith
count_by-snoc (u ∷ ts) t = ground (arith, count_by-snoc ts t)

count_by-nth_removed :
    (n : ℕ) (ts : List Timer) (t : Timer)
    → get_elem? ts n ≡ some t
    → count_by is_complete (nth_removed n ts) + (if is_complete t then 1 else 0)
      ≡ count_by is_complete ts
count_by-nth_removed n [] t h = cc
count_by-nth_removed zero (u ∷ ts) t h = ground arith
count_by-nth_removed (suc n) (u ∷ ts) t h = ground (arith, count_by-nth_removed n ts t)

length-add_text :
    (id : Text) (s : List Text)
    → (length (add_text id s) ≡ length s) ⊎ (length (add_text id s) ≡ suc (length s))
length-add_text id s = ground arith

module _ (tickets : List Text) where
  pub record Inv (v : View) : Type 0 where
    pub early : is_early v.phase ≡ true → IsUntouched v
    pub once : reports v ≤ 1
    pub late : reports v ≡ 1 → length tickets ≤ length v.revealed_tickets

  timeline-Inv : (v : View) → Inv v → Inv (step tickets v timeline_complete)
  unfolding step complete_effect
  timeline-Inv v k = record {
    early = ground (arith, k.early);
    once = ground (arith, k.early, k.once, count_by-snoc v.timers complete);
    late = ground (arith, k.early, k.once, k.late, count_by-snoc v.timers complete);
  }

  threshold-Inv : (id : Text) (v : View) → Inv v → Inv (step tickets v (threshold_reached id))
  unfolding step complete_effect handle_scratch_threshold
  threshold-Inv id v k = record {
    early = ground (arith, k.early);
    once = ground (arith, k.early, k.once, count_by-snoc v.timers (reveal id));
    late = ground (arith, k.early, k.once, k.late, count_by-snoc v.timers (reveal id));
  }

  -- The effect after a timer has fired.
  fired-Inv :
      (n : ℕ) (v : View) (o : Option Timer)
      → get_elem? v.timers n ≡ o
      → Inv v
      → let w = fired o n v in
        Inv (if depends tickets v w (fire n) then complete_effect tickets w else w)
  unfolding complete_effect
  fired-Inv n v none h k = ground (arith, k)
  fired-Inv n v (some (reveal id)) h k =
      let fewer = count_by-nth_removed n v.timers (reveal id) h in
      let more = count_by-snoc (nth_removed n v.timers) complete in
      let grown = length-add_text id v.revealed_tickets in
      record {
        early = ground (arith, k.early);
        once = ground (arith, k.early, k.once, k.late, fewer, more, grown);
        late = ground (arith, k.early, k.once, k.late, fewer, more, grown);
      }
  fired-Inv n v (some complete) h k =
      let fewer = count_by-nth_removed n v.timers complete h in
      record {
        early = ground (arith, k.early);
        once = ground (arith, k.once, fewer);
        late = ground (arith, k.late, fewer);
      }

  abbrev pub KeepsProps : Event → Type 0
  KeepsProps e = is_rerender tickets e ≡ false

  step-Inv : (v : View) (e : Event) → KeepsProps e → Inv v → Inv (step tickets v e)
  unfolding step
  step-Inv v timeline_complete h k = timeline-Inv v k
  step-Inv v rerender h k = cc
  step-Inv v (threshold_reached id) h k = threshold-Inv id v k
  step-Inv v (fire n) h k = fired-Inv n v (get_elem? v.timers n) refl k

  run-Inv : (v : View) (es : List Event) → All KeepsProps es → Inv v → Inv (run tickets v es)
  unfolding run
  run-Inv v [] h k = k
  run-Inv v (e ∷ es) (h, hs) k = run-Inv (step tickets v e) es hs (step-Inv v e h k)

  mount-Inv : Inv mount
  mount-Inv = record { early = λ h. (refl, refl, refl); once = omega arith; late = omega arith }

  -- As long as no new onComplete or array of tickets comes, whatever the order of phases, strokes
  -- and timers, the reveal sequence calls onComplete at most once, and only with at least as many
  -- tickets revealed as were bought.
  pub complete_once :
      (es : List Event)
      → All KeepsProps es
      → let v = run tickets mount es in
        (v.completions ≤ 1) × ((v.completions ≡ 0) ⊎ (length tickets ≤ length v.revealed_tickets))
  complete_once es h =
      let k : Inv (run tickets mount es) = run-Inv mount es h mount-Inv in
      (omega (arith, k.once), ground (arith, k.once, k.late))
