-- ===== src/Reveal/Batch/Keeps.antt =====
-- What no handler changes: only the effect ends the reveal, and only a timer shows the summary.
use lucky_scratch.Prelude.{
  ℕ, zero, suc, ◌≡◌, refl, ◌∙◌, Bool, true, false, ◌&&◌, ◌||◌, Option, some, none, List, [], ◌∷◌,
  ◌++◌, arith, get_elem?, any, if◌then◌else◌,
}
use lucky_scratch.Prelude.Texts.{Text}
use lucky_scratch.Reveal.Batch.{
  ScratchPromise, unset, pending, done, Props, Waiter, manual, all, Timer, reveal, summary, View,
  Event, manual_reveal, scratch_all, settle, fire, receive, schedule, nth_removed, fired,
  is_scratchable_at, resume, resume_all, submit_on, submit_scratch_all_once, handle_manual_reveal,
  handle_scratch_all, button_enabled, settle_on, handle, can_scratch,
}
use lucky_scratch.Reveal.Batch.Timers.{Grows}
use lucky_scratch.Reveal.Batch.Marks.{has-add_keeps, has-mark_keeps}

abbrev pub is_summary : Timer → Bool
is_summary summary = true
is_summary (reveal i) = false

abbrev pub has_summary : List Timer → Bool
has_summary = any is_summary

-- The summary is shown or a timer for it is set.
abbrev pub announced : View → Bool
announced v = v.show_summary || has_summary v.timers

pub has_summary-append :
    (ts us : List Timer) → has_summary (ts ++ us) ≡ (has_summary ts || has_summary us)
has_summary-append [] us = refl
has_summary-append (t ∷ ts) us = ground (arith, has_summary-append ts us)

has_summary-schedule :
    (p : Props) (s : List ℕ) (i : ℕ) (ids : List Text) → has_summary (schedule p s i ids) ≡ false
has_summary-schedule p s i [] = refl
has_summary-schedule p s i (id ∷ ids) = ground (arith, has_summary-schedule p s (suc i) ids)

has_summary-nth_removed :
    (n i : ℕ) (ts : List Timer)
    → get_elem? ts n ≡ some (reveal i)
    → has_summary (nth_removed n ts) ≡ has_summary ts
has_summary-nth_removed n i [] e = cc
has_summary-nth_removed zero i (t ∷ ts) e = ground arith
has_summary-nth_removed (suc n) i (t ∷ ts) e = ground (arith, has_summary-nth_removed n i ts e)

has_summary_at : (n : ℕ) (ts : List Timer) → get_elem? ts n ≡ some summary → has_summary ts ≡ true
has_summary_at n [] e = cc
has_summary_at zero (t ∷ ts) e = ground arith
has_summary_at (suc n) (t ∷ ts) e = ground (arith, has_summary_at n ts e)

-- A move that ends nothing.
pub record Keeps (v w : View) : Type 0 where
  pub same : w.all_revealed ≡ v.all_revealed
  pub told : announced w ≡ announced v
  pub grows : Grows v.revealed_indices w.revealed_indices

Keeps-refl : (v : View) → Keeps v v
Keeps-refl v = record { same = refl; told = refl; grows = λ j h. h }

Keeps-trans : (u v w : View) → Keeps u v → Keeps v w → Keeps u w
Keeps-trans u v w h k = record {
  same = k.same ∙ h.same;
  told = k.told ∙ h.told;
  grows = λ j x. k.grows j (h.grows j x);
}

module _ (ids : List Text) where
  resume-Keeps : (w : Waiter) (v : View) → Keeps v (resume ids w v)
  resume-Keeps (manual i) v = record {
    same = refl;
    told = refl;
    grows = λ j. has-add_keeps j i v.revealed_indices;
  }
  resume-Keeps (all p seen) v = record {
    same = refl;
    told = ground (
      arith,
      has_summary-append v.timers (schedule p seen 0 ids),
      has_summary-schedule p seen 0 ids,
    );
    grows = λ j h. h;
  }

  resume_all-Keeps : (ws : List Waiter) (v : View) → Keeps v (resume_all ids ws v)
  resume_all-Keeps [] v = Keeps-refl v
  resume_all-Keeps (w ∷ ws) v =
      Keeps-trans v (resume ids w v) (resume_all ids ws (resume ids w v)) (resume-Keeps w v)
        (resume_all-Keeps ws (resume ids w v))

  submit_on-Keeps : (x : ScratchPromise) (w : Waiter) (v : View) → Keeps v (submit_on ids x w v)
  submit_on-Keeps unset w v = record { same = refl; told = refl; grows = λ j h. h }
  submit_on-Keeps pending w v = record { same = refl; told = refl; grows = λ j h. h }
  submit_on-Keeps done w v = resume-Keeps w v

  either-Keeps : (b : Bool) (v w u : View) → Keeps v w → Keeps v u → Keeps v (if b then w else u)
  either-Keeps true v w u h k = h
  either-Keeps false v w u h k = k

  submit-Keeps : (w : Waiter) (v : View) → Keeps v (submit_scratch_all_once ids w v)
  unfolding submit_scratch_all_once
  submit-Keeps w v =
      either-Keeps v.props.has_on_scratch_all v (submit_on ids v.scratch_promise w v)
        (resume ids w v) (submit_on-Keeps v.scratch_promise w v) (resume-Keeps w v)

  settle-Keeps :
      (answer : Bool) (x : ScratchPromise) (v : View) → Keeps v (settle_on ids x answer v)
  settle-Keeps true pending v =
      let w : View = record v { scratch_promise = done; waiters = [] } in
      Keeps-trans v w (resume_all ids v.waiters w)
        (record { same = refl; told = refl; grows = λ j h. h }) (resume_all-Keeps v.waiters w)
  settle-Keeps false pending v = record { same = refl; told = refl; grows = λ j h. h }
  settle-Keeps answer unset v = Keeps-refl v
  settle-Keeps answer done v = Keeps-refl v

  fired-Keeps :
      (t : Option Timer) (n : ℕ) (v : View) → get_elem? v.timers n ≡ t → Keeps v (fired t n v)
  fired-Keeps none n v e = Keeps-refl v
  fired-Keeps (some (reveal i)) n v e = record {
    same = refl;
    told = ground (arith, has_summary-nth_removed n i v.timers e);
    grows = λ j. has-add_keeps j i v.revealed_indices;
  }
  fired-Keeps (some summary) n v e = record {
    same = refl;
    told = ground (arith, has_summary_at n v.timers e);
    grows = λ j h. h;
  }

  pub handle-Keeps : (v : View) (e : Event) → Keeps v (handle ids v e)
  unfolding handle handle_manual_reveal handle_scratch_all
  handle-Keeps v (manual_reveal i) =
      either-Keeps (can_scratch v.props && is_scratchable_at ids v.props i) v
        (submit_scratch_all_once ids (manual i) v) v (submit-Keeps (manual i) v) (Keeps-refl v)
  handle-Keeps v scratch_all =
      either-Keeps (button_enabled ids v) v (handle_scratch_all ids v) v
        (either-Keeps (can_scratch v.props) v
          (submit_scratch_all_once ids (all v.props v.revealed_indices) v) v
          (submit-Keeps (all v.props v.revealed_indices) v) (Keeps-refl v))
        (Keeps-refl v)
  handle-Keeps v (settle answer) = settle-Keeps answer v.scratch_promise v
  handle-Keeps v (fire n) = fired-Keeps (get_elem? v.timers n) n v refl
  handle-Keeps v (receive p) = record {
    same = refl;
    told = refl;
    grows = λ j. has-mark_keeps p j 0 ids v.revealed_indices;
  }
