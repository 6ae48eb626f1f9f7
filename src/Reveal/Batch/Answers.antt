-- ===== src/Reveal/Batch/Answers.antt =====
-- What holds of the batch view between two events, and that a call and its answer keep it.
use lucky_scratch.Prelude.{
  ℕ, ◌<◌, ◌≡◌, inl, inr, Bool, true, false, List, [], ◌∷◌, ◌++◌, arith, length, All, All-append,
  Bool-cases,
}
use lucky_scratch.Prelude.Texts.{Text}
use lucky_scratch.Reveal.Batch.{
  animating, ScratchPromise, unset, pending, done, Waiter, manual, all, View, add, schedule, resume,
  resume_all, submit_on, submit_scratch_all_once, settle_on,
}
use lucky_scratch.Reveal.Batch.Timers.{
  IsMarked, Covered, Grows, IsTimer, IsMarked-add, Covered-Grows, Covered-right, schedule-IsTimer,
}
use lucky_scratch.Reveal.Batch.Marks.{IsMarks, add-IsMarks, has-add_keeps}

module _ (ids : List Text) where
  abbrev pub IsWaiter : List ℕ → Waiter → Type 0
  IsWaiter s (manual i) = i < length ids
  IsWaiter s (all p seen) = Covered (length ids) s (schedule p seen 0 ids)

  pub record Inv (v : View) : Type 0 where
    pub marks : IsMarks (length ids) v.revealed_indices
    pub marked : IsMarked v.props 0 ids v.revealed_indices
    pub waiting : All (IsWaiter v.revealed_indices) v.waiters
    pub covered : v.phase ≡ animating → Covered (length ids) v.revealed_indices v.timers
    pub timed : All (IsTimer (length ids)) v.timers

  IsWaiter-Grows : (s s' : List ℕ) (w : Waiter) → Grows s s' → IsWaiter s w → IsWaiter s' w
  IsWaiter-Grows s s' (manual i) g h = h
  IsWaiter-Grows s s' (all p seen) g h = Covered-Grows (length ids) s s' (schedule p seen 0 ids) g h

  pub waiting-Grows :
      (s s' : List ℕ) (ws : List Waiter) → Grows s s' → All (IsWaiter s) ws → All (IsWaiter s') ws
  waiting-Grows s s' [] g k = tt
  waiting-Grows s s' (w ∷ ws) g (h, k) = (IsWaiter-Grows s s' w g h, waiting-Grows s s' ws g k)

  -- What a resumed handler leaves.
  resume-Inv :
      (w : Waiter) (v : View) → IsWaiter v.revealed_indices w → Inv v → Inv (resume ids w v)
  resume-Inv (manual i) v h k = record {
    marks = add-IsMarks (length ids) i v.revealed_indices h k.marks;
    marked = IsMarked-add v.props 0 i ids v.revealed_indices k.marked;
    waiting =
        waiting-Grows v.revealed_indices (add i v.revealed_indices) v.waiters
          (λ j. has-add_keeps j i v.revealed_indices) k.waiting;
    covered = λ e.
        Covered-Grows (length ids) v.revealed_indices (add i v.revealed_indices) v.timers
          (λ j. has-add_keeps j i v.revealed_indices) (k.covered (ground arith));
    timed = k.timed;
  }
  resume-Inv (all p seen) v h k = record {
    marks = k.marks;
    marked = k.marked;
    waiting = k.waiting;
    covered = λ e. Covered-right (length ids) v.revealed_indices v.timers (schedule p seen 0 ids) h;
    timed =
        All-append (IsTimer (length ids)) v.timers (schedule p seen 0 ids) k.timed
          (schedule-IsTimer (length ids) p seen 0 ids (omega arith));
  }

  resume-Grows :
      (w : Waiter) (v : View) → Grows v.revealed_indices (resume ids w v).revealed_indices
  resume-Grows (manual i) v j h = has-add_keeps j i v.revealed_indices h
  resume-Grows (all p seen) v j h = h

  resume_all-Inv :
      (ws : List Waiter) (v : View)
      → All (IsWaiter v.revealed_indices) ws
      → Inv v
      → Inv (resume_all ids ws v)
  resume_all-Inv [] v h k = k
  resume_all-Inv (w ∷ ws) v (h, hs) k =
      resume_all-Inv ws (resume ids w v)
        (waiting-Grows v.revealed_indices (resume ids w v).revealed_indices ws (resume-Grows w v)
          hs)
        (resume-Inv w v h k)

  pub submit-Inv :
      (w : Waiter) (v : View)
      → IsWaiter v.revealed_indices w
      → Inv v
      → Inv (submit_scratch_all_once ids w v)
  unfolding submit_scratch_all_once
  submit-Inv w v h k = elim (Bool-cases v.props.has_on_scratch_all) [
    | inr missing ↦ simp missing (resume-Inv w v h k)
    | inl given ↦ simp given (on v.scratch_promise)
  ]
    where
      queued : All (IsWaiter v.revealed_indices) (v.waiters ++ w ∷ [])
      queued = All-append (IsWaiter v.revealed_indices) v.waiters (w ∷ []) k.waiting (h, tt)

      on : (x : ScratchPromise) → Inv (submit_on ids x w v)
      on unset = record {
        marks = k.marks;
        marked = k.marked;
        waiting = queued;
        covered = λ e. cc;
        timed = k.timed;
      }
      on pending = record {
        marks = k.marks;
        marked = k.marked;
        waiting = queued;
        covered = k.covered;
        timed = k.timed;
      }
      on done = resume-Inv w v h k

  pub settle-Inv :
      (answer : Bool) (x : ScratchPromise) (v : View) → Inv v → Inv (settle_on ids x answer v)
  settle-Inv true pending v k =
      resume_all-Inv v.waiters (record v { scratch_promise = done; waiters = [] }) k.waiting
        (record {
          marks = k.marks;
          marked = k.marked;
          waiting = tt;
          covered = k.covered;
          timed = k.timed;
        })
  settle-Inv false pending v k = record {
    marks = k.marks;
    marked = k.marked;
    waiting = tt;
    covered = λ b. cc;
    timed = k.timed;
  }
  settle-Inv answer unset v k = k
  settle-Inv answer done v k = k
