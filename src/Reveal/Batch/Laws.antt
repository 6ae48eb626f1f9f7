-- ===== src/Reveal/Batch/Laws.antt =====
-- Every event keeps what holds of the batch view.
use lucky_scratch.Prelude.{
  ℕ, zero, suc, ◌<◌, ◌≡◌, ◌≢◌, refl, inl, inr, true, not, ◌&&◌, Option, some, none, List, [], ◌∷◌,
  arith, length, ltb, ◌==◌, get_elem?, All-append, Bool-cases,
}
use lucky_scratch.Prelude.Texts.{Text}
use lucky_scratch.Reveal.Batch.{
  Props, manual, all, Timer, reveal, summary, View, Event, manual_reveal, scratch_all, settle, fire,
  receive, add, mark, fired, is_scratchable_at, handle_manual_reveal, handle_scratch_all,
  button_enabled, mark_effect, finish_effect, handle, step, mount, run, can_scratch, blank,
}
use lucky_scratch.Reveal.Batch.Timers.{
  Grows, IsTimer, mark-IsMarked, IsMarked-add, schedule_covers, Covered-Grows, Covered-left,
  Covered-reveal, Covered-summary, All-nth_removed, All-get_elem?,
}
use lucky_scratch.Reveal.Batch.Marks.{add-IsMarks, has-add_keeps, mark-IsMarks, has-mark_keeps}
use lucky_scratch.Reveal.Batch.Answers.{Inv, submit-Inv, settle-Inv, waiting-Grows}

module _ (ids : List Text) where
  get_elem?-bound : (i : ℕ) (ts : List Text) → get_elem? ts i ≢ none → i < length ts
  get_elem?-bound i [] h = absurd (h refl)
  get_elem?-bound zero (t ∷ ts) h = omega arith
  get_elem?-bound (suc i) (t ∷ ts) h = omega (arith, get_elem?-bound i ts h)

  is_scratchable_at-bound : (p : Props) (i : ℕ) → is_scratchable_at ids p i ≡ true → i < length ids
  is_scratchable_at-bound p i h = get_elem?-bound i ids (λ e. cc (rw (is_scratchable_at, e) at h))

  handle_manual_reveal-Inv : (i : ℕ) (v : View) → Inv ids v → Inv ids (handle_manual_reveal ids i v)
  unfolding handle_manual_reveal
  handle_manual_reveal-Inv i v k =
      elim (Bool-cases (can_scratch v.props && is_scratchable_at ids v.props i)) [
        | inr refused ↦ rw refused k
        | inl taken ↦
            rw taken
              (submit-Inv ids (manual i) v (is_scratchable_at-bound v.props i (ground arith)) k)
      ]

  handle_scratch_all-Inv : (v : View) → Inv ids v → Inv ids (handle_scratch_all ids v)
  unfolding handle_scratch_all
  handle_scratch_all-Inv v k = elim (Bool-cases (can_scratch v.props)) [
    | inr refused ↦ rw refused k
    | inl taken ↦ rw taken (
        submit-Inv ids (all v.props v.revealed_indices) v
          (λ j h.
            schedule_covers v.props 0 j ids v.revealed_indices k.marked (omega arith)
              (omega (arith, h)))
          k)
  ]

  fire-Inv : (n : ℕ) (v : View) → Inv ids v → Inv ids (fired (get_elem? v.timers n) n v)
  fire-Inv n v k = at (get_elem? v.timers n) refl
    where
      at : (t : Option Timer) → get_elem? v.timers n ≡ t → Inv ids (fired t n v)
      at none e = k
      at (some (reveal i)) e = record {
        marks =
            add-IsMarks (length ids) i v.revealed_indices
              (All-get_elem? (length ids) n i v.timers e k.timed) k.marks;
        marked = IsMarked-add v.props 0 i ids v.revealed_indices k.marked;
        waiting =
            waiting-Grows ids v.revealed_indices (add i v.revealed_indices) v.waiters
              (λ j. has-add_keeps j i v.revealed_indices) k.waiting;
        covered = λ a. Covered-reveal (length ids) n i v.revealed_indices v.timers e (k.covered a);
        timed = All-nth_removed (length ids) n v.timers k.timed;
      }
      at (some summary) e = record {
        marks = k.marks;
        marked = k.marked;
        waiting = k.waiting;
        covered = λ a. Covered-summary (length ids) n v.revealed_indices v.timers e (k.covered a);
        timed = All-nth_removed (length ids) n v.timers k.timed;
      }

  receive-Inv :
      (p : Props) (v : View) → Inv ids v → Inv ids (mark_effect ids (record v { props = p }))
  receive-Inv p v k =
      let grows : Grows v.revealed_indices (mark p 0 ids v.revealed_indices) =
        λ j. has-mark_keeps p j 0 ids v.revealed_indices in
      record {
        marks = mark-IsMarks (length ids) p 0 ids v.revealed_indices (omega arith) k.marks;
        marked = mark-IsMarked p 0 ids v.revealed_indices;
        waiting =
            waiting-Grows ids v.revealed_indices (mark p 0 ids v.revealed_indices) v.waiters grows
              k.waiting;
        covered = λ a.
            Covered-Grows (length ids) v.revealed_indices (mark p 0 ids v.revealed_indices) v.timers
              grows (k.covered a);
        timed = k.timed;
      }

  finish-Inv : (v : View) → Inv ids v → Inv ids (finish_effect ids v)
  finish-Inv v k =
      elim (Bool-cases
        (ltb 0 (length ids) && length v.revealed_indices == length ids && not v.all_revealed)) [
          | inr other ↦ simp other k
          | inl last ↦ simp last (record {
            marks = k.marks;
            marked = k.marked;
            waiting = k.waiting;
            covered = λ a.
                Covered-left (length ids) v.revealed_indices v.timers (summary ∷ []) (k.covered a);
            timed = All-append (IsTimer (length ids)) v.timers (summary ∷ []) k.timed (tt, tt);
          })
        ]

  pub handle-Inv : (v : View) (e : Event) → Inv ids v → Inv ids (handle ids v e)
  unfolding handle
  handle-Inv v (manual_reveal i) k = handle_manual_reveal-Inv i v k
  handle-Inv v scratch_all k = elim (Bool-cases (button_enabled ids v)) [
    | inl on ↦ rw on (handle_scratch_all-Inv v k)
    | inr off ↦ rw off k
  ]
  handle-Inv v (settle answer) k = settle-Inv ids answer v.scratch_promise v k
  handle-Inv v (fire n) k = fire-Inv n v k
  handle-Inv v (receive p) k = receive-Inv p v k

  pub step-Inv : (v : View) (e : Event) → Inv ids v → Inv ids (step ids v e)
  unfolding step
  step-Inv v e k = finish-Inv (handle ids v e) (handle-Inv v e k)

  pub mount-Inv : (p : Props) → Inv ids (mount ids p)
  unfolding mount
  mount-Inv p = finish-Inv (mark_effect ids (blank p)) (record {
    marks = mark-IsMarks (length ids) p 0 ids [] (omega arith) tt;
    marked = mark-IsMarked p 0 ids [];
    waiting = tt;
    covered = λ a. cc;
    timed = tt;
  })

  pub run-Inv : (v : View) (es : List Event) → Inv ids v → Inv ids (run ids v es)
  unfolding run
  run-Inv v [] k = k
  run-Inv v (e ∷ es) k = run-Inv (step ids v e) es (step-Inv v e k)
