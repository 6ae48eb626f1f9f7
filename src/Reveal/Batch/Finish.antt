-- ===== src/Reveal/Batch/Finish.antt =====
-- How a batch view comes to its summary.
use lucky_scratch.Prelude.{
  ℕ, zero, suc, ◌+◌, ◌≤◌, ◌<◌, ◌≡◌, refl, sym, ◌∙◌, Bool, true, false, not, ◌&&◌, Option, some,
  none, List, [], ◌∷◌, arith, length, ltb, ◌==◌, get_elem?, Bool-cases, inl, inr, length-append,
}
use lucky_scratch.Prelude.Texts.{Text}
use lucky_scratch.Reveal.Batch.{
  animating, Props, Timer, reveal, summary, View, Event, fire, has, fired, mark_effect,
  finish_effect, handle, step, mount, run, blank,
}
use lucky_scratch.Reveal.Batch.Marks.{has-IsMarks, length-full}
use lucky_scratch.Reveal.Batch.Answers.{Inv}
use lucky_scratch.Reveal.Batch.Laws.{handle-Inv, step-Inv, mount-Inv}
use lucky_scratch.Reveal.Batch.Keeps.{
  has_summary, announced, has_summary-append, Keeps, handle-Keeps,
}

abbrev pub fires : ℕ → List Event
fires zero = []
fires (suc k) = fire 0 ∷ fires k

module _ (ids : List Text) where
  -- The flag of the end tells whether every card is revealed and whether the summary is on its way.
  pub record End (v : View) : Type 0 where
    pub inv : Inv ids v
    pub told : announced v ≡ v.all_revealed
    pub full : v.all_revealed ≡ true → length v.revealed_indices ≡ length ids
    pub ended : 0 < length ids → length v.revealed_indices ≡ length ids → v.all_revealed ≡ true

  finish-End :
      (v : View)
      → Inv ids (finish_effect ids v)
      → announced v ≡ v.all_revealed
      → (v.all_revealed ≡ true → length v.revealed_indices ≡ length ids)
      → End (finish_effect ids v)
  finish-End v k told full =
      elim (Bool-cases
        (ltb 0 (length ids) && length v.revealed_indices == length ids && not v.all_revealed)) [
          | inr other ↦ record {
            inv = k;
            told = simp other told;
            full = simp other full;
            ended = simp other (λ h e. ground arith);
          }
          | inl last ↦ record {
            inv = k;
            told = simp last (ground (arith, has_summary-append v.timers (summary ∷ [])));
            full = simp last (λ h. ground arith);
            ended = simp last (λ h e. refl);
          }
        ]

  step-full :
      (v : View) (e : Event)
      → End v
      → (handle ids v e).all_revealed ≡ true
      → length (handle ids v e).revealed_indices ≡ length ids
  step-full v e k h =
      let w : View = handle ids v e in
      let keeps : Keeps v w = handle-Keeps ids v e in
      length-full (length ids) w.revealed_indices (Inv.marks (handle-Inv ids v e k.inv)) (λ i b.
        keeps.grows i (
          has-IsMarks (length ids) i v.revealed_indices k.inv.marks (k.full (sym keeps.same ∙ h))
            b))

  pub step-End : (v : View) (e : Event) → End v → End (step ids v e)
  unfolding step
  step-End v e k =
      let keeps : Keeps v (handle ids v e) = handle-Keeps ids v e in
      finish-End (handle ids v e) (step-Inv ids v e k.inv) (keeps.told ∙ k.told ∙ sym keeps.same)
        (step-full v e k)

  pub mount-End : (p : Props) → End (mount ids p)
  unfolding mount
  mount-End p = finish-End (mark_effect ids (blank p)) (mount-Inv ids p) refl (λ h. cc)

  pub run-End : (v : View) (es : List Event) → End v → End (run ids v es)
  unfolding run
  run-End v [] k = k
  run-End v (e ∷ es) k = run-End (step ids v e) es (step-End v e k)

  all_revealed_lem :
      (v : View)
      → End v
      → v.all_revealed ≡ true
      → (i : ℕ) → i < length ids
      → has i v.revealed_indices ≡ true
  all_revealed_lem v k h i b =
      has-IsMarks (length ids) i v.revealed_indices k.inv.marks (k.full h) b

  shown_lem : (v : View) → End v → v.show_summary ≡ true → v.all_revealed ≡ true
  shown_lem v k h = ground (arith, k.told)

  -- After any sequence of events from the mounting of the view, where the summary is shown every
  -- ticket of the batch is revealed.
  pub show_summary_lem :
      (p : Props) (es : List Event) (i : ℕ)
      → (run ids (mount ids p) es).show_summary ≡ true
      → i < length ids
      → has i (run ids (mount ids p) es).revealed_indices ≡ true
  show_summary_lem p es i h b =
      let v : View = run ids (mount ids p) es in
      let k : End v = run-End (mount ids p) es (mount-End p) in
      all_revealed_lem v k (shown_lem v k h) i b

  abbrev owed : Bool → ℕ
  owed true = 0
  owed false = 1

  -- A view without timers in which the reveal is animated has ended.
  spent_lem :
      (v : View)
      → End v
      → v.phase ≡ animating
      → 0 < length ids
      → v.timers ≡ []
      → v.all_revealed ≡ true
  spent_lem v k a b e = k.ended b (
      length-full (length ids) v.revealed_indices k.inv.marks (λ i h. elim (k.inv.covered a i h) [
        | inl seen ↦ seen
        | inr set ↦ absurd (cc (rw e at set))
      ]))

  finish-owed :
      (v : View)
      → length (finish_effect ids v).timers + owed (finish_effect ids v).all_revealed
        ≤ length v.timers + owed v.all_revealed
  finish-owed v =
      elim (Bool-cases
        (ltb 0 (length ids) && length v.revealed_indices == length ids && not v.all_revealed)) [
          | inr other ↦ simp other (omega arith)
          | inl last ↦ simp last (ground (arith, length-append v.timers (summary ∷ [])))
        ]

  fired-owed :
      (k : ℕ) (ts : List Timer) (v : View)
      → v.timers ≡ ts
      → (v.timers ≡ [] → v.all_revealed ≡ true)
      → length v.timers + owed v.all_revealed ≤ suc k
      → length (fired (get_elem? ts 0) 0 v).timers + owed (fired (get_elem? ts 0) 0 v).all_revealed
        ≤ k
  fired-owed k [] v e a h = ground (arith, a e)
  fired-owed k (reveal i ∷ ts) v e a h = ground arith
  fired-owed k (summary ∷ ts) v e a h = ground arith

  fired-phase : (t : Option Timer) (n : ℕ) (v : View) → (fired t n v).phase ≡ v.phase
  fired-phase none n v = refl
  fired-phase (some (reveal i)) n v = refl
  fired-phase (some summary) n v = refl

  finish-phase : (v : View) → (finish_effect ids v).phase ≡ v.phase
  finish-phase v = ground arith

  step_fire-phase : (v : View) → (step ids v (fire 0)).phase ≡ v.phase
  unfolding step handle
  step_fire-phase v = finish-phase (handle ids v (fire 0)) ∙ fired-phase (get_elem? v.timers 0) 0 v

  step_fire-owed :
      (k : ℕ) (v : View)
      → (v.timers ≡ [] → v.all_revealed ≡ true)
      → length v.timers + owed v.all_revealed ≤ suc k
      → length (step ids v (fire 0)).timers + owed (step ids v (fire 0)).all_revealed ≤ k
  unfolding step handle
  step_fire-owed k v a h =
      omega (arith, finish-owed (handle ids v (fire 0)), fired-owed k v.timers v refl a h)

  has_summary-nil : (ts : List Timer) → length ts ≤ 0 → has_summary ts ≡ false
  has_summary-nil [] h = refl
  has_summary-nil (t ∷ ts) h = absurd (omega arith)

  owed_le : (b : Bool) (n : ℕ) → n + owed b ≤ suc n
  owed_le true n = omega arith
  owed_le false n = omega arith

  drain_lem :
      (k : ℕ) (v : View)
      → End v
      → v.phase ≡ animating
      → 0 < length ids
      → length v.timers + owed v.all_revealed ≤ k
      → (run ids v (fires k)).show_summary ≡ true
  unfolding run
  drain_lem zero v e a b h = ground (arith, e.told, has_summary-nil v.timers)
  drain_lem (suc k) v e a b h =
      drain_lem k (step ids v (fire 0)) (step-End v (fire 0) e) (step_fire-phase v ∙ a) b
        (step_fire-owed k v (spent_lem v e a b) h)

  -- Once the reveal is animated, firing what is set shows the summary.
  pub animating_finishes :
      (p : Props) (es : List Event)
      → 0 < length ids
      → (run ids (mount ids p) es).phase ≡ animating
      → (run ids
          (run ids (mount ids p) es)
          (fires (suc (length (run ids (mount ids p) es).timers)))).show_summary
        ≡ true
  animating_finishes p es b a =
      let v : View = run ids (mount ids p) es in
      drain_lem (suc (length v.timers)) v (run-End (mount ids p) es (mount-End p)) a b
        (owed_le v.all_revealed (length v.timers))
