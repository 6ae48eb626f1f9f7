-- ===== src/Reveal/Batch/Shut.antt =====
-- The cards that stay covered until the scratch has succeeded.
use lucky_scratch.Prelude.{
  ℕ, zero, suc, ◌+◌, ◌<◌, ◌≡◌, refl, ◌∙◌, Bool, true, false, not, ◌&&◌, Option, some, none, List,
  [], ◌∷◌, ◌++◌, arith, length, ltb, ◌==◌, get_elem?, All, Bool-cases, if◌then◌else◌, inl, inr, ◌⊎◌,
}
use lucky_scratch.Prelude.Texts.{Text}
use lucky_scratch.Scratch.{has_text}
use lucky_scratch.Reveal.Batch.{
  ScratchPromise, unset, pending, done, Props, Waiter, manual, all, Timer, reveal, summary, View,
  Event, manual_reveal, scratch_all, settle, fire, receive, has, add, mark, nth_removed, fired,
  is_scratchable_at, resume, resume_all, submit_on, submit_scratch_all_once, handle_manual_reveal,
  handle_scratch_all, button_enabled, settle_on, mark_effect, finish_effect, handle, step, mount,
  run, can_scratch, blank,
}
use lucky_scratch.Reveal.Batch.Timers.{awaits, awaits-append}
use lucky_scratch.Reveal.Batch.Once.{resume-same, resume_all-done}

module _ (ids : List Text) where
  -- A ticket that can be scratched and that is not revealed, nor about to be.
  abbrev pub IsOpen : ℕ → Props → Type 0
  IsOpen i p = (is_scratchable_at ids p i ≡ true) × (p.has_on_scratch_all ≡ true)

  abbrev IsHidden : ℕ → View → Type 0
  IsHidden i v = (has i v.revealed_indices ≡ false) × (awaits i v.timers ≡ false)

  abbrev IsShut : ℕ → View → Type 0
  IsShut i v = IsOpen i v.props × ((v.scratch_promise ≡ done) ⊎ IsHidden i v)

  -- The properties that an event brings leave the ticket to be scratched.
  abbrev pub KeepsOpen : ℕ → Event → Type 0
  KeepsOpen i (receive p) = IsOpen i p
  KeepsOpen i _ = Unit

  mark-below :
      (p : Props) (j k : ℕ) (ts : List Text) (s : List ℕ)
      → j < k
      → has j s ≡ false
      → has j (mark p k ts s) ≡ false
  mark-below p j k [] s h m = m
  mark-below p j k (t ∷ ts) s h m =
      mark-below p j (suc k) ts (if has_text t p.scratchable_ticket_ids then s else add k s)
        (omega arith) (ground arith)

  mark-hidden :
      (p : Props) (j i k : ℕ) (ts : List Text) (s : List ℕ)
      → j ≡ k + i
      → is_scratchable_at ts p i ≡ true
      → has j s ≡ false
      → has j (mark p k ts s) ≡ false
  mark-hidden p j i k [] s e h m = m
  mark-hidden p j zero k (t ∷ ts) s e h m = rw h (mark-below p j (suc k) ts s (omega arith) m)
  mark-hidden p j (suc i) k (t ∷ ts) s e h m =
      mark-hidden p j i (suc k) ts (if has_text t p.scratchable_ticket_ids then s else add k s)
        (omega arith) h (ground arith)

  awaits-kept :
      (i n : ℕ) (ts : List Timer) → awaits i ts ≡ false → awaits i (nth_removed n ts) ≡ false
  awaits-kept i n [] h = refl
  awaits-kept i zero (t ∷ ts) h = ground arith
  awaits-kept i (suc n) (t ∷ ts) h = ground (arith, awaits-kept i n ts)

  awaits-other :
      (i n j : ℕ) (ts : List Timer)
      → get_elem? ts n ≡ some (reveal j)
      → awaits i ts ≡ false
      → (j == i) ≡ false
  awaits-other i n j [] e h = cc
  awaits-other i zero j (t ∷ ts) e h = ground arith
  awaits-other i (suc n) j (t ∷ ts) e h = ground (arith, awaits-other i n j ts e)

  fired-IsShut :
      (i n : ℕ) (t : Option Timer) (v : View)
      → get_elem? v.timers n ≡ t
      → IsShut i v
      → IsShut i (fired t n v)
  fired-IsShut i n none v e k = k
  fired-IsShut i n (some (reveal j)) v e (o, inl d) = (o, inl d)
  fired-IsShut i n (some (reveal j)) v e (o, inr (a, b)) =
      (o, inr (ground (arith, awaits-other i n j v.timers e b), awaits-kept i n v.timers b))
  fired-IsShut i n (some summary) v e (o, inl d) = (o, inl d)
  fired-IsShut i n (some summary) v e (o, inr (a, b)) = (o, inr (a, awaits-kept i n v.timers b))

  resume-props : (w : Waiter) (v : View) → (resume ids w v).props ≡ v.props
  resume-props (manual i) v = refl
  resume-props (all p seen) v = refl

  resume_all-props : (ws : List Waiter) (v : View) → (resume_all ids ws v).props ≡ v.props
  resume_all-props [] v = refl
  resume_all-props (w ∷ ws) v = resume_all-props ws (resume ids w v) ∙ resume-props w v

  submit-IsShut :
      (i : ℕ) (w : Waiter) (v : View) → IsShut i v → IsShut i (submit_scratch_all_once ids w v)
  unfolding submit_scratch_all_once
  submit-IsShut i w v (o, k) = simp (o.1) (on v.scratch_promise refl)
    where
      on : (x : ScratchPromise) → v.scratch_promise ≡ x → IsShut i (submit_on ids x w v)
      on unset e = (o, inr (ground arith))
      on pending e = (o, k)
      on done e = (rw (resume-props w v) o, inl ((resume-same ids w v).0 ∙ e))

  settle-IsShut :
      (i : ℕ) (answer : Bool) (x : ScratchPromise) (v : View)
      → v.scratch_promise ≡ x
      → IsShut i v
      → IsShut i (settle_on ids x answer v)
  settle-IsShut i true pending v e (o, k) =
      let w : View = record v { scratch_promise = done; waiters = [] } in
      (rw (resume_all-props v.waiters w) o, inl (resume_all-done ids v.waiters w refl))
  settle-IsShut i false pending v e (o, inl d) = cc
  settle-IsShut i false pending v e (o, inr k) = (o, inr k)
  settle-IsShut i answer unset v e k = k
  settle-IsShut i answer done v e k = k

  handle-IsShut :
      (i : ℕ) (v : View) (e : Event) → KeepsOpen i e → IsShut i v → IsShut i (handle ids v e)
  unfolding handle handle_manual_reveal handle_scratch_all
  handle-IsShut i v (manual_reveal j) h k =
      elim (Bool-cases (can_scratch v.props && is_scratchable_at ids v.props j)) [
        | inr refused ↦ rw refused k
        | inl taken ↦ rw taken (submit-IsShut i (manual j) v k)
      ]
  handle-IsShut i v scratch_all h k = elim (Bool-cases (button_enabled ids v)) [
    | inr off ↦ rw off k
    | inl on ↦ elim (Bool-cases (can_scratch v.props)) [
      | inr refused ↦ rw (on, refused) k
      | inl taken ↦ rw (on, taken) (submit-IsShut i (all v.props v.revealed_indices) v k)
    ]
  ]
  handle-IsShut i v (settle answer) h k = settle-IsShut i answer v.scratch_promise v refl k
  handle-IsShut i v (fire n) h k = fired-IsShut i n (get_elem? v.timers n) v refl k
  handle-IsShut i v (receive p) h (o, inl d) = (h, inl d)
  handle-IsShut i v (receive p) h (o, inr (a, b)) =
      (h, inr (mark-hidden p i i 0 ids v.revealed_indices (omega arith) h.0 a, b))

  finish-IsShut : (i : ℕ) (v : View) → IsShut i v → IsShut i (finish_effect ids v)
  finish-IsShut i v k =
      elim (Bool-cases
        (ltb 0 (length ids) && length v.revealed_indices == length ids && not v.all_revealed)) [
          | inr other ↦ simp other k
          | inl last ↦ simp last (k.0, told k.1)
        ]
    where
      told :
          (v.scratch_promise ≡ done) ⊎ IsHidden i v
          → (v.scratch_promise ≡ done)
            ⊎ ((has i v.revealed_indices ≡ false) × (awaits i (v.timers ++ summary ∷ []) ≡ false))
      told (inl d) = inl d
      told (inr (a, b)) = inr (a, ground (arith, awaits-append i v.timers (summary ∷ [])))

  run-IsShut :
      (i : ℕ) (v : View) (es : List Event)
      → All (KeepsOpen i) es
      → IsShut i v
      → IsShut i (run ids v es)
  unfolding run step
  run-IsShut i v [] h k = k
  run-IsShut i v (e ∷ es) (h, hs) k =
      run-IsShut i (step ids v e) es hs (finish-IsShut i (handle ids v e) (handle-IsShut i v e h k))

  -- Whatever the user does and in whatever order timers and answers come, as long as every change
  -- of the properties leaves a ticket among those to be scratched and the callback given, that
  -- ticket is revealed only once the scratch of the batch has succeeded.
  pub reveal_needs_scratch :
      (i : ℕ) (p : Props) (es : List Event)
      → IsOpen i p
      → All (KeepsOpen i) es
      → has i (run ids (mount ids p) es).revealed_indices ≡ true
      → (run ids (mount ids p) es).scratch_promise ≡ done
  unfolding mount
  reveal_needs_scratch i p es o h seen =
      elim (run-IsShut i (mount ids p) es h (
        finish-IsShut i (mark_effect ids (blank p))
          (o, inr (mark-hidden p i i 0 ids [] (omega arith) o.0 refl, refl)))).1 [
            | inl d ↦ d
            | inr hidden ↦ cc
          ]
