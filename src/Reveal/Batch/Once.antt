-- ===== src/Reveal/Batch/Once.antt =====
-- The one call of onScratchAll that succeeds, and what waits for it.
use lucky_scratch.Prelude.{
  ℕ, ◌≡◌, refl, ◌∙◌, ◌&&◌, Option, some, none, List, [], ◌∷◌, arith, get_elem?, Bool-cases, inl,
  inr,
}
use lucky_scratch.Prelude.Texts.{Text}
use lucky_scratch.Reveal.Batch.{
  done, Waiter, manual, all, Timer, reveal, summary, View, Event, manual_reveal, scratch_all,
  settle, fire, receive, fired, is_scratchable_at, resume, resume_all, submit_scratch_all_once,
  handle_manual_reveal, handle_scratch_all, button_enabled, finish_effect, handle, step, run,
  can_scratch,
}

-- The promise that holds true is kept, with the number of calls.
abbrev IsSpent : ℕ → View → Type 0
IsSpent n v = (v.scratch_promise ≡ done) × (v.scratch_calls ≡ n)

module _ (ids : List Text) where
  pub resume-same :
      (w : Waiter) (v : View)
      → ((resume ids w v).scratch_promise ≡ v.scratch_promise)
        × ((resume ids w v).scratch_calls ≡ v.scratch_calls)
  resume-same (manual i) v = (refl, refl)
  resume-same (all p seen) v = (refl, refl)

  resume-IsSpent : (n : ℕ) (w : Waiter) (v : View) → IsSpent n v → IsSpent n (resume ids w v)
  resume-IsSpent n w v (d, c) = let (same, calls) = resume-same w v in (same ∙ d, calls ∙ c)

  pub resume_all-done :
      (ws : List Waiter) (v : View)
      → v.scratch_promise ≡ done
      → (resume_all ids ws v).scratch_promise ≡ done
  resume_all-done [] v h = h
  resume_all-done (w ∷ ws) v h = resume_all-done ws (resume ids w v) ((resume-same w v).0 ∙ h)

  submit-IsSpent :
      (n : ℕ) (w : Waiter) (v : View) → IsSpent n v → IsSpent n (submit_scratch_all_once ids w v)
  unfolding submit_scratch_all_once
  submit-IsSpent n w v k = elim (Bool-cases v.props.has_on_scratch_all) [
    | inl given ↦ simp (given, k.0) (resume-IsSpent n w v k)
    | inr missing ↦ simp missing (resume-IsSpent n w v k)
  ]

  fired-same :
      (t : Option Timer) (n : ℕ) (v : View)
      → ((fired t n v).scratch_promise ≡ v.scratch_promise)
        × ((fired t n v).scratch_calls ≡ v.scratch_calls)
  fired-same none n v = (refl, refl)
  fired-same (some (reveal i)) n v = (refl, refl)
  fired-same (some summary) n v = (refl, refl)

  handle-IsSpent : (n : ℕ) (v : View) (e : Event) → IsSpent n v → IsSpent n (handle ids v e)
  unfolding handle handle_manual_reveal handle_scratch_all
  handle-IsSpent n v (manual_reveal i) k =
      elim (Bool-cases (can_scratch v.props && is_scratchable_at ids v.props i)) [
        | inr refused ↦ rw refused k
        | inl taken ↦ rw taken (submit-IsSpent n (manual i) v k)
      ]
  handle-IsSpent n v scratch_all k =
      elim (Bool-cases (button_enabled ids v && can_scratch v.props)) [
        | inr refused ↦ ground arith
        | inl taken ↦ ground (arith, submit-IsSpent n (all v.props v.revealed_indices) v k)
      ]
  handle-IsSpent n v (settle answer) k = ground arith
  handle-IsSpent n v (fire m) (d, c) =
      let (same, calls) = fired-same (get_elem? v.timers m) m v in (same ∙ d, calls ∙ c)
  handle-IsSpent n v (receive p) k = k

  finish-IsSpent : (n : ℕ) (v : View) → IsSpent n v → IsSpent n (finish_effect ids v)
  finish-IsSpent n v k = ground arith

  step-IsSpent : (n : ℕ) (v : View) (e : Event) → IsSpent n v → IsSpent n (step ids v e)
  unfolding step
  step-IsSpent n v e k = finish-IsSpent n (handle ids v e) (handle-IsSpent n v e k)

  run-IsSpent : (n : ℕ) (v : View) (es : List Event) → IsSpent n v → IsSpent n (run ids v es)
  unfolding run
  run-IsSpent n v [] k = k
  run-IsSpent n v (e ∷ es) k = run-IsSpent n (step ids v e) es (step-IsSpent n v e k)

  -- Once the scratch of the batch has succeeded, no sequence of events calls the page's callback
  -- again, and the promise stays settled.
  pub scratch_once :
      (v : View) (es : List Event)
      → v.scratch_promise ≡ done
      → ((run ids v es).scratch_promise ≡ done) × ((run ids v es).scratch_calls ≡ v.scratch_calls)
  scratch_once v es h = run-IsSpent v.scratch_calls v es (h, refl)
