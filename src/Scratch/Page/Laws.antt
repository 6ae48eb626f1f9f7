-- ===== src/Scratch/Page/Laws.antt =====
-- How often a preparation starts.
use lucky_scratch.Prelude.{
  ℕ, suc, ◌+◌, ◌≡◌, refl, ap, ◌∙◌, ◌↔◌, true, false, none, some, [], ◌∷◌, ◌++◌, arith, Bool-cases,
  inl, inr,
}
use lucky_scratch.Prelude.Texts.{Text, text_eq, text_eq_refl}
use lucky_scratch.Scratch.Page.{
  Inputs, Page, Verdict, stop, report, go, prepare_guard, effect_guard, start, run_key_of,
  prepare_effect, retry_prepare_scratch_results,
}

-- The effect and the preparation go on under the same conditions.
pub effect_guard-go : (i : Inputs) → (effect_guard i ≡ go) ↔ (prepare_guard i ≡ go)
unfolding effect_guard prepare_guard
effect_guard-go i = ground arith

start-go :
    (i : Inputs) (page : Page)
    → prepare_guard i ≡ go
    → start i page ≡ record page { prepare_error = none; started = suc page.started }
unfolding start
start-go i page h = rw h refl

text_eq_nil-append : (s t : Text) (c : ℕ) → text_eq [] (s ++ c ∷ t) ≡ false
text_eq_nil-append [] t c = refl
text_eq_nil-append (d ∷ s) t c = refl

prepare_effect-go :
    (i : Inputs) (page : Page)
    → effect_guard i ≡ go
    → text_eq page.run_key (run_key_of i) ≡ false
    → prepare_effect i page
      ≡ record page { prepare_error = none; run_key = run_key_of i; started = suc page.started }
unfolding prepare_effect
prepare_effect-go i page h new =
    simp (h, new) (start-go i (record page { run_key = run_key_of i }) ((effect_guard-go i).0 h))

prepare_effect-same :
    (i : Inputs) (page : Page)
    → effect_guard i ≡ go
    → text_eq page.run_key (run_key_of i) ≡ true
    → prepare_effect i page ≡ page
unfolding prepare_effect
prepare_effect-same i page h old = simp (h, old) refl

prepare_effect-stop :
    (i : Inputs) (page : Page) → effect_guard i ≡ stop → prepare_effect i page ≡ page
unfolding prepare_effect
prepare_effect-stop i page h = rw h refl

prepare_effect-report :
    (i : Inputs) (page : Page) (message : Text)
    → effect_guard i ≡ report message
    → prepare_effect i page ≡ record page { prepare_error = some message }
unfolding prepare_effect
prepare_effect-report i page message h = rw h refl

-- With the same inputs the effect starts nothing again.
pub prepare_effect_idem :
    (i : Inputs) (page : Page) → prepare_effect i (prepare_effect i page) ≡ prepare_effect i page
prepare_effect_idem i page = at (effect_guard i) refl
  where
    at :
        (x : Verdict)
        → effect_guard i ≡ x
        → prepare_effect i (prepare_effect i page) ≡ prepare_effect i page
    at stop h = rw (prepare_effect-stop i page h) (prepare_effect-stop i page h)
    at (report m) h =
        rw
          (
            prepare_effect-report i page m h,
            prepare_effect-report i (record page { prepare_error = some m }) m h,
          )
          refl
    at go h = elim (Bool-cases (text_eq page.run_key (run_key_of i))) [
      | inl old ↦ rw (prepare_effect-same i page h old) (prepare_effect-same i page h old)
      | inr new ↦ rw (prepare_effect-go i page h new) (
          prepare_effect-same i
            (record page {
              prepare_error = none;
              run_key = run_key_of i;
              started = suc page.started;
            })
            h (text_eq_refl (run_key_of i)))
    ]

-- Where the page may prepare results, a press of the retry button followed by a run of the effect
-- starts the preparation twice.
pub retry_prepare_scratch_results-twice :
    (i : Inputs) (page : Page)
    → effect_guard i ≡ go
    → (prepare_effect i (retry_prepare_scratch_results i page)).started ≡ 2 + page.started
unfolding retry_prepare_scratch_results run_key_of
retry_prepare_scratch_results-twice i page h =
    rw (start-go i (record page { run_key = [] }) ((effect_guard-go i).0 h)) (
      ap Page.started (
        prepare_effect-go i
          (record page { prepare_error = none; run_key = []; started = suc page.started }) h
          (text_eq_nil-append _ _ b':'))
      ∙ omega arith)
