-- ===== src/CreatePool/Authorize/Laws.antt =====
-- How an authorisation of the treasury ends.
use lucky_scratch.Prelude.{
  ℕ, suc, ◌≡◌, inl, inr, refl, ◌∙◌, ap, false, Option, none, some, List, [], ◌∷◌, ◌++◌, arith,
  length, Bool-cases,
}
use lucky_scratch.Prelude.Texts.{Text, is_empty}
use lucky_scratch.CreatePool.Authorize.{
  Panel, expiry, after_call, finished, handle_authorize_treasury,
}

length-snoc : {A : Type 0} (xs : List A) (x : A) → length (xs ++ x ∷ []) ≡ suc (length xs)
length-snoc [] x = refl
length-snoc (y ∷ xs) x = ground (arith, length-snoc xs x)

-- One notice more and nothing in progress.
pub handle_authorize_treasury-Settles :
    (set_operator : Text → ℕ → Option Text) (now : ℕ) (treasury : Option Text) (panel : Panel)
    → panel.is_authorizing_operator ≡ false
    → panel.submission_stage ≡ []
    → let after = handle_authorize_treasury set_operator now treasury panel in
      (after.is_authorizing_operator ≡ false)
      × (after.submission_stage ≡ [])
      × (length after.notes ≡ suc (length panel.notes))
unfolding handle_authorize_treasury
handle_authorize_treasury-Settles set_operator now none panel h k =
    (h, k, length-snoc panel.notes _)
handle_authorize_treasury-Settles set_operator now (some t) panel h k =
    elim (Bool-cases (is_empty t)) [
      | inl empty ↦ rw empty (h, k, length-snoc panel.notes _)
      | inr given ↦ rw given (at (set_operator t (expiry now)) _ refl)
    ]
  where
    at :
        (o : Option Text)
        → (asked : Panel) → asked.notes ≡ panel.notes
        → let after = finished (after_call o asked) in
          (after.is_authorizing_operator ≡ false)
          × (after.submission_stage ≡ [])
          × (length after.notes ≡ suc (length panel.notes))
    at none asked q = (refl, refl, length-snoc asked.notes _ ∙ ap (λ l. suc (length l)) q)
    at (some message) asked q = (refl, refl, length-snoc asked.notes _ ∙ ap (λ l. suc (length l)) q)
