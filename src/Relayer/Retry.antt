-- ===== src/Relayer/Retry.antt =====
-- The loop of `createTicketRelayerInstance` in sdk.ts.
use lucky_scratch.Prelude.{
  ℕ, suc, ◌+◌, ◌*◌, ◌≡◌, ◌⊎◌, inl, inr, refl, ◌≢◌, true, false, Option, none, some, arith, ◌==◌,
  Bool-cases,
}
use lucky_scratch.Relayer.{
  SdkError, is_retriable_relayer_create_error, Answer, made, threw, Attempts, attempt_from,
  create_with_retry,
}

module _ {ℓ} {A : Type ℓ} (create_instance : ℕ → Answer A) where
  -- An attempt failed in a way that is worth another one.
  abbrev pub FailedRetriably : ℕ → Type ℓ
  FailedRetriably k =
      (e : SdkError) × (create_instance k ≡ threw e) × (is_retriable_relayer_create_error e ≡ true)

  -- The loop ended at an attempt: with its answer, for which no further attempt is due.
  abbrev pub EndsAt : ℕ → Attempts A → Type ℓ
  EndsAt k r =
      (r.calls ≡ k)
      × (r.answer ≡ some (create_instance k))
      × (((i : A) × (create_instance k ≡ made i))
          ⊎ ((e : SdkError) × (create_instance k ≡ threw e)
              × ((is_retriable_relayer_create_error e ≡ false) ⊎ (k ≡ 3))))

  Answer-cases : (a : Answer A) → ((i : A) × (a ≡ made i)) ⊎ ((e : SdkError) × (a ≡ threw e))
  Answer-cases (made i) = inl (i, refl)
  Answer-cases (threw e) = inr (e, refl)

  -- One round: the loop ends here, or the attempt failed retriably and the loop goes on.
  attempt_from_step :
      (rounds attempt slept : ℕ) (last : Option (Answer A))
      → EndsAt attempt (attempt_from create_instance (suc rounds) attempt last slept)
          × ((attempt_from create_instance (suc rounds) attempt last slept).slept_ms ≡ slept)
        ⊎ FailedRetriably attempt
          × (attempt ≢ 3)
          × (attempt_from create_instance (suc rounds) attempt last slept
              ≡ attempt_from create_instance rounds
                  (attempt + 1)
                  (some (create_instance attempt))
                  (slept + 400 * attempt))
  unfolding attempt_from
  attempt_from_step rounds attempt slept last = elim (Answer-cases (create_instance attempt)) [
    | inl (i, e) ↦ inl ((ground arith, ground arith, inl (i, e)), ground arith)
    | inr (err, e) ↦ elim (Bool-cases (is_retriable_relayer_create_error err)) [
      | inr final ↦ inl ((ground arith, ground arith, inr (err, e, inl final)), ground arith)
      | inl retriable ↦ elim (Bool-cases (attempt == 3)) [
        | inl last_one ↦
            inl ((ground arith, ground arith, inr (err, e, inr (ground arith))), ground arith)
        | inr more ↦ inr ((err, e, retriable), ground arith, ground arith)
      ]
    ]
  ]

  -- The loop that creates a relayer instance makes one, two or three attempts and stops at the
  -- first that succeeds, fails in a way not worth another attempt, or is the third; it answers
  -- what that attempt answered, and has paused 0, 400 or 1200 ms.
  pub create_with_retry_lem :
      EndsAt 1 (create_with_retry create_instance)
        × ((create_with_retry create_instance).slept_ms ≡ 0)
      ⊎ FailedRetriably 1
        × EndsAt 2 (create_with_retry create_instance)
        × ((create_with_retry create_instance).slept_ms ≡ 400)
      ⊎ FailedRetriably 1
        × FailedRetriably 2
        × EndsAt 3 (create_with_retry create_instance)
        × ((create_with_retry create_instance).slept_ms ≡ 1200)
  unfolding create_with_retry
  create_with_retry_lem = elim (attempt_from_step 2 1 0 none) [
    | inl ended ↦ inl ended
    | inr (f1, _, go1) ↦ rw go1 (elim (attempt_from_step 1 2 400 (some (create_instance 1))) [
      | inl (ended, slept) ↦ inr (inl (f1, ended, slept))
      | inr (f2, _, go2) ↦ rw go2 (elim (attempt_from_step 0 3 1200 (some (create_instance 2))) [
        | inl (ended, slept) ↦ inr (inr (f1, f2, ended, slept))
        | inr (f3, ne, go3) ↦ absurd (ne refl)
      ])
    ])
  ]
