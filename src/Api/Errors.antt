-- ===== src/Api/Errors.antt =====
-- When a call of the backend fails, and with which message.
use lucky_scratch.Prelude.{
  ℕ, ◌≡◌, ◌≢◌, ap, ◌∙◌, inl, inr, refl, Bool, true, false, Option, none, some, arith, Bool-cases,
  Option-cases, if◌then◌else◌,
}
use lucky_scratch.Prelude.Texts.{Text, codes, includes, is_empty}
use lucky_scratch.Api.{
  ApiErrorPayload, Response, Outcome, thrown, failed, answered, text_or, default_message, header,
  payload_message, parse_error_message, refused, request, parsed, request_json,
}

text_or-filled :
    (s : Option Text) (rest : Text) → is_empty rest ≡ false → is_empty (text_or s rest) ≡ false
text_or-filled none rest h = h
text_or-filled (some s) rest h = ground arith

answered_injective : {A : Type 0} (a b : A) → answered a ≡ answered b → a ≡ b
answered_injective a b h = cc

module _ {J : Type 0} (payload : J → ApiErrorPayload) where
  -- What a call that fails with a message has seen.
  abbrev pub Refusal : Option (Response J) → Text → Type 0
  Refusal none m = true ≡ false
  Refusal (some r) m =
      (r.ok ≡ false) × (parse_error_message payload r ≡ some m) × (is_empty m ≡ false)

  payload_message-filled :
      (status : ℕ) (j : Option J) (m : Text)
      → payload_message payload status j ≡ some m
      → is_empty m ≡ false
  payload_message-filled status none m h = cc
  payload_message-filled status (some j) m h =
      let inner = text_or-filled (payload j).message (default_message status) refl in
      let outer =
        text_or-filled (payload j).error (text_or (payload j).message (default_message status))
          inner in
      ground arith

  parse_error_message-filled :
      (r : Response J) (m : Text) → parse_error_message payload r ≡ some m → is_empty m ≡ false
  unfolding parse_error_message
  parse_error_message-filled r m h =
      elim (Bool-cases (includes (header r.content_type) (codes "application/json"))) [
        | inl json ↦ payload_message-filled r.status r.json m (simp json at h)
        | inr other ↦
            let filled = text_or-filled (some r.text) (default_message r.status) refl in
            let same : some (text_or (some r.text) (default_message r.status)) ≡ some m =
              simp other at h in
            ground arith
      ]

  parsed-failed : (o : Outcome (Response J)) (m : Text) → parsed payload o ≡ failed m → o ≡ failed m
  parsed-failed thrown m h = cc
  parsed-failed (failed n) m h = ground arith
  parsed-failed (answered r) m h = elim (Option-cases r.json) [
    | inl bad ↦ cc (rw bad at h)
    | inr (j, good) ↦ cc (rw good at h)
  ]

  refused-answered : (o : Option Text) (q : Response J) → refused payload o ≢ answered q
  refused-answered none q h = cc
  refused-answered (some n) q h = cc

  parsed-answered :
      (o : Outcome (Response J)) (j : J)
      → parsed payload o ≡ answered j
      → (r : Response J) × (o ≡ answered r) × (r.json ≡ some j)
  parsed-answered thrown j h = cc
  parsed-answered (failed n) j h = cc
  parsed-answered (answered r) j h = elim (Option-cases r.json) [
    | inl bad ↦ cc (rw bad at h)
    | inr (k, good) ↦ (r, refl, good ∙ ap some (answered_injective k j (rw good at h)))
  ]

  refused-failed : (o : Option Text) (m : Text) → refused payload o ≡ failed m → o ≡ some m
  refused-failed none m h = cc
  refused-failed (some n) m h = ground arith

  request-failed :
      (r : Response J) (m : Text) → request payload (some r) ≡ failed m → Refusal (some r) m
  unfolding request
  request-failed r m h = elim (Bool-cases r.ok) [
    | inl good ↦ cc (simp good at h)
    | inr bad ↦
        let said = refused-failed (parse_error_message payload r) m (simp bad at h) in
        (bad, said, parse_error_message-filled r m said)
  ]

  -- A call that fails with a message had a response that is not ok, and the message is not empty.
  pub request_json-failed :
      (r : Option (Response J)) (m : Text) → request_json payload r ≡ failed m → Refusal r m
  unfolding request_json request
  request_json-failed none m h = cc
  request_json-failed (some r) m h =
      request-failed r m (parsed-failed (request payload (some r)) m h)

  either-answered :
      (b : Bool) (r q : Response J) (o : Option Text)
      → (if b then answered r else refused payload o) ≡ answered q
      → (b ≡ true) × (r ≡ q)
  either-answered true r q o h = (refl, answered_injective r q h)
  either-answered false r q o h = absurd (refused-answered o q h)

  request-answered :
      (r q : Response J) → request payload (some r) ≡ answered q → (r.ok ≡ true) × (r ≡ q)
  unfolding request
  request-answered r q h = either-answered r.ok r q (parse_error_message payload r) h

  -- A call that answers had a response that is ok, and answers with its value.
  pub request_json-answered :
      (r : Response J) (j : J)
      → request_json payload (some r) ≡ answered j
      → (r.ok ≡ true) × (r.json ≡ some j)
  unfolding request_json
  request_json-answered r j h =
      let (q, asked, value) = parsed-answered (request payload (some r)) j h in
      let (good, same) = request-answered r q asked in (good, rw same value)
