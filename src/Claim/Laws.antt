-- ===== src/Claim/Laws.antt =====
-- What a proof that claim.ts builds can be relied on for.
use lucky_scratch.Prelude.{
  ℕ, ◌<◌, ◌^◌, ◌≡◌, ◌≢◌, refl, Bool, true, false, none, some, List, [], ◌∷◌, arith, Option-cases,
  Bool-cases, inl, inr, ◌⊎◌, any, ◌||◌, ap, ◌∙◌,
}
use lucky_scratch.Prelude.Texts.{Text, text_eq, text_eq→eq, text_eq_refl, is_empty}
use lucky_scratch.Prelude.Int.{ℤ, pos, negsuc}
use lucky_scratch.Claim.{
  Promise, fulfilled, thrown, ◌>>=◌, ClearValue, PublicDecryptResults, TicketClaimProof,
  find_normalized, first_value, normalize_hex, lookup, pick_clear_value, get_clear_reward_amount,
  in_range, checked_proof, Instance, build_ticket_claim_proof_direct, zero_handle,
}

-- Where the code after an `await` is fulfilled, so is what it waited for.
awaited {ℓ κ} :
    {A : Type ℓ} {B : Type κ} {rest : A → Promise B} (p : Promise A) (last : B)
    → (p >>= rest) ≡ fulfilled last
    → (value : A) × (p ≡ fulfilled value) × (rest value ≡ fulfilled last)
awaited (thrown reason) last e = cc
awaited (fulfilled value) last e = (value, refl, e)

-- What a claim proof says of the relayer's answer.
pub record IsClaimOf (result : PublicDecryptResults) (handle : Text) (p : TicketClaimProof)
    : Type 0 where
  pub amount : get_clear_reward_amount result handle ≡ fulfilled (pos p.clear_reward_amount)
  pub fits : p.clear_reward_amount < 2 ^ 64
  pub proof : p.decryption_proof ≡ result.decryption_proof
  pub proof_given : is_empty p.decryption_proof ≡ false
  pub same_handle : p.handle ≡ handle

in_range-ok : (z : ℤ) (n : ℕ) → in_range z ≡ fulfilled n → (z ≡ pos n) × (n < 2 ^ 64)
unfolding in_range
in_range-ok (pos m) n h = ground arith
in_range-ok (negsuc m) n h = absurd (ground arith)

checked_proof-IsClaimOf :
    (result : PublicDecryptResults) (handle : Text) (p : TicketClaimProof)
    → checked_proof result handle ≡ fulfilled p
    → IsClaimOf result handle p
unfolding checked_proof
checked_proof-IsClaimOf result handle p h =
    let (z, e1, h1) = awaited (get_clear_reward_amount result handle) _ h in
    let (n, e2, h2) = awaited (in_range z) _ h1 in
    let (is_pos, fits) = in_range-ok z n e2 in
    record {
      amount = ground arith;
      fits = ground arith;
      proof = ground arith;
      proof_given = ground arith;
      same_handle = ground arith;
    }

pub record IsBuilt (created : Promise Instance) (handle : Text) (p : TicketClaimProof)
    : Type 0 where
  pub decrypt : Instance
  pub answer : PublicDecryptResults
  pub made : created ≡ fulfilled decrypt
  pub answered : decrypt handle ≡ fulfilled answer
  pub claim : IsClaimOf answer handle p

decrypted-IsBuilt :
    (created : Promise Instance) (handle : Text) (p : TicketClaimProof)
    → (created >>= λ decrypt. decrypt handle >>= λ result. checked_proof result handle)
      ≡ fulfilled p
    → IsBuilt created handle p
decrypted-IsBuilt created handle p h =
    let (decrypt, e1, h1) = awaited created _ h in
    let (answer, e2, h2) = awaited (decrypt handle) _ h1 in
    record {
      decrypt = decrypt;
      answer = answer;
      made = e1;
      answered = e2;
      claim = checked_proof-IsClaimOf answer handle p h2;
    }

-- A proof that buildTicketClaimProofDirect returns carries the amount and the proof of the
-- relayer's answer for that very handle; the amount is below 2^64, the proof is not empty, and the
-- handle is neither empty nor all zeros.
pub build_ticket_claim_proof_direct-IsBuilt :
    (created : Promise Instance) (handle : Text) (p : TicketClaimProof)
    → build_ticket_claim_proof_direct created handle ≡ fulfilled p
    → IsBuilt created handle p × (is_empty handle ≡ false) × (handle ≢ zero_handle)
unfolding build_ticket_claim_proof_direct
build_ticket_claim_proof_direct-IsBuilt created handle p h =
    elim (Bool-cases (is_empty handle || text_eq handle zero_handle)) [
      | inl bad ↦ absurd (ground arith)
      | inr good ↦ (
        decrypted-IsBuilt created handle p (rw good at h),
        ground arith,
        λ e. absurd (cc (text_eq_refl zero_handle, zero_differs e (second handle good))),
      )
    ]
  where
    second :
        (k : Text) → (is_empty k || text_eq k zero_handle) ≡ false → text_eq k zero_handle ≡ false
    second k g = ground arith

    zero_differs :
        handle ≡ zero_handle
        → text_eq handle zero_handle ≡ false
        → text_eq zero_handle zero_handle ≡ false
    zero_differs e d = rw e at d

-- A key that stands for a handle, up to case and outer spaces.
abbrev pub answers : Text → Text → Bool
answers h k = text_eq k (normalize_hex h) || text_eq (normalize_hex k) (normalize_hex h)

-- A value that stands in the answer under a key with a property.
abbrev pub Holds : (Text → Type 0) → ClearValue → List (Text × ClearValue) → Type 0
Holds P v [] = ⊥
Holds P v ((k, w) ∷ values) = (P k × (v ≡ w)) ⊎ Holds P v values

lookup-Holds :
    (h k : Text) (v : ClearValue) (values : List (Text × ClearValue))
    → ((j : Text) → text_eq j k ≡ true → answers h j ≡ true)
    → lookup k values ≡ some v
    → Holds (λ j. answers h j ≡ true) v values
lookup-Holds h k v [] w e = absurd (cc)
lookup-Holds h k v ((j, u) ∷ values) w e = elim (Bool-cases (text_eq j k)) [
  | inl same ↦ inl (w j same, ground arith)
  | inr other ↦ inr (lookup-Holds h k v values w (rw other at e))
]

find_normalized-Holds :
    (h : Text) (v : ClearValue) (values : List (Text × ClearValue))
    → find_normalized (normalize_hex h) values ≡ some v
    → Holds (λ j. answers h j ≡ true) v values
unfolding find_normalized
find_normalized-Holds h v [] e = absurd (cc)
find_normalized-Holds h v ((j, u) ∷ values) e =
    elim (Bool-cases (text_eq (normalize_hex j) (normalize_hex h))) [
      | inl same ↦ inl (ground arith, ground arith)
      | inr other ↦ inr (find_normalized-Holds h v values (rw other at e))
    ]

abbrev pub has_answer : Text → List (Text × ClearValue) → Bool
has_answer h = any (λ e. answers h e.0)

lookup-none :
    (h k : Text) (values : List (Text × ClearValue))
    → ((j : Text) → text_eq j k ≡ true → answers h j ≡ true)
    → has_answer h values ≡ false
    → lookup k values ≡ none
lookup-none h k [] w e = refl
lookup-none h k ((j, u) ∷ values) w e = elim (Bool-cases (text_eq j k)) [
  | inl same ↦ absurd (ground (arith, w j same))
  | inr other ↦ rw other (lookup-none h k values w (ground arith))
]

find_normalized-none :
    (h : Text) (values : List (Text × ClearValue))
    → has_answer h values ≡ false
    → find_normalized (normalize_hex h) values ≡ none
unfolding find_normalized
find_normalized-none h [] e = refl
find_normalized-none h ((j, u) ∷ values) e = ground (arith, find_normalized-none h values)

has_answer_of_none :
    (h : Text) (values : List (Text × ClearValue))
    → lookup (normalize_hex h) values ≡ none
    → find_normalized (normalize_hex h) values ≡ none
    → has_answer h values ≡ false
unfolding find_normalized
has_answer_of_none h [] e1 e2 = refl
has_answer_of_none h ((j, u) ∷ values) e1 e2 = ground (arith, has_answer_of_none h values)

answers_self : (h j : Text) → text_eq j h ≡ true → answers h j ≡ true
answers_self h j e = rw (text_eq→eq j h e, text_eq_refl (normalize_hex h)) (ground arith)

-- The clear value that is picked for a handle stands under a key that is the handle up to case and
-- outer spaces; where no key is, it is the first value of the answer.
pub pick_clear_value_sound :
    (values : List (Text × ClearValue)) (h : Text) (v : ClearValue)
    → pick_clear_value values h ≡ some v
    → Holds (λ j. answers h j ≡ true) v values
      ⊎ (has_answer h values ≡ false) × (first_value values ≡ some v)
unfolding pick_clear_value
pick_clear_value_sound values h v e = elim (Option-cases (lookup h values)) [
  | inr (u, found) ↦
      let same : u ≡ v = ground arith in
      inl (lookup-Holds h h v values (answers_self h) (found ∙ ap some same))
  | inl missing ↦ elim (Option-cases (lookup (normalize_hex h) values)) [
    | inr (u, found) ↦
        let same : u ≡ v = ground arith in
        inl (lookup-Holds h (normalize_hex h) v values (λ j p. ground arith) (found ∙ ap some same))
    | inl missing2 ↦ elim (Option-cases (find_normalized (normalize_hex h) values)) [
      | inr (u, found) ↦
          let same : u ≡ v = ground arith in
          inl (find_normalized-Holds h v values (found ∙ ap some same))
      | inl missing3 ↦ inr (has_answer_of_none h values missing2 missing3, ground arith)
    ]
  ]
]

pub pick_clear_value_fallback :
    (values : List (Text × ClearValue)) (h : Text)
    → has_answer h values ≡ false
    → pick_clear_value values h ≡ first_value values
unfolding pick_clear_value
pick_clear_value_fallback values h e = ground (
  arith,
  lookup-none h h values (answers_self h) e,
  lookup-none h (normalize_hex h) values
      (λ (j : Text) (p : text_eq j (normalize_hex h) ≡ true). or_left j p) e,
  find_normalized-none h values e,
)
  where
    or_left : (j : Text) → text_eq j (normalize_hex h) ≡ true → answers h j ≡ true
    or_left j p = ground arith
