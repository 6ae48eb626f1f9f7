-- ===== src/Claim/Tests.antt =====
-- Claim proofs from a concrete answer of the relayer.
use lucky_scratch.Prelude.{ℕ, ◌≡◌, ◌≢◌, ◌⊎◌, refl, Bool, true, false, Option, some, List, [], ◌∷◌}
use lucky_scratch.Prelude.Texts.{Text, codes, is_empty}
use lucky_scratch.Prelude.Int.{pos}
use lucky_scratch.Claim.{
  Promise, fulfilled, ClearValue, string, integer, PublicDecryptResults, TicketClaimProof, Instance,
  pick_clear_value, build_ticket_claim_proof_direct, zero_handle, first_value,
}
use lucky_scratch.Claim.Laws.{
  IsBuilt, build_ticket_claim_proof_direct-IsBuilt, Holds, answers, has_answer,
  pick_clear_value_sound,
}

abbrev handle : Text
handle = codes "0xAB"

abbrev values : List (Text × ClearValue)
values = (codes "0xab", string (codes "1500000")) ∷ []

abbrev created : Promise Instance
created =
    fulfilled (λ h. fulfilled (record { clear_values = values; decryption_proof = codes "0x1" }))

abbrev claim_proof : TicketClaimProof
claim_proof = record {
  clear_reward_amount = 1500000;
  decryption_proof = codes "0x1";
  handle = handle;
}

build_test : build_ticket_claim_proof_direct created handle ≡ fulfilled claim_proof
unfolding build_ticket_claim_proof_direct zero_handle lucky_scratch.Claim.checked_proof
    lucky_scratch.Claim.get_clear_reward_amount pick_clear_value lucky_scratch.Claim.normalize_hex
    lucky_scratch.Claim.clear_value_to_big_int lucky_scratch.Prelude.Int.big_int
    lucky_scratch.Claim.in_range
build_test = refl

build_ticket_claim_proof_direct-IsBuilt_example :
    IsBuilt created handle claim_proof × (is_empty handle ≡ false) × (handle ≢ zero_handle)
build_ticket_claim_proof_direct-IsBuilt_example =
    build_ticket_claim_proof_direct-IsBuilt created handle claim_proof build_test

picked : pick_clear_value values handle ≡ some (string (codes "1500000"))
unfolding pick_clear_value lucky_scratch.Claim.normalize_hex
picked = refl

pick_clear_value_sound_example :
    Holds (λ j. answers handle j ≡ true) (string (codes "1500000")) values
    ⊎ (has_answer handle values ≡ false) × (first_value values ≡ some (string (codes "1500000")))
pick_clear_value_sound_example =
    pick_clear_value_sound values handle (string (codes "1500000")) picked
