-- ===== src/Claim.antt =====
-- The proof of a decrypted reward that a claim needs: packages/nextjs/services/luckyScratch/claim.ts.
-- The relayer SDK is a parameter: what making an instance and `publicDecrypt` answer.
mod Tests
pub mod Laws
use lucky_scratch.Prelude.{
  ℕ, ◌-◌, ◌^◌, Bool, true, false, not, ◌||◌, Option, none, some, List, [], ◌∷◌, ltb, if◌then◌else◌,
}
use lucky_scratch.Prelude.Texts.{Text, text_eq, codes, trim, to_lower, is_empty}
use lucky_scratch.Prelude.Int.{ℤ, pos, negsuc, big_int}

pub data ClaimError : Type 0 where
  boolean_value invalid_number empty_amount not_a_number no_value : ClaimError
  no_zama_context no_handle out_of_range no_proof bad_handle : ClaimError
  relayer_failed : ClaimError

-- A promise once it has settled; `>>=` is `await` with what follows it.
pub data Promise {ℓ} (A : Type ℓ) : Type ℓ where
  thrown : ClaimError → Promise A
  fulfilled : A → Promise A

infixl 5 ◌>>=◌
abbrev pub ◌>>=◌ {ℓ κ} : {A : Type ℓ} {B : Type κ} → Promise A → (A → Promise B) → Promise B
thrown reason >>= rest = thrown reason
fulfilled value >>= rest = rest value

abbrev pub given_or {ℓ} : {A : Type ℓ} → Option A → ClaimError → Promise A
given_or none e = thrown e
given_or (some a) e = fulfilled a

-- A clear value by its JavaScript type; a number is an integer or has no integer value.
pub data ClearValue : Type 0 where
  boolean : Bool → ClearValue
  big : ℤ → ClearValue
  integer : ℤ → ClearValue
  not_integer : ClearValue
  string : Text → ClearValue

pub record PublicDecryptResults : Type 0 where
  pub clear_values : List (Text × ClearValue)
  pub decryption_proof : Text

pub record TicketClaimProof : Type 0 where
  pub clear_reward_amount : ℕ
  pub decryption_proof : Text
  pub handle : Text

abbrev pub max_uint64 : ℕ
max_uint64 = 2 ^ 64 - 1

unfoldable pub normalize_hex : Text → Text
unfolding trim
normalize_hex value = to_lower (trim value)

unfoldable pub clear_value_to_big_int : ClearValue → Promise ℤ
clear_value_to_big_int (boolean b) = thrown boolean_value
clear_value_to_big_int (big n) = fulfilled n
clear_value_to_big_int (integer n) = fulfilled n
clear_value_to_big_int not_integer = thrown invalid_number
clear_value_to_big_int (string s) =
    if is_empty (trim s) then thrown empty_amount else given_or (big_int (trim s)) not_a_number

-- `clearValues[key]`
abbrev pub lookup : Text → List (Text × ClearValue) → Option ClearValue
lookup k [] = none
lookup k ((j, v) ∷ values) = if text_eq j k then some v else lookup k values

-- The loop over `Object.entries`.
unfoldable pub find_normalized : Text → List (Text × ClearValue) → Option ClearValue
find_normalized h [] = none
find_normalized h ((k, v) ∷ values) =
    if text_eq (normalize_hex k) h then some v else find_normalized h values

abbrev pub first_value : List (Text × ClearValue) → Option ClearValue
first_value [] = none
first_value ((k, v) ∷ values) = some v

abbrev pub or_try {ℓ} : {A : Type ℓ} → Option A → Option A → Option A
or_try none b = b
or_try (some a) b = some a

-- The value for a handle: under the handle, under its normal form, under a key with that normal
-- form, and else the first one.
unfoldable pub pick_clear_value : List (Text × ClearValue) → Text → Option ClearValue
unfolding find_normalized
pick_clear_value values handle = or_try (lookup handle values) (
    or_try (lookup (normalize_hex handle) values)
      (or_try (find_normalized (normalize_hex handle) values) (first_value values)))

unfoldable pub get_clear_reward_amount : PublicDecryptResults → Text → Promise ℤ
get_clear_reward_amount result handle = do
  value ← given_or (pick_clear_value result.clear_values handle) no_value
  clear_value_to_big_int value

unfoldable pub in_range : ℤ → Promise ℕ
in_range (pos n) = if ltb max_uint64 n then thrown out_of_range else fulfilled n
in_range (negsuc n) = thrown out_of_range

abbrev pub proof_of : PublicDecryptResults → Promise Text
proof_of result =
    if is_empty result.decryption_proof then thrown no_proof else fulfilled result.decryption_proof

-- The end that the two builders share.
unfoldable pub checked_proof : PublicDecryptResults → Text → Promise TicketClaimProof
checked_proof result handle = do
  clear ← get_clear_reward_amount result handle
  amount ← in_range clear
  proof ← proof_of result
  fulfilled (record { clear_reward_amount = amount; decryption_proof = proof; handle = handle })

-- An instance of the relayer SDK, seen through `publicDecrypt([handle])`.
abbrev pub Instance : Type 0
Instance = Text → Promise PublicDecryptResults

-- The part of `RevealAuthPayload` that is read.
pub record RevealAuth : Type 0 where
  pub claim_handles : Option (List Text)
  pub encrypted_prize_handle : Text

abbrev pub first_handle : List Text → Text → Text
first_handle [] fallback = fallback
first_handle (h ∷ hs) fallback = if is_empty h then fallback else h

unfoldable pub build_ticket_claim_proof : Promise Instance → RevealAuth → Promise TicketClaimProof
build_ticket_claim_proof created auth = do
  handles ← given_or auth.claim_handles no_zama_context
  let handle = first_handle handles auth.encrypted_prize_handle
  known ← (if is_empty handle then thrown no_handle else fulfilled handle)
  decrypt ← created
  result ← decrypt known
  checked_proof result known

unfoldable pub zero_handle : Text
zero_handle = codes "0x0000000000000000000000000000000000000000000000000000000000000000"

unfoldable pub build_ticket_claim_proof_direct : Promise Instance → Text → Promise TicketClaimProof
build_ticket_claim_proof_direct created handle = do
  known ←
      (if is_empty handle || text_eq handle zero_handle
        then thrown bad_handle
        else fulfilled handle)
  decrypt ← created
  result ← decrypt known
  checked_proof result known
