-- ===== src/Relayer.antt =====
-- The relayer SDK in the browser: packages/nextjs/services/fhevm/sdk.ts. The SDK itself, its script
-- and the network are parameters: what each attempt answers.
mod Tests
pub mod Url
pub mod Loader
pub mod Retry
pub mod Runtime
pub mod Instance
use lucky_scratch.Prelude.{
  ℕ, zero, suc, ◌+◌, ◌-◌, ◌*◌, ◌≤◌, Bool, true, false, not, ◌&&◌, ◌||◌, Option, none, some, List,
  [], ◌∷◌, ◌++◌, leb, ltb, ◌==◌, find?, if◌then◌else◌, or_else,
}
use lucky_scratch.Prelude.Texts.{Text, codes, text_eq, trim, includes, is_empty}

-- The `cause` of an error of the SDK, if it is an object.
pub record RelayerSdkErrorCause : Type 0 where
  pub code : Option Text
  pub operation : Option Text
  pub nested_message : Option Text

pub record SdkError : Type 0 where
  pub message : Text
  pub cause : Option RelayerSdkErrorCause

unfoldable pub to_error_message : SdkError → Text
to_error_message e =
    if is_empty (trim e.message) then codes "unknown relayer SDK error" else e.message

abbrev pub has_code : Option RelayerSdkErrorCause → Text → Bool
has_code none code = false
has_code (some cause) code = elim cause.code [ none ↦ false | some c ↦ text_eq c code ]

unfoldable pub is_retriable_relayer_create_error : SdkError → Bool
unfolding to_error_message
is_retriable_relayer_create_error e =
    includes (to_error_message e) (codes "Bad JSON")
    || includes (to_error_message e) (codes "didn't return a JSON")
    || has_code e.cause (codes "RELAYER_UNKNOWN_ERROR")
    || has_code e.cause (codes "RELAYER_NO_JSON_ERROR")

abbrev pub operation_text : Option RelayerSdkErrorCause → Text
operation_text none = []
operation_text (some cause) = elim cause.operation [
  | none ↦ []
  | some o ↦ if is_empty o then [] else codes " during " ++ o
]

abbrev pub nested_text : Option RelayerSdkErrorCause → Text
nested_text none = []
nested_text (some cause) = elim cause.nested_message [ none ↦ [] | some m ↦ codes " " ++ m ]

unfoldable pub format_create_instance_error : SdkError → Text → Text
unfolding is_retriable_relayer_create_error to_error_message
format_create_instance_error e relayer_url =
    if is_retriable_relayer_create_error e
    then codes "failed to create relayer instance: unable to reach Zama relayer"
      ++ operation_text e.cause
      ++ codes " at "
      ++ relayer_url
      ++ codes ". "
      ++ codes
          "Check the browser/network path to the relayer and S3 public-key assets, or set NEXT_PUBLIC_ZAMA_RELAYER_URL to a reachable relayer/proxy. "
      ++ codes "Original SDK error: "
      ++ to_error_message e
      ++ codes "."
      ++ nested_text e.cause
    else codes "failed to create relayer instance: " ++ to_error_message e

abbrev pub create_instance_max_attempts : ℕ
create_instance_max_attempts = 3

-- What an attempt, or the whole loop, answers.
pub data Answer {ℓ} (A : Type ℓ) : Type ℓ where
  made : A → Answer A
  threw : SdkError → Answer A

-- How the loop ends: its answer (`none` where no attempt was made), the attempts and the pauses.
pub record Attempts {ℓ} (A : Type ℓ) : Type ℓ where
  pub answer : Option (Answer A)
  pub calls : ℕ
  pub slept_ms : ℕ

module _ {ℓ} {A : Type ℓ} (create_instance : ℕ → Answer A) where
  -- The loop from an attempt on, with the rounds that the loop's bound leaves.
  unfoldable pub attempt_from : ℕ → ℕ → Option (Answer A) → ℕ → Attempts A
  attempt_from zero attempt last slept = record {
    answer = last;
    calls = attempt - 1;
    slept_ms = slept;
  }
  attempt_from (suc rounds) attempt last slept =
      let next = λ (e : SdkError).
        attempt_from rounds (attempt + 1) (some (threw e)) (slept + 400 * attempt) in
      elim (create_instance attempt) [
        | made i ↦ record { answer = some (made i); calls = attempt; slept_ms = slept }
        | threw e ↦
            if not (is_retriable_relayer_create_error e) || attempt == create_instance_max_attempts
            then record { answer = some (threw e); calls = attempt; slept_ms = slept }
            else next e
      ]

  unfoldable pub create_with_retry : Attempts A
  unfolding attempt_from
  create_with_retry = attempt_from create_instance_max_attempts 1 none 0

-- A network of the configuration, and its first RPC address.
pub record TargetNetwork : Type 0 where
  pub id : ℕ
  pub rpc_url : Option Text

abbrev pub override_of : ℕ → List (ℕ × Text) → Option Text
override_of chain [] = none
override_of chain ((id, url) ∷ overrides) =
    if id == chain then some url else override_of chain overrides

unfoldable pub resolve_rpc_url : List (ℕ × Text) → List TargetNetwork → ℕ → Option Text
resolve_rpc_url overrides networks chain_id =
    let listed : Option Text = elim (find? (λ n. n.id == chain_id) networks) [
      | none ↦ none
      | some n ↦ n.rpc_url
    ] in
    elim (override_of chain_id overrides) [
      | none ↦ listed
      | some url ↦ if is_empty url then listed else some url
    ]
