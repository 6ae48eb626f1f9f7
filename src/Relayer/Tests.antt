-- ===== src/Relayer/Tests.antt =====
-- The relayer SDK with an attempt that fails and one that does not.
use lucky_scratch.Prelude.{
  ℕ, suc, ◌+◌, ◌*◌, ◌≤◌, ◌≡◌, ◌⊎◌, refl, Bool, true, false, Option, none, some, List, [], ◌∷◌,
  arith, leb, ◌==◌, if◌then◌else◌,
}
use lucky_scratch.Prelude.Texts.{Text, codes}
use lucky_scratch.Relayer.{
  SdkError, Answer, made, threw, create_with_retry, attempt_from, TargetNetwork, resolve_rpc_url,
}
use lucky_scratch.Relayer.Instance.{create_ticket_relayer_instance, create_sepolia_relayer_instance}
use lucky_scratch.Relayer.Instance.Laws.{IsMade, create_sepolia_relayer_instance-IsMade}
use lucky_scratch.Relayer.Retry.{EndsAt, FailedRetriably, create_with_retry_lem}
use lucky_scratch.Relayer.Loader.{
  Attempt, resolved, rejected, start, load_relayer_sdk, run_loads, load_relayer_sdk_permanent,
  IsAnswered, wait_for_relayer_sdk, wait_for_relayer_sdk-IsAnswered,
}

abbrev bad_json : SdkError
bad_json = record { message = codes "Bad JSON"; cause = none }

abbrev create_instance : ℕ → Answer ℕ
create_instance attempt = if attempt == 1 then threw bad_json else made attempt

retry_test : (create_with_retry create_instance).answer ≡ some (made 2)
unfolding create_with_retry lucky_scratch.Relayer.is_retriable_relayer_create_error
    lucky_scratch.Prelude.Texts.trim
retry_test = refl

create_with_retry_lem_example :
    EndsAt create_instance 1 (create_with_retry create_instance)
      × ((create_with_retry create_instance).slept_ms ≡ 0)
    ⊎ FailedRetriably create_instance 1
      × EndsAt create_instance 2 (create_with_retry create_instance)
      × ((create_with_retry create_instance).slept_ms ≡ 400)
    ⊎ FailedRetriably create_instance 1
      × FailedRetriably create_instance 2
      × EndsAt create_instance 3 (create_with_retry create_instance)
      × ((create_with_retry create_instance).slept_ms ≡ 1200)
create_with_retry_lem_example = create_with_retry_lem create_instance

abbrev offline : Attempt
offline = record { script_loads = rejected; global_appears = rejected; init_answers = rejected }

abbrev online : Attempt
online = record { script_loads = resolved; global_appears = resolved; init_answers = resolved }

load_failed : (load_relayer_sdk offline start).1 ≡ rejected
unfolding load_relayer_sdk
load_failed = refl

load_done : (load_relayer_sdk online start).1 ≡ resolved
unfolding load_relayer_sdk
load_done = refl

load_relayer_sdk_permanent_example :
    (load_relayer_sdk online (run_loads (online ∷ []) (load_relayer_sdk offline start).0)).1
    ≡ rejected
load_relayer_sdk_permanent_example =
    load_relayer_sdk_permanent offline online (online ∷ []) start load_failed

abbrev clock : ℕ → ℕ
clock k = 120 * k

abbrev present : ℕ → Bool
present k = leb 7 k

clock_steps : (k : ℕ) → clock k + 100 ≤ clock (suc k)
clock_steps k = omega arith

wait_for_relayer_sdk-IsAnswered_example :
    IsAnswered clock present (wait_for_relayer_sdk clock present)
wait_for_relayer_sdk-IsAnswered_example = wait_for_relayer_sdk-IsAnswered clock present clock_steps

abbrev sepolia_networks : List TargetNetwork
sepolia_networks = record { id = 11155111; rpc_url = some (codes "https://rpc.example") } ∷ []

create_sepolia_relayer_instance-IsMade_example :
    IsMade true (λ config attempt. made attempt) [] sepolia_networks none 11155111 1
unfolding create_sepolia_relayer_instance create_ticket_relayer_instance resolve_rpc_url
    create_with_retry attempt_from
create_sepolia_relayer_instance-IsMade_example =
    create_sepolia_relayer_instance-IsMade true (λ config attempt. made attempt) [] sepolia_networks
      none 11155111 1 refl
