-- ===== src/Api.antt =====
-- The client of the backend: packages/nextjs/services/luckyScratch/api.ts. The requests it makes,
-- and what it does with a response. `fetch` and `JSON.parse` are parameters: a response carries its
-- text, and the value it parses to if it does.
pub mod Search
pub mod Tiers
pub mod Pools
pub mod Errors
pub mod Posts
mod Tests
use lucky_scratch.Prelude.{
  ℕ, Bool, true, false, not, ◌&&◌, Option, none, some, List, [], ◌∷◌, ◌++◌, ◌==◌, if◌then◌else◌,
}
use lucky_scratch.Prelude.Texts.{Text, codes, includes, is_empty}
use lucky_scratch.Prelude.Decimal.{decimal}
use lucky_scratch.Types.{CreatePoolDraftInput, FinalizePoolInput}

-- `APIErrorPayload`
pub record ApiErrorPayload : Type 0 where
  pub error : Option Text
  pub message : Option Text

pub record Response (J : Type 0) : Type 0 where
  pub ok : Bool
  pub status : ℕ
  pub content_type : Option Text
  pub text : Text
  pub json : Option J

-- How a call ends: with its value, with an Error of a message, or with another exception.
pub data Outcome {ℓ} (A : Type ℓ) : Type ℓ where
  thrown : Outcome A
  failed : Text → Outcome A
  answered : A → Outcome A

abbrev pub text_or : Option Text → Text → Text
text_or none rest = rest
text_or (some s) rest = if is_empty s then rest else s

abbrev pub default_message : ℕ → Text
default_message status = codes "LuckyScratch API request failed with " ++ decimal status

abbrev pub header : Option Text → Text
header none = []
header (some s) = s

module _ {J : Type 0} (payload : J → ApiErrorPayload) where
  abbrev pub payload_message : ℕ → Option J → Option Text
  payload_message status none = none
  payload_message status (some j) =
      some (text_or (payload j).error (text_or (payload j).message (default_message status)))

  -- `none` where the body is said to be JSON and is not.
  unfoldable pub parse_error_message : Response J → Option Text
  parse_error_message r =
      if includes (header r.content_type) (codes "application/json")
      then payload_message r.status r.json
      else some (text_or (some r.text) (default_message r.status))

  abbrev pub refused : Option Text → Outcome (Response J)
  refused (some message) = failed message
  refused none = thrown

  -- `request`, from what `fetch` gives: nothing where it throws.
  unfoldable pub request : Option (Response J) → Outcome (Response J)
  request none = thrown
  request (some r) = if r.ok then answered r else refused (parse_error_message r)

  abbrev pub parsed : Outcome (Response J) → Outcome J
  parsed thrown = thrown
  parsed (failed message) = failed message
  parsed (answered r) = elim r.json [ none ↦ thrown | some j ↦ answered j ]

  unfoldable pub request_json : Option (Response J) → Outcome J
  unfolding request
  request_json r = parsed (request r)

-- The paths that the functions of `luckyScratchAPI` ask for.
pub data Timeframe : Type 0 where
  weekly all_time : Timeframe

abbrev pub timeframe_text : Timeframe → Text
timeframe_text weekly = codes "weekly"
timeframe_text all_time = codes "all-time"

unfoldable pub get_health : Text
get_health = codes "/healthz"

unfoldable pub get_ticket : Text → Text
get_ticket ticket_id = codes "/api/v1/tickets/" ++ ticket_id

unfoldable pub list_user_wins : Text → Text
list_user_wins address = codes "/api/v1/users/" ++ address ++ codes "/wins?limit=50&offset=0"

unfoldable pub list_recent_wins : ℕ → Text
list_recent_wins limit = codes "/api/v1/wins/recent?limit=" ++ decimal limit ++ codes "&offset=0"

unfoldable pub get_platform_overview : Text
get_platform_overview = codes "/api/v1/stats/overview"

unfoldable pub get_player_leaderboard : Timeframe → ℕ → Text
get_player_leaderboard timeframe limit =
    codes "/api/v1/leaderboards/players?timeframe="
    ++ timeframe_text timeframe
    ++ codes "&limit="
    ++ decimal limit

unfoldable pub build_reveal_auth : Text → Text
build_reveal_auth ticket_id = codes "/api/v1/tickets/" ++ ticket_id ++ codes "/reveal-auth"

unfoldable pub get_claim_precheck : Text → Text
get_claim_precheck ticket_id = codes "/api/v1/tickets/" ++ ticket_id ++ codes "/claim-precheck"

unfoldable pub get_pool : Text → Text
get_pool pool_id = codes "/api/v1/pools/" ++ pool_id

unfoldable pub get_pool_current_round : Text → Text
get_pool_current_round pool_id = codes "/api/v1/pools/" ++ pool_id ++ codes "/rounds/current"

unfoldable pub get_purchase_context : Text → Text
get_purchase_context pool_id = codes "/api/v1/pools/" ++ pool_id ++ codes "/purchase-context"

unfoldable pub get_creator_summary : Text → Text
get_creator_summary address = codes "/api/v1/users/" ++ address ++ codes "/created-pools/summary"

unfoldable pub finalize_pool : Text → Text
finalize_pool pool_id = codes "/api/v1/pools/" ++ pool_id ++ codes "/finalize"

unfoldable pub user_settings : Text → Text
user_settings address = codes "/api/v1/users/" ++ address ++ codes "/settings"
