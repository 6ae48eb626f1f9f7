-- ===== src/Deploy/Env.antt =====
-- The settings of a deployment: the environment variables and the networks that
-- packages/hardhat/deploy/02_deploy_lucky_scratch.ts knows. `Number` on a text is a parameter.
use lucky_scratch.Prelude.{
  ℕ, Bool, true, false, not, ◌&&◌, ◌||◌, Option, none, some, ◌++◌, if◌then◌else◌, or_else,
}
use lucky_scratch.Prelude.Texts.{Text, codes, text_eq, trim, to_lower, to_upper, is_empty}
use lucky_scratch.Prelude.Int.{ℤ, pos, big_int}

pub record VrfNetworkConfig : Type 0 where
  pub coordinator : Text
  pub key_hash : Text
  pub callback_gas_limit : ℕ
  pub request_confirmations : ℕ
  pub native_payment : Bool

abbrev pub mainnet : Text
mainnet = codes "mainnet"

abbrev pub sepolia : Text
sepolia = codes "sepolia"

unfoldable pub cusdc_by_network : Text → Option Text
cusdc_by_network network =
    if text_eq network mainnet
    then some (codes "0xe978F22157048E5DB8E5d07971376e86671672B2")
    else if text_eq network sepolia
    then some (codes "0x7c5BF43B851c1dff1a4feE8dB225b87f2C223639")
    else none

unfoldable pub vrf_by_network : Text → Option VrfNetworkConfig
vrf_by_network network =
    if text_eq network mainnet
    then some (record {
      coordinator = codes "0xD7f86b4b8Cae7D942340FF628F82735b7a20893a";
      key_hash = codes "0x8077df514608a09f83e4e8d300645594e5d7234665448ba83f51a50f842bd3d9";
      callback_gas_limit = 2000000;
      request_confirmations = 3;
      native_payment = true;
    })
    else if text_eq network sepolia
    then some (record {
      coordinator = codes "0x9DdfaCa8183c41ad55329BdeeD9F6A8d53168B1B";
      key_hash = codes "0x787d74caea10b2b357790d5b5247c2f63d1d91572a9846f780606e4d953677ae";
      callback_gas_limit = 2000000;
      request_confirmations = 3;
      native_payment = true;
    })
    else none

-- The errors that the script throws, and one for a call of hardhat-deploy that throws.
pub data Failure : Type 0 where
  invalid_boolean invalid_integer invalid_subscription_id : Text → Failure
  missing_subscription_id no_payment_token no_coordinator mainnet_unconfirmed : Failure
  call_failed : Failure

pub data Result (A : Type 0) : Type 0 where
  threw : Failure → Result A
  gave : A → Result A

infixl 5 ◌>>=◌ ◌>>◌
abbrev pub ◌>>=◌ : {A B : Type 0} → Result A → (A → Result B) → Result B
threw e >>= k = threw e
gave a >>= k = k a

abbrev pub ◌>>◌ : {A B : Type 0} → Result A → Result B → Result B
m >> k = m >>= λ _. k

abbrev pub given : {A : Type 0} → Failure → Option A → Result A
given e none = threw e
given e (some a) = gave a

-- `value == null || value === ""`
abbrev pub boolean_of : Text → Text → Result Bool
boolean_of value normalized =
    if text_eq normalized (codes "true") || text_eq normalized (codes "1")
    then gave true
    else if text_eq normalized (codes "false") || text_eq normalized (codes "0")
    then gave false
    else threw (invalid_boolean value)

unfoldable pub parse_boolean_env : Option Text → Bool → Result Bool
unfolding trim
parse_boolean_env none default = gave default
parse_boolean_env (some value) default =
    if is_empty value then gave default else boolean_of value (to_lower (trim value))

-- What `Number` makes of a text.
pub data Numeric : Type 0 where
  integer : ℤ → Numeric
  fraction not_a_number infinite : Numeric

abbrev pub integer_of : Text → Numeric → Result ℕ
integer_of value (integer (pos n)) = gave n
integer_of value _ = threw (invalid_integer value)

unfoldable pub parse_integer_env : (Text → Numeric) → Option Text → ℕ → Result ℕ
parse_integer_env number none fallback = gave fallback
parse_integer_env number (some value) fallback =
    if is_empty value then gave fallback else integer_of value (number value)

-- `process.env`
abbrev pub Environment : Type 0
Environment = Text → Option Text

-- `left ?? right`
abbrev pub or_other : Option Text → Option Text → Option Text
or_other (some s) other = some s
or_other none other = other

abbrev pub subscription_of : Option Text → Result ℤ
subscription_of none = threw missing_subscription_id
subscription_of (some raw) =
    if is_empty raw
    then threw missing_subscription_id
    else if is_empty (trim raw)
    then gave (pos 0)
    else given (invalid_subscription_id raw) (big_int (trim raw))

unfoldable pub get_subscription_id : Environment → Text → Result ℤ
unfolding trim
get_subscription_id env network = subscription_of (
    or_other (env (codes "CHAINLINK_VRF_SUBSCRIPTION_ID_" ++ to_upper network))
      (env (codes "CHAINLINK_VRF_SUBSCRIPTION_ID")))

pub record Settings : Type 0 where
  pub reuse_existing_deployments : Bool
  pub payment_token_address : Text
  pub coordinator : Text
  pub subscription_id : ℤ
  pub key_hash : Text
  pub callback_gas_limit : ℕ
  pub request_confirmations : ℕ
  pub native_payment : Bool

-- The third guard: a redeployment of the main network has to be confirmed.
unfoldable pub is_unconfirmed : Text → Bool → Bool → Bool
is_unconfirmed network reuse confirmed = text_eq network mainnet && not reuse && not confirmed

abbrev pub confirmed_or_threw : Bool → Result (Unit {0})
confirmed_or_threw true = threw mainnet_unconfirmed
confirmed_or_threw false = gave tt

-- What the script reads before its first call.
unfoldable pub read_settings : (Text → Numeric) → Environment → Text → Result Settings
read_settings number env network = do
  reuse ← parse_boolean_env (env (codes "LUCKY_SCRATCH_REUSE_EXISTING")) false
  confirmed ← parse_boolean_env (env (codes "LUCKY_SCRATCH_FORCE_MAINNET_REDEPLOY")) false
  token ← given no_payment_token (cusdc_by_network network)
  vrf ← given no_coordinator (vrf_by_network network)
  confirmed_or_threw (is_unconfirmed network reuse confirmed)
  subscription ← get_subscription_id env network
  gas ←
      parse_integer_env number (env (codes "CHAINLINK_VRF_CALLBACK_GAS_LIMIT"))
        vrf.callback_gas_limit
  confirmations ←
      parse_integer_env number (env (codes "CHAINLINK_VRF_REQUEST_CONFIRMATIONS"))
        vrf.request_confirmations
  native ← parse_boolean_env (env (codes "CHAINLINK_VRF_NATIVE_PAYMENT")) vrf.native_payment
  gave (record {
    reuse_existing_deployments = reuse;
    payment_token_address = token;
    coordinator = or_else (env (codes "CHAINLINK_VRF_COORDINATOR")) vrf.coordinator;
    subscription_id = subscription;
    key_hash = or_else (env (codes "CHAINLINK_VRF_KEY_HASH")) vrf.key_hash;
    callback_gas_limit = gas;
    request_confirmations = confirmations;
    native_payment = native;
  })
