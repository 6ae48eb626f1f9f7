-- ===== src/Deploy/Tests.antt =====
-- A deployment to the test network, and a confirmed one to the main network.
use lucky_scratch.Prelude.{
  arith, ◌≡◌, ◌⊎◌, refl, Bool, true, false, Option, none, some, List, [], ◌∷◌, any, if◌then◌else◌,
  length,
}
use lucky_scratch.Prelude.Texts.{Text, codes, text_eq}
use lucky_scratch.Deploy.Env.{
  Numeric, not_a_number, Environment, Settings, Result, threw, gave, mainnet, sepolia,
  missing_subscription_id, read_settings, get_subscription_id,
}
use lucky_scratch.Deploy.{Contract, vrf_adapter, Services, deploy_lucky_scratch, contract_name}
use lucky_scratch.Deploy.Laws.{IsWired, deploy_lucky_scratch-IsWired}

-- Each contract is deployed to the address that is its own name.
abbrev services : Services
services = record {
  has_record = λ c. text_eq (contract_name c) (contract_name vrf_adapter);
  delete_deployment = λ c. true;
  deploy = λ c arguments skip. some (contract_name c);
  execute = λ c setter value. true;
}

abbrev env : Environment
env key =
    if text_eq key (codes "CHAINLINK_VRF_SUBSCRIPTION_ID_SEPOLIA")
    then some (codes "42")
    else if text_eq key (codes "CHAINLINK_VRF_SUBSCRIPTION_ID")
    then some (codes "7")
    else if text_eq key (codes "LUCKY_SCRATCH_FORCE_MAINNET_REDEPLOY")
    then some (codes " True ")
    else none

abbrev number_of : Text → Numeric
number_of value = not_a_number

-- The variable of the network is set and empty, which hides the general one.
abbrev blank_env : Environment
blank_env key =
    if text_eq key (codes "CHAINLINK_VRF_SUBSCRIPTION_ID_SEPOLIA")
    then some []
    else if text_eq key (codes "CHAINLINK_VRF_SUBSCRIPTION_ID")
    then some (codes "7")
    else none

hidden_test : get_subscription_id blank_env sepolia ≡ threw missing_subscription_id
unfolding get_subscription_id
hidden_test = refl

calls_test : length (deploy_lucky_scratch services number_of env (codes "me") sepolia).0 ≡ 11
unfolding deploy_lucky_scratch read_settings lucky_scratch.Deploy.Env.parse_boolean_env
    lucky_scratch.Deploy.Env.cusdc_by_network lucky_scratch.Deploy.Env.vrf_by_network
    lucky_scratch.Deploy.Env.is_unconfirmed get_subscription_id lucky_scratch.Prelude.Int.big_int
    lucky_scratch.Deploy.Env.parse_integer_env lucky_scratch.Deploy.deploy_with
calls_test = refl

deploy_lucky_scratch-IsWired_example :
    (s : Settings) × (read_settings number_of env sepolia ≡ gave s)
    × IsWired services
        (codes "me")
        s
        (deploy_lucky_scratch services number_of env (codes "me") sepolia)
unfolding deploy_lucky_scratch read_settings lucky_scratch.Deploy.Env.parse_boolean_env
    lucky_scratch.Deploy.Env.cusdc_by_network lucky_scratch.Deploy.Env.vrf_by_network
    lucky_scratch.Deploy.Env.is_unconfirmed get_subscription_id lucky_scratch.Prelude.Int.big_int
    lucky_scratch.Deploy.Env.parse_integer_env lucky_scratch.Deploy.deploy_with
deploy_lucky_scratch-IsWired_example =
    deploy_lucky_scratch-IsWired services number_of env (codes "me") sepolia refl
