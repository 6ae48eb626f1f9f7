-- ===== src/Deploy.antt =====
-- The deployment of the contracts: packages/hardhat/deploy/02_deploy_lucky_scratch.ts. hardhat-deploy
-- is a parameter: what each of its calls answers. A run lists the calls in their order, up to the
-- first that throws; messages of the log are left out.
pub mod Env
pub mod Laws
mod Tests
use lucky_scratch.Prelude.{
  ℕ, Bool, true, false, Option, none, some, List, [], ◌∷◌, ◌++◌, if◌then◌else◌,
}
use lucky_scratch.Prelude.Texts.{Text, codes}
use lucky_scratch.Prelude.Int.{ℤ, pos}
use lucky_scratch.Deploy.Env.{
  Numeric, Environment, Settings, Failure, call_failed, Result, threw, gave, read_settings,
}

-- `LUCKY_SCRATCH_CONTRACT_NAMES`
pub data Contract : Type 0 where
  ticket treasury vrf_adapter core : Contract

abbrev pub contract_name : Contract → Text
contract_name ticket = codes "LuckyScratchTicket"
contract_name treasury = codes "LuckyScratchTreasury"
contract_name vrf_adapter = codes "LuckyScratchVRFAdapter"
contract_name core = codes "LuckyScratchCore"

abbrev pub lucky_scratch_contract_names : List Contract
lucky_scratch_contract_names = ticket ∷ treasury ∷ vrf_adapter ∷ core ∷ []

-- An argument of a constructor.
pub data Argument : Type 0 where
  address : Text → Argument
  number : ℤ → Argument
  flag : Bool → Argument

pub data Setter : Type 0 where
  set_core set_ticket set_treasury set_vrf_adapter : Setter

pub data Call : Type 0 where
  delete : Contract → Call
  deploy : Contract → List Argument → Bool → Call  -- the flag is `skipIfAlreadyDeployed`
  execute : Contract → Setter → Text → Call

pub record Services : Type 0 where
  pub has_record : Contract → Bool  -- `getOrNull` finds a deployment
  pub delete_deployment : Contract → Bool  -- false where it throws
  pub deploy : Contract → List Argument → Bool → Option Text  -- the address, none where it throws
  pub execute : Contract → Setter → Text → Bool

abbrev pub Run : Type 0 → Type 0
Run A = List Call × Result A

infixl 5 ◌>>=◌ ◌>>◌
abbrev pub ◌>>=◌ : {A B : Type 0} → Run A → (A → Run B) → Run B
(calls, r) >>= k = elim r [
  | threw e ↦ (calls, threw e)
  | gave a ↦ let rest = k a in (calls ++ rest.0, rest.1)
]

abbrev pub ◌>>◌ : {A B : Type 0} → Run A → Run B → Run B
m >> k = m >>= λ _. k

abbrev pub done : Bool → Result (Unit {0})
done true = gave tt
done false = threw call_failed

abbrev pub answered : Option Text → Result Text
answered none = threw call_failed
answered (some a) = gave a

module _ (services : Services) where
  abbrev pub deleting : List Contract → Run (Unit {0})
  deleting [] = ([], gave tt)
  deleting (c ∷ cs) =
      let rest : Run (Unit {0}) = deleting cs in
      if services.has_record c
      then (delete c ∷ [], done (services.delete_deployment c)) >> rest
      else rest

  unfoldable pub delete_lucky_scratch_deployment_records : Run (Unit {0})
  delete_lucky_scratch_deployment_records = deleting lucky_scratch_contract_names

  abbrev pub deployed : Contract → List Argument → Bool → Run Text
  deployed c arguments skip =
      (deploy c arguments skip ∷ [], answered (services.deploy c arguments skip))

  abbrev pub executed : Contract → Setter → Text → Run (Unit {0})
  executed c setter value = (execute c setter value ∷ [], done (services.execute c setter value))

  -- The deployments and the links between them, from the settings.
  unfoldable pub deploy_with : Text → Settings → Run (Unit {0})
  unfolding delete_lucky_scratch_deployment_records
  deploy_with deployer s =
      let reuse = s.reuse_existing_deployments in
      do
        if reuse then ([], gave tt) else delete_lucky_scratch_deployment_records
        ticket_address ← deployed ticket (address deployer ∷ []) reuse
        treasury_address ←
            deployed treasury (address deployer ∷ address s.payment_token_address ∷ []) reuse
        vrf_address ←
            deployed vrf_adapter
              (address deployer
                ∷ address s.coordinator
                ∷ number s.subscription_id
                ∷ address s.key_hash
                ∷ number (pos s.callback_gas_limit)
                ∷ number (pos s.request_confirmations)
                ∷ flag s.native_payment
                ∷ [])
              reuse
        core_address ← deployed core (address deployer ∷ []) reuse
        executed ticket set_core core_address
        executed treasury set_core core_address
        executed vrf_adapter set_core core_address
        executed core set_ticket ticket_address
        executed core set_treasury treasury_address
        executed core set_vrf_adapter vrf_address

  abbrev pub with_settings : Text → Result Settings → Run (Unit {0})
  with_settings deployer (threw e) = ([], threw e)
  with_settings deployer (gave s) = deploy_with deployer s

  unfoldable pub deploy_lucky_scratch :
      (Text → Numeric) → Environment → Text → Text → Run (Unit {0})
  deploy_lucky_scratch number_of env deployer network =
      with_settings deployer (read_settings number_of env network)
