-- ===== src/Deploy/Laws.antt =====
-- What a run of the deployment script has done, in every outcome.
use lucky_scratch.Prelude.{
  ◌<◌, length, ◌≡◌, ◌⊎◌, inl, inr, refl, Bool, true, false, some, List, [], ◌∷◌, ◌++◌, map, filter,
  arith, any, if◌then◌else◌, or_else,
}
use lucky_scratch.Prelude.Texts.{Text, codes}
use lucky_scratch.Prelude.Int.{pos}
use lucky_scratch.Deploy.Env.{
  Numeric, Environment, Settings, mainnet, Result, threw, gave, read_settings, parse_boolean_env,
  is_unconfirmed, cusdc_by_network, vrf_by_network,
}
use lucky_scratch.Deploy.{
  Contract, ticket, treasury, vrf_adapter, core, lucky_scratch_contract_names, address, number,
  flag, set_core, set_ticket, set_treasury, set_vrf_adapter, Call, delete, deploy, execute,
  Services, Run, deleting, delete_lucky_scratch_deployment_records, deployed, executed, deploy_with,
  with_settings, deploy_lucky_scratch, done,
}

-- The first four calls past the deletions, with their answers.
pub record Addresses : Type 0 where
  pub at_ticket : Text
  pub at_treasury : Text
  pub at_vrf_adapter : Text
  pub at_core : Text

abbrev pub vrf_arguments : Text → Settings → List (lucky_scratch.Deploy.Argument)
vrf_arguments deployer s =
    address deployer
    ∷ address s.coordinator
    ∷ number s.subscription_id
    ∷ address s.key_hash
    ∷ number (pos s.callback_gas_limit)
    ∷ number (pos s.request_confirmations)
    ∷ flag s.native_payment
    ∷ []

-- A link between the contracts is set.
abbrev pub is_link : Call → Bool
is_link (execute c setter value) = true
is_link _ = false

abbrev pub reuse_of : Environment → Result Bool
reuse_of env = parse_boolean_env (env (codes "LUCKY_SCRATCH_REUSE_EXISTING")) false

abbrev pub confirmed_of : Environment → Result Bool
confirmed_of env = parse_boolean_env (env (codes "LUCKY_SCRATCH_FORCE_MAINNET_REDEPLOY")) false

read_settings-confirmed :
    (number_of : Text → Numeric) (env : Environment) (s : Settings)
    → read_settings number_of env mainnet ≡ gave s
    → (reuse_of env ≡ gave true) ⊎ (confirmed_of env ≡ gave true)
unfolding read_settings is_unconfirmed cusdc_by_network vrf_by_network
read_settings-confirmed number_of env s h = at (reuse_of env) (confirmed_of env) refl refl
  where
    at :
        (r c : Result Bool)
        → reuse_of env ≡ r
        → confirmed_of env ≡ c
        → (reuse_of env ≡ gave true) ⊎ (confirmed_of env ≡ gave true)
    at (threw e) c q q' = absurd (cc (rw q at h))
    at (gave true) c q q' = inl q
    at (gave false) (gave true) q q' = inr q'
    at (gave false) (threw e) q q' = absurd (cc (rw (q, q') at h))
    at (gave false) (gave false) q q' = absurd (cc (rw (q, q') at h))

module _ (services : Services) where
  -- Old records are deleted, unless they are kept.
  abbrev pub deletions : Settings → List Call
  deletions s =
      if s.reuse_existing_deployments
      then []
      else map delete (filter services.has_record lucky_scratch_contract_names)

  abbrev pub wiring : Addresses → List Call
  wiring a =
      execute ticket set_core a.at_core
      ∷ execute treasury set_core a.at_core
      ∷ execute vrf_adapter set_core a.at_core
      ∷ execute core set_ticket a.at_ticket
      ∷ execute core set_treasury a.at_treasury
      ∷ execute core set_vrf_adapter a.at_vrf_adapter
      ∷ []

  abbrev pub deployments : Text → Settings → List Call
  deployments deployer s =
      let reuse = s.reuse_existing_deployments in
      deploy ticket (address deployer ∷ []) reuse
      ∷ deploy treasury (address deployer ∷ address s.payment_token_address ∷ []) reuse
      ∷ deploy vrf_adapter (vrf_arguments deployer s) reuse
      ∷ deploy core (address deployer ∷ []) reuse
      ∷ []

  -- Each address was answered by the deployment of its contract.
  abbrev pub AreAnswered : Text → Settings → Addresses → Type 0
  AreAnswered deployer s a =
      let reuse = s.reuse_existing_deployments in
      (services.deploy ticket (address deployer ∷ []) reuse ≡ some a.at_ticket)
      × (services.deploy treasury (address deployer ∷ address s.payment_token_address ∷ []) reuse
          ≡ some a.at_treasury)
      × (services.deploy vrf_adapter (vrf_arguments deployer s) reuse ≡ some a.at_vrf_adapter)
      × (services.deploy core (address deployer ∷ []) reuse ≡ some a.at_core)

  deleting-done :
      (cs : List Contract)
      → (deleting services cs).1 ≡ gave tt
      → (deleting services cs).0 ≡ map delete (filter services.has_record cs)
  deleting-done [] h = refl
  deleting-done (c ∷ cs) h = ground (arith, deleting-done cs)

  abbrev pub IsWired : Text → Settings → Run (Unit {0}) → Type 0
  IsWired deployer s r =
      (a : Addresses) × AreAnswered deployer s a
      × (r.0 ≡ deletions s ++ deployments deployer s ++ wiring a)

  -- The answers of the deployments, an empty text where one throws.
  abbrev answers_of : Text → Settings → Addresses
  answers_of deployer s =
      let reuse = s.reuse_existing_deployments in
      record {
        at_ticket = or_else (services.deploy ticket (address deployer ∷ []) reuse) [];
        at_treasury =
            or_else
              (services.deploy treasury (address deployer ∷ address s.payment_token_address ∷ [])
                reuse)
              [];
        at_vrf_adapter = or_else (services.deploy vrf_adapter (vrf_arguments deployer s) reuse) [];
        at_core = or_else (services.deploy core (address deployer ∷ []) reuse) [];
      }

  deploy_with-IsWired :
      (deployer : Text) (s : Settings)
      → (deploy_with services deployer s).1 ≡ gave tt
      → IsWired deployer s (deploy_with services deployer s)
  unfolding deploy_with
  deploy_with-IsWired deployer s h = (
    answers_of deployer s,
    (ground arith, ground arith, ground arith, ground arith),
    ground (arith, deleting-done lucky_scratch_contract_names),
  )

  any-deleting : (cs : List Contract) → any is_link (deleting services cs).0 ≡ false
  any-deleting [] = refl
  any-deleting (c ∷ cs) = ground (arith, any-deleting cs)

  deploy_with-AreAnswered :
      (deployer : Text) (s : Settings)
      → any is_link (deploy_with services deployer s).0 ≡ true
      → (a : Addresses) × AreAnswered deployer s a
  unfolding deploy_with
  deploy_with-AreAnswered deployer s h = (
    answers_of deployer s,
    (
      ground (arith, any-deleting lucky_scratch_contract_names),
      ground (arith, any-deleting lucky_scratch_contract_names),
      ground (arith, any-deleting lucky_scratch_contract_names),
      ground (arith, any-deleting lucky_scratch_contract_names),
    ),
  )

  -- Where a run of the deployment script returns, the settings were read; its calls are the
  -- deletions of the old records, unless they are kept, then the four deployments with the
  -- arguments of those settings, then the six links, each with the address that the deployment of
  -- the linked contract answered.
  pub deploy_lucky_scratch-IsWired :
      (number_of : Text → Numeric) (env : Environment) (deployer network : Text)
      → (deploy_lucky_scratch services number_of env deployer network).1 ≡ gave tt
      → (s : Settings) × (read_settings number_of env network ≡ gave s)
        × IsWired deployer s (deploy_lucky_scratch services number_of env deployer network)
  unfolding deploy_lucky_scratch
  deploy_lucky_scratch-IsWired number_of env deployer network h =
      at (read_settings number_of env network) refl h
    where
      at :
          (r : Result Settings)
          → read_settings number_of env network ≡ r
          → (with_settings services deployer r).1 ≡ gave tt
          → (s : Settings) × (read_settings number_of env network ≡ gave s)
            × IsWired deployer s (with_settings services deployer r)
      at (threw e) q h = cc
      at (gave s) q h = (s, q, deploy_with-IsWired deployer s h)

  -- The deployment script links no contract before all four deployments have answered an address.
  pub deploy_lucky_scratch-AreAnswered :
      (number_of : Text → Numeric) (env : Environment) (deployer network : Text)
      → any is_link (deploy_lucky_scratch services number_of env deployer network).0 ≡ true
      → (s : Settings) × (read_settings number_of env network ≡ gave s)
        × (a : Addresses) × AreAnswered deployer s a
  unfolding deploy_lucky_scratch
  deploy_lucky_scratch-AreAnswered number_of env deployer network h =
      at (read_settings number_of env network) refl h
    where
      at :
          (r : Result Settings)
          → read_settings number_of env network ≡ r
          → any is_link (with_settings services deployer r).0 ≡ true
          → (s : Settings) × (read_settings number_of env network ≡ gave s)
            × (a : Addresses) × AreAnswered deployer s a
      at (threw e) q h = cc
      at (gave s) q h = let (a, k) = deploy_with-AreAnswered deployer s h in (s, q, a, k)

  -- On the main network the deployment script makes no call of hardhat-deploy unless the
  -- environment reads as reusing the deployments or as confirming that they are made anew.
  pub deploy_lucky_scratch-confirmed :
      (number_of : Text → Numeric) (env : Environment) (deployer : Text)
      → 0 < length (deploy_lucky_scratch services number_of env deployer mainnet).0
      → (reuse_of env ≡ gave true) ⊎ (confirmed_of env ≡ gave true)
  unfolding deploy_lucky_scratch
  deploy_lucky_scratch-confirmed number_of env deployer h =
      at (read_settings number_of env mainnet) refl h
    where
      at :
          (r : Result Settings)
          → read_settings number_of env mainnet ≡ r
          → 0 < length (with_settings services deployer r).0
          → (reuse_of env ≡ gave true) ⊎ (confirmed_of env ≡ gave true)
      at (threw e) q h = absurd (omega arith)
      at (gave s) q h = read_settings-confirmed number_of env s q
