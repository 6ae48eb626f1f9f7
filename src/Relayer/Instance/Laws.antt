-- ===== src/Relayer/Instance/Laws.antt =====
-- What an instance of the relayer was made with.
use lucky_scratch.Prelude.{
  ℕ, ◌≡◌, inl, inr, refl, sym, Bool, true, Option, none, some, List, arith, ◌==◌, Bool-cases,
}
use lucky_scratch.Prelude.Texts.{Text}
use lucky_scratch.Relayer.{Answer, made, threw, create_with_retry, TargetNetwork, resolve_rpc_url}
use lucky_scratch.Relayer.Retry.{create_with_retry_lem}
use lucky_scratch.Relayer.Url.{has_route, normalize_relayer_url, normalize_relayer_url_idem}
use lucky_scratch.Relayer.Instance.{
  FhevmInstanceConfig, instance_made, given, ended, with_network, instance_config,
  zama_sepolia_sdk_config, ZamaSdkConfig, create_ticket_relayer_instance,
  create_sepolia_relayer_instance,
}

-- What a configuration is to hold, field by field, and where it comes from.
pub record IsConfigOf (chain_id : ℕ) (network : Text) (sdk : ZamaSdkConfig)
    (config : FhevmInstanceConfig) : Type 0 where
  pub chain : config.chain_id ≡ chain_id
  pub rpc : config.network ≡ network
  pub relayer : config.relayer_url ≡ normalize_relayer_url sdk.relayer_url
  pub routed : has_route config.relayer_url ≡ true
  pub route_version : config.relayer_route_version ≡ 2
  pub gateway : config.gateway_chain_id ≡ sdk.gateway_chain_id
  pub acl : config.acl_contract_address ≡ sdk.acl_contract_address
  pub kms : config.kms_contract_address ≡ sdk.kms_verifier_contract_address
  pub inputs : config.input_verifier_contract_address ≡ sdk.input_verifier_contract_address
  pub decryption :
      config.verifying_contract_address_decryption ≡ sdk.verifying_contract_address_decryption
  pub verification :
      config.verifying_contract_address_input_verification
      ≡ sdk.verifying_contract_address_input_verification

instance_config-IsConfigOf :
    (chain_id : ℕ) (network : Text) (sdk : ZamaSdkConfig)
    → IsConfigOf chain_id network sdk (instance_config chain_id sdk network)
unfolding instance_config
instance_config-IsConfigOf chain_id network sdk = record {
  chain = refl;
  rpc = refl;
  relayer = refl;
  routed = (normalize_relayer_url_idem sdk.relayer_url).0;
  route_version = refl;
  gateway = refl;
  acl = refl;
  kms = refl;
  inputs = refl;
  decryption = refl;
  verification = refl;
}

module _ {A : Type 0} (loaded : Bool) (create_instance : FhevmInstanceConfig → ℕ → Answer A) where
  -- An attempt with a configuration of the network answered the instance.
  abbrev pub IsMadeWith : ℕ → Text → ZamaSdkConfig → A → Type 0
  IsMadeWith chain_id network sdk i =
      (config : FhevmInstanceConfig) × IsConfigOf chain_id network sdk config
      × (attempt : ℕ) × (create_instance config attempt ≡ made i)

  create_with_retry-made :
      (f : ℕ → Answer A) (i : A)
      → (create_with_retry f).answer ≡ some (made i)
      → (n : ℕ) × (f n ≡ made i)
  create_with_retry-made f i h = elim (create_with_retry_lem f) [
    | inl (e, _) ↦ (1, cc (e.1, h))
    | inr (inl (_, e, _)) ↦ (2, cc (e.1, h))
    | inr (inr (_, _, e, _)) ↦ (3, cc (e.1, h))
  ]

  ended-made :
      (url : Text) (o : Option (Answer A)) (i : A)
      → ended loaded create_instance url o ≡ instance_made i
      → o ≡ some (made i)
  ended-made url none i h = absurd (cc h)
  ended-made url (some (threw e)) i h = absurd (cc h)
  ended-made url (some (made j)) i h = cc h

  -- What is known of an instance on a chain.
  abbrev pub IsMade : List (ℕ × Text) → List TargetNetwork → Option Text → ℕ → A → Type 0
  IsMade overrides networks env chain_id i =
      (chain_id ≡ 11155111)
      × (loaded ≡ true)
      × (network : Text) × (given (resolve_rpc_url overrides networks chain_id) ≡ some network)
      × IsMadeWith 11155111 network (zama_sepolia_sdk_config env) i

  at_chain :
      {m n : ℕ} {network : Text} {sdk : ZamaSdkConfig} {i : A}
      → m ≡ n
      → IsMadeWith m network sdk i
      → IsMadeWith n network sdk i
  at_chain same h = rw (sym same) h

  with_network-made :
      (chain_id : ℕ) (sdk : ZamaSdkConfig) (o : Option Text) (i : A)
      → with_network loaded create_instance chain_id sdk o ≡ instance_made i
      → (network : Text) × (o ≡ some network) × IsMadeWith chain_id network sdk i
  with_network-made chain_id sdk none i h = absurd (cc h)
  with_network-made chain_id sdk (some network) i h =
      let (attempt, made_by) =
        create_with_retry-made (create_instance (instance_config chain_id sdk network)) i
          (ended-made (normalize_relayer_url sdk.relayer_url) _ i h) in
      (
        network,
        refl,
        (
          instance_config chain_id sdk network,
          instance_config-IsConfigOf chain_id network sdk,
          attempt,
          made_by,
        ),
      )

  -- An instance for the decryption of a balance is made only on Sepolia, with the SDK loaded and
  -- an RPC address found for the chain; an attempt of the SDK has answered it for a configuration
  -- whose network is that address, whose chain is Sepolia, whose relayer address is the normal
  -- form of the SDK's and ends in a route version, whose route version is 2 and whose contracts
  -- and gateway are those of the SDK's constants.
  pub create_sepolia_relayer_instance-IsMade :
      (overrides : List (ℕ × Text)) (networks : List TargetNetwork) (env : Option Text)
      (chain_id : ℕ) (i : A)
      → create_sepolia_relayer_instance loaded create_instance overrides networks env chain_id
        ≡ instance_made i
      → IsMade overrides networks env chain_id i
  unfolding create_sepolia_relayer_instance create_ticket_relayer_instance
  create_sepolia_relayer_instance-IsMade overrides networks env chain_id i h =
      elim (Bool-cases (chain_id == 11155111)) [
        | inr other ↦ absurd (cc (rw other at h))
        | inl same ↦ elim (Bool-cases loaded) [
          | inr not_yet ↦ absurd (cc (rw (same, not_yet) at h))
          | inl there ↦
              let o = given (resolve_rpc_url overrides networks chain_id) in
              let sdk = zama_sepolia_sdk_config env in
              let sepolia : chain_id ≡ 11155111 = ground arith in
              let (network, q, w) = with_network-made chain_id sdk o i (rw (same, there) at h) in
              (sepolia, there, network, q, at_chain sepolia w)
        ]
      ]
