-- ===== src/Relayer/Instance.antt =====
-- The instances that sdk.ts makes: `createTicketRelayerInstance` around its loop, and
-- `createSepoliaRelayerInstance`. The SDK's `createInstance` is a parameter of its configuration
-- and the attempt; `loaded` says whether `loadRelayerSDK` succeeded.
pub mod Laws
use lucky_scratch.Prelude.{
  ℕ, Bool, true, false, not, Option, none, some, List, [], ◌∷◌, ◌++◌, ◌==◌, if◌then◌else◌,
}
use lucky_scratch.Prelude.Texts.{Text, codes, trim, is_empty}
use lucky_scratch.Prelude.Decimal.{decimal}
use lucky_scratch.Relayer.{
  Answer, made, threw, SdkError, Attempts, create_with_retry, TargetNetwork, resolve_rpc_url,
  format_create_instance_error,
}
use lucky_scratch.Relayer.Url.{normalize_relayer_url}

-- The fields that are read.
pub record ZamaSdkConfig : Type 0 where
  pub relayer_url : Text
  pub gateway_chain_id : ℕ
  pub acl_contract_address : Text
  pub kms_verifier_contract_address : Text
  pub input_verifier_contract_address : Text
  pub verifying_contract_address_decryption : Text
  pub verifying_contract_address_input_verification : Text

pub record FhevmInstanceConfig : Type 0 where
  pub verifying_contract_address_decryption : Text
  pub verifying_contract_address_input_verification : Text
  pub kms_contract_address : Text
  pub input_verifier_contract_address : Text
  pub acl_contract_address : Text
  pub gateway_chain_id : ℕ
  pub relayer_url : Text
  pub network : Text
  pub chain_id : ℕ
  pub relayer_route_version : ℕ

abbrev pub default_zama_sepolia_relayer_url : Text
default_zama_sepolia_relayer_url = codes "https://relayer.testnet.zama.org/v2"

-- `process.env.NEXT_PUBLIC_ZAMA_RELAYER_URL?.trim() || DEFAULT_ZAMA_SEPOLIA_RELAYER_URL`
unfoldable pub configured_relayer_url : Option Text → Text
configured_relayer_url none = default_zama_sepolia_relayer_url
configured_relayer_url (some url) =
    if is_empty (trim url) then default_zama_sepolia_relayer_url else trim url

unfoldable pub zama_sepolia_sdk_config : Option Text → ZamaSdkConfig
zama_sepolia_sdk_config env = record {
  relayer_url = configured_relayer_url env;
  gateway_chain_id = 10901;
  acl_contract_address = codes "0xf0Ffdc93b7E186bC2f8CB3dAA75D86d1930A433D";
  kms_verifier_contract_address = codes "0xbE0E383937d564D7FF0BC3b46c51f0bF8d5C311A";
  input_verifier_contract_address = codes "0xBBC1fFCdc7C316aAAd72E807D9b0272BE8F84DA0";
  verifying_contract_address_decryption = codes "0x5D8BD78e2ea6bbE41f26dFe9fdaEAa349e077478";
  verifying_contract_address_input_verification =
      codes "0x483b9dE06E4E4C7D35CCf5837A1668487406D955";
}

-- How the making ends.
pub data Made (A : Type 0) : Type 0 where
  instance_made : A → Made A
  not_loaded : Made A
  failed : Text → Made A

abbrev pub given : Option Text → Option Text
given none = none
given (some s) = if is_empty s then none else some s

unfoldable pub instance_config : ℕ → ZamaSdkConfig → Text → FhevmInstanceConfig
instance_config chain_id sdk network = record {
  verifying_contract_address_decryption = sdk.verifying_contract_address_decryption;
  verifying_contract_address_input_verification = sdk.verifying_contract_address_input_verification;
  kms_contract_address = sdk.kms_verifier_contract_address;
  input_verifier_contract_address = sdk.input_verifier_contract_address;
  acl_contract_address = sdk.acl_contract_address;
  gateway_chain_id = sdk.gateway_chain_id;
  relayer_url = normalize_relayer_url sdk.relayer_url;
  network = network;
  chain_id = chain_id;
  relayer_route_version = 2;
}

module _ {A : Type 0} (loaded : Bool) (create_instance : FhevmInstanceConfig → ℕ → Answer A) where
  -- After the loop: the instance, or the message about the last error.
  abbrev pub ended : Text → Option (Answer A) → Made A
  ended relayer_url (some (made i)) = instance_made i
  ended relayer_url (some (threw e)) = failed (format_create_instance_error e relayer_url)
  ended relayer_url none = not_loaded

  abbrev pub with_network : ℕ → ZamaSdkConfig → Option Text → Made A
  with_network chain_id sdk none = failed (
      codes "No RPC URL is configured for chain "
      ++ decimal chain_id
      ++ codes ". Add the network to scaffold.config.ts or set an override.")
  with_network chain_id sdk (some network) =
      ended (normalize_relayer_url sdk.relayer_url)
        (create_with_retry (create_instance (instance_config chain_id sdk network))).answer

  unfoldable pub create_ticket_relayer_instance :
      List (ℕ × Text) → List TargetNetwork → ℕ → ZamaSdkConfig → Made A
  create_ticket_relayer_instance overrides networks chain_id sdk =
      if not loaded
      then not_loaded
      else with_network chain_id sdk (given (resolve_rpc_url overrides networks chain_id))

  unfoldable pub create_sepolia_relayer_instance :
      List (ℕ × Text) → List TargetNetwork → Option Text → ℕ → Made A
  unfolding create_ticket_relayer_instance
  create_sepolia_relayer_instance overrides networks env chain_id =
      if chain_id == 11155111
      then create_ticket_relayer_instance overrides networks chain_id (zama_sepolia_sdk_config env)
      else failed (codes "Zama balance decryption is currently configured for Sepolia only.")
