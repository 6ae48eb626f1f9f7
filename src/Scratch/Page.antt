-- ===== src/Scratch/Page.antt =====
-- When a preparation starts: the early returns of `prepareScratchResults`, the effect that starts
-- it, and the retry, of packages/nextjs/components/scratch/ScratchPage.tsx.
pub mod Laws
mod Tests
use lucky_scratch.Prelude.{
  ℕ, ◌+◌, suc, Bool, true, false, not, ◌&&◌, ◌||◌, Option, none, some, List, [], ◌∷◌, ◌++◌, ◌==◌,
  length, find?, if◌then◌else◌,
}
use lucky_scratch.Prelude.Texts.{Text, codes, text_eq, to_lower, is_empty}
use lucky_scratch.Prelude.Decimal.{decimal}

abbrev pub supported_scratch_chain_ids : List ℕ
supported_scratch_chain_ids = 11155111 ∷ 31337 ∷ []

-- What the hooks give to a render.
pub record Inputs : Type 0 where
  pub address : Option Text
  pub chain_id : Option ℕ
  pub has_public_client : Bool
  pub core_contract : Option Text
  pub has_ticket_contract : Bool
  pub is_loading : Bool
  pub is_write_contract_ready : Bool
  pub ticket_ids : List Text

-- `prepareError`, `preparationRunKeyRef.current`, and how many preparations went past the returns.
pub record Page : Type 0 where
  pub prepare_error : Option Text
  pub run_key : Text
  pub started : ℕ

abbrev pub scratch_chain_id : Option ℕ → Option ℕ
scratch_chain_id none = none
scratch_chain_id (some chain) = find? (λ c. c == chain) supported_scratch_chain_ids

-- What a guard decides.
pub data Verdict : Type 0 where
  stop : Verdict
  report : Text → Verdict
  go : Verdict

abbrev pub or_stop : Bool → Verdict → Verdict
or_stop b rest = if b then stop else rest

abbrev pub or_report : Bool → Text → Verdict → Verdict
or_report b message rest = if b then report message else rest

abbrev pub is_none : {A : Type 0} → Option A → Bool
is_none none = true
is_none (some a) = false

abbrev pub missing : Option Text → Bool
missing none = true
missing (some s) = is_empty s

abbrev pub missing_number : Option ℕ → Bool
missing_number none = true
missing_number (some n) = n == 0

abbrev pub is_nil : List Text → Bool
is_nil [] = true
is_nil (id ∷ ids) = false

unfoldable pub prepare_guard : Inputs → Verdict
prepare_guard i = or_stop (missing i.address) (
    or_report (missing_number i.chain_id)
      (codes "Connect to a supported network before opening tickets.")
      (or_report (is_none (scratch_chain_id i.chain_id))
        (codes "Switch to Sepolia before opening tickets.")
        (or_report (not i.has_public_client || is_none i.core_contract || not i.has_ticket_contract)
          (codes "Contract info is not available yet.")
          (or_report (not i.is_write_contract_ready) (codes "Contract info is not available yet.")
            (or_stop (is_nil i.ticket_ids) go)))))

unfoldable pub effect_guard : Inputs → Verdict
effect_guard i = or_stop (missing i.address || missing_number i.chain_id || is_nil i.ticket_ids) (
    or_report (is_none (scratch_chain_id i.chain_id))
      (codes "Switch to Sepolia before opening tickets.")
      (or_stop (not i.has_public_client) (
        if is_none i.core_contract || not i.has_ticket_contract
        then if i.is_loading
          then stop
          else report (
              codes
                "LuckyScratch contracts are not deployed on the connected network. Switch to Sepolia.")
        else or_stop (not i.is_write_contract_ready) go)))

-- `setPrepareError(null)` once the preparation goes on.
abbrev pub start_on : Verdict → Page → Page
start_on stop page = page
start_on (report message) page = record page { prepare_error = some message }
start_on go page = record page { prepare_error = none; started = suc page.started }

unfoldable pub start : Inputs → Page → Page
start i page = start_on (prepare_guard i) page

abbrev pub join_commas : List Text → Text
join_commas [] = []
join_commas (id ∷ []) = id
join_commas (id ∷ more) = id ++ b',' ∷ join_commas more

abbrev pub text_of : Option Text → Text
text_of none = codes "undefined"
text_of (some s) = s

abbrev pub number_of : Option ℕ → Text
number_of none = codes "undefined"
number_of (some n) = decimal n

unfoldable pub run_key_of : Inputs → Text
run_key_of i =
    to_lower (text_of i.address)
    ++ b':' ∷ number_of (scratch_chain_id i.chain_id)
    ++ b':' ∷ text_of i.core_contract
    ++ b':' ∷ join_commas i.ticket_ids

abbrev pub effect_on : Verdict → Inputs → Page → Page
effect_on stop i page = page
effect_on (report message) i page = record page { prepare_error = some message }
effect_on go i page =
    if text_eq page.run_key (run_key_of i)
    then page
    else start i (record page { run_key = run_key_of i })

-- The effect that starts a preparation once for a key.
unfoldable pub prepare_effect : Inputs → Page → Page
prepare_effect i page = effect_on (effect_guard i) i page

unfoldable pub retry_prepare_scratch_results : Inputs → Page → Page
retry_prepare_scratch_results i page = start i (record page { run_key = [] })

-- `revealPreparedScratch`: whether the promise is kept.
unfoldable pub reveal_prepared_scratch : Bool → List Text → Bool
reveal_prepared_scratch are_results_ready scratchable_ticket_ids =
    are_results_ready && not (length scratchable_ticket_ids == 0)

unfoldable pub visible_scratchable_ticket_ids : Bool → List Text → List Text → List Text
visible_scratchable_ticket_ids has_checked scratchable_ticket_ids ticket_ids =
    if has_checked then scratchable_ticket_ids else ticket_ids
