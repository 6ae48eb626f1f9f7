-- ===== src/Faucet.antt =====
-- The faucet of test cUSDC: packages/nextjs/components/faucet/CusdcFaucetPage.tsx.
-- A handler is an action on the page that goes on or throws; the wallet, the relayer and viem's
-- getAddress are parameters. The relayer's progress messages and the reads of balances are left out.
pub mod Handlers
pub mod Laws
mod Tests
use lucky_scratch.Prelude.{
  ℕ, ◌+◌, ◌*◌, ◌/◌, suc, min, max, Bool, true, false, not, ◌&&◌, ◌||◌, Option, none, some, List, [],
  ◌∷◌, ◌++◌, leb, ◌==◌, if◌then◌else◌,
}
use lucky_scratch.Prelude.Texts.{Text, codes, trim, is_empty}
use lucky_scratch.Prelude.Int.{ℤ, pos, big_int}
use lucky_scratch.Money.{nano_usdc, to_micro_usdc}
use lucky_scratch.Claim.{
  ClearValue, boolean, big, integer, not_integer, string, lookup, first_value, or_try,
}

abbrev pub max_mint_usdc : ℕ
max_mint_usdc = 1000000

abbrev pub default_mint_usdc : ℕ
default_mint_usdc = 1000

abbrev pub operator_validity_seconds : ℕ
operator_validity_seconds = 60 * 60 * 24 * 365

abbrev pub get_operator_expiry : ℕ → ℕ
get_operator_expiry now = now / 1000 + operator_validity_seconds

-- A number of nano-USDC, `none` where the number is below 0 or NaN; the result is in USDC.
unfoldable pub clamp_mint_amount : Option ℕ → ℕ
clamp_mint_amount none = 1
clamp_mint_amount (some value) =
    min max_mint_usdc (max 1 ((if value == 0 then nano_usdc else value) / nano_usdc))

unfoldable pub amount_micro : ℕ → ℕ
amount_micro amount_usdc =
    to_micro_usdc (clamp_mint_amount (some (amount_usdc * nano_usdc)) * nano_usdc)

-- A value that is thrown: an Error with its message, or anything else.
pub data Failure : Type 0 where
  error : Text → Failure
  other : Failure

unfoldable pub to_error_message : Failure → Text
to_error_message other = codes "Transaction failed."
to_error_message (error message) =
    if is_empty (trim message) then codes "Transaction failed." else message

pub data Answer {ℓ} (A : Type ℓ) : Type ℓ where
  threw : Failure → Answer A
  gave : A → Answer A

pub data Call : Type 0 where
  mint approve wrap set_operator : Text → ℕ → Call

pub data Note : Type 0 where
  failure success : Text → Note

pub record Page : Type 0 where
  pub stage : Text
  pub balance_stage : Text
  pub decrypted_cusdc_balance : Option ℤ
  pub sent : List Call
  pub refreshed : ℕ  -- how often the reads were invalidated
  pub notes : List Note

pub record Env : Type 0 where
  pub address : Option Text
  pub chain_id : ℕ
  pub now : ℕ
  pub cusdc_contract : Option Text
  pub underlying_contract : Option Text
  pub treasury_contract : Option Text
  pub wrap_allowance : Option ℕ
  pub amount_usdc : ℕ
  pub has_wallet_client : Bool
  pub confidential_balance_handle : Option Text

pub record Services : Type 0 where
  pub write_contract : Call → Answer (Unit {0})
  pub ensure_ready : Answer (Unit {0})
  pub get_address : Text → Answer Text
  pub create_instance : Answer (Unit {0})  -- with the key pair and the typed data
  pub sign_typed_data : Answer (Unit {0})
  pub user_decrypt : Text → Text → Answer (List (Text × ClearValue))
  pub big_int_message : Text  -- of the error that `BigInt` throws

abbrev pub Action {ℓ} : Type ℓ → Type ℓ
Action A = Page → Page × Answer A

abbrev pub and_then {ℓ κ} :
    {A : Type ℓ} {B : Type κ} → Page × Answer A → (A → Action B) → Page × Answer B
and_then (page, threw e) rest = (page, threw e)
and_then (page, gave a) rest = rest a page

infixl 5 ◌>>=◌
abbrev pub ◌>>=◌ {ℓ κ} : {A : Type ℓ} {B : Type κ} → Action A → (A → Action B) → Action B
(action >>= rest) page = and_then (action page) rest

infixl 5 ◌>>◌
abbrev pub ◌>>◌ {ℓ κ} : {A : Type ℓ} {B : Type κ} → Action A → Action B → Action B
(action >> rest) page = and_then (action page) (λ a. rest)

abbrev pub ask {ℓ} : {A : Type ℓ} → Answer A → Action A
ask answer page = (page, answer)

abbrev pub set_stage : Text → Action (Unit {0})
set_stage s page = (record page { stage = s }, gave tt)

abbrev pub set_balance_stage : Text → Action (Unit {0})
set_balance_stage s page = (record page { balance_stage = s }, gave tt)

abbrev pub set_balance : Option ℤ → Action (Unit {0})
set_balance b page = (record page { decrypted_cusdc_balance = b }, gave tt)

abbrev pub invalidate_reads : Action (Unit {0})
invalidate_reads page = (record page { refreshed = suc page.refreshed }, gave tt)

abbrev pub notify : Note → Page → Page
notify n page = record page { notes = page.notes ++ n ∷ [] }

abbrev pub succeed : Text → Action (Unit {0})
succeed message page = (notify (success message) page, gave tt)

-- `try { … } catch { … } finally { … }` of the handlers.
abbrev pub caught : Page × Answer (Unit {0}) → Page
caught (page, threw e) = notify (failure (to_error_message e)) page
caught (page, gave a) = page

unfoldable pub attempt : Action (Unit {0}) → Page → Page
attempt action page = record (caught (action page)) { stage = [] }

unfoldable pub attempt_balance : Action (Unit {0}) → Page → Page
attempt_balance action page = record (caught (action page)) { balance_stage = [] }

abbrev pub is_given : Option Text → Bool
is_given none = false
is_given (some s) = not (is_empty s)

abbrev pub given : Option Text → Text
given none = []
given (some s) = s

abbrev pub is_sepolia : Env → Bool
is_sepolia env = env.chain_id == 11155111

unfoldable pub can_use_faucet : Env → Bool
can_use_faucet env =
    is_given env.address
    && is_given env.cusdc_contract
    && is_given env.underlying_contract
    && is_sepolia env

unfoldable pub allowance_ready : Env → Bool
allowance_ready env = elim env.wrap_allowance [
  | none ↦ false
  | some allowance ↦ leb (amount_micro env.amount_usdc) allowance
]

-- `toBigIntBalance`; `BigInt` reads a blank string as 0, and `message` is that of the error it throws.
unfoldable pub to_big_int_balance : Text → ClearValue → Answer ℤ
to_big_int_balance message (big n) = gave n
to_big_int_balance message (integer n) = gave n
to_big_int_balance message not_integer = threw (error message)
to_big_int_balance message (string s) =
    if is_empty (trim s)
    then gave (pos 0)
    else elim (big_int (trim s)) [ none ↦ threw (error message) | some n ↦ gave n ]
to_big_int_balance message (boolean b) =
    threw (error (codes "Unexpected decrypted cUSDC balance type."))
