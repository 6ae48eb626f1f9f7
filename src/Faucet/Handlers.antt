-- ===== src/Faucet/Handlers.antt =====
-- The buttons of packages/nextjs/components/faucet/CusdcFaucetPage.tsx.
use lucky_scratch.Prelude.{Bool, not, ◌&&◌, ◌||◌, none, some, List, [], ◌∷◌, ◌++◌, if◌then◌else◌}
use lucky_scratch.Prelude.Texts.{Text, codes}
use lucky_scratch.Claim.{ClearValue, lookup, first_value, or_try}
use lucky_scratch.Faucet.{
  get_operator_expiry, amount_micro, error, Answer, threw, gave, Call, mint, approve, wrap,
  set_operator, failure, Page, Env, Services, Action, ◌>>=◌, ◌>>◌, ask, set_stage,
  set_balance_stage, set_balance, invalidate_reads, notify, succeed, attempt, attempt_balance,
  is_given, given, is_sepolia, can_use_faucet, allowance_ready, to_big_int_balance,
}

abbrev pub refuse : Text → Page → Page
refuse message page = notify (failure message) page

-- The buttons of the page.
pub data Button : Type 0 where
  mint_usdc approve_wrapper wrap_cusdc mint_and_wrap authorize_treasury decrypt_balance : Button

module _ (services : Services) (env : Env) where
  -- A transaction that is sent and waited for.
  abbrev pub write_contract : Call → Action (Unit {0})
  write_contract call page =
      (record page { sent = page.sent ++ call ∷ [] }, services.write_contract call)

  abbrev pub minting : Action (Unit {0})
  minting = do
    set_stage (codes "Minting testnet USDC...")
    write_contract (mint (given env.address) (amount_micro env.amount_usdc))

  abbrev pub approving : Action (Unit {0})
  approving = do
    set_stage (codes "Approving wrapper...")
    write_contract (approve (given env.cusdc_contract) (amount_micro env.amount_usdc))

  abbrev pub wrapping : Action (Unit {0})
  wrapping = do
    set_stage (codes "Wrapping into confidential cUSDC...")
    write_contract (wrap (given env.address) (amount_micro env.amount_usdc))
    set_balance none

  -- The end of every handler's `try`.
  abbrev pub finishing : Text → Action (Unit {0})
  finishing message = do invalidate_reads; succeed message

  unfoldable pub handle_mint_underlying : Page → Page
  handle_mint_underlying page =
      if not (is_given env.address) || not (can_use_faucet env)
      then refuse (codes "Connect a Sepolia wallet before minting.") page
      else attempt (do minting; finishing (codes "Underlying mock USDC minted.")) page

  unfoldable pub handle_approve_wrapper : Page → Page
  handle_approve_wrapper page =
      if not (is_given env.cusdc_contract) || not (can_use_faucet env)
      then refuse (codes "cUSDC wrapper metadata is unavailable.") page
      else attempt (do approving; finishing (codes "Wrapper approval completed.")) page

  unfoldable pub handle_wrap : Page → Page
  handle_wrap page =
      if not (is_given env.address) || not (can_use_faucet env)
      then refuse (codes "Connect a Sepolia wallet before wrapping.") page
      else if not (allowance_ready env)
      then refuse (codes "Approve the wrapper before wrapping.") page
      else attempt (do wrapping; finishing (codes "Confidential cUSDC minted.")) page

  unfoldable pub handle_mint_approve_wrap : Page → Page
  handle_mint_approve_wrap page =
      if not (is_given env.address) || not (can_use_faucet env)
      then refuse (codes "Connect a Sepolia wallet before using the faucet.") page
      else if not (is_given env.cusdc_contract)
      then refuse (codes "cUSDC wrapper metadata is unavailable.") page
      else attempt
          (do minting; approving; wrapping; finishing (codes "cUSDC faucet flow completed.")) page

  unfoldable pub handle_authorize_treasury : Page → Page
  handle_authorize_treasury page =
      if not (is_given env.treasury_contract) || not (is_given env.address)
      then refuse (codes "LuckyScratchTreasury metadata is unavailable.") page
      else attempt
          (do
            set_stage (codes "Authorizing Treasury operator...")
            write_contract
                (set_operator (given env.treasury_contract) (get_operator_expiry env.now))
            finishing (codes "Treasury operator authorization completed."))
          page

  -- `result[balanceHandle] ?? Object.values(result)[0]`, or the error.
  abbrev pub decrypted_value : Text → List (Text × ClearValue) → Answer ClearValue
  decrypted_value handle values = elim (or_try (lookup handle values) (first_value values)) [
    | none ↦ threw (error (codes "Relayer did not return a decrypted cUSDC balance."))
    | some value ↦ gave value
  ]

  abbrev pub decrypting : Action (Unit {0})
  decrypting = do
    set_balance_stage (codes "Preparing")
    ask services.ensure_ready
    user ← ask (services.get_address (given env.address))
    token ← ask (services.get_address (given env.cusdc_contract))
    ask services.create_instance
    set_balance_stage (codes "Sign request")
    ask services.sign_typed_data
    set_balance_stage (codes "Decrypting")
    values ← ask (services.user_decrypt (given env.confidential_balance_handle) token)
    value ← ask (decrypted_value (given env.confidential_balance_handle) values)
    balance ← ask (to_big_int_balance services.big_int_message value)
    set_balance (some balance)
    succeed (codes "cUSDC balance decrypted.")

  abbrev pub can_decrypt_balance : Bool
  can_decrypt_balance =
      is_given env.address
      && env.has_wallet_client
      && is_sepolia env
      && is_given env.cusdc_contract
      && is_given env.confidential_balance_handle

  unfoldable pub handle_decrypt_balance : Page → Page
  handle_decrypt_balance page =
      if not can_decrypt_balance
      then refuse (codes "Connect a Sepolia wallet with a cUSDC balance handle before decrypting.")
          page
      else attempt_balance decrypting page

  unfoldable pub press : Button → Page → Page
  press mint_usdc page = handle_mint_underlying page
  press approve_wrapper page = handle_approve_wrapper page
  press wrap_cusdc page = handle_wrap page
  press mint_and_wrap page = handle_mint_approve_wrap page
  press authorize_treasury page = handle_authorize_treasury page
  press decrypt_balance page = handle_decrypt_balance page
