-- ===== src/Faucet/Laws.antt =====
-- What a press of a button leaves, and what the one-step flow sends.
use lucky_scratch.Prelude.{
  ℕ, suc, ◌*◌, ◌≤◌, ◌<◌, ◌^◌, ◌≡◌, true, Option, none, some, List, [], ◌∷◌, ◌++◌, arith,
  append_assoc, length, length-append,
}
use lucky_scratch.Prelude.Texts.{Text, codes}
use lucky_scratch.Faucet.{
  Failure, threw, gave, Call, mint, approve, wrap, Note, failure, success, Page, Env, Services,
  attempt, attempt_balance, given, can_use_faucet, amount_micro, clamp_mint_amount,
  to_error_message,
}
use lucky_scratch.Faucet.Handlers.{
  Button, mint_usdc, approve_wrapper, wrap_cusdc, mint_and_wrap, authorize_treasury,
  decrypt_balance, press, handle_mint_underlying, handle_approve_wrapper, handle_wrap,
  handle_mint_approve_wrap, handle_authorize_treasury, handle_decrypt_balance, refuse,
}

abbrev IsIdle : Page → Type 0
IsIdle page = (page.stage ≡ []) × (page.balance_stage ≡ [])

-- One message more, and nothing under way.
abbrev Settles : Page → Page → Type 0
Settles page after = IsIdle after × (length after.notes ≡ suc (length page.notes))

refuse-Settles : (message : Text) (page : Page) → IsIdle page → Settles page (refuse message page)
refuse-Settles m page h = ground (arith, length-append page.notes (failure m ∷ []))

module _ (services : Services) (env : Env) where
  mint-Settles :
      (page : Page) → IsIdle page → Settles page (handle_mint_underlying services env page)
  unfolding handle_mint_underlying attempt
  mint-Settles page h = grind (arith, length-append)

  approve-Settles :
      (page : Page) → IsIdle page → Settles page (handle_approve_wrapper services env page)
  unfolding handle_approve_wrapper attempt
  approve-Settles page h = grind (arith, length-append)

  wrap-Settles : (page : Page) → IsIdle page → Settles page (handle_wrap services env page)
  unfolding handle_wrap attempt
  wrap-Settles page h = grind (arith, length-append)

  flow-Settles :
      (page : Page) → IsIdle page → Settles page (handle_mint_approve_wrap services env page)
  unfolding handle_mint_approve_wrap attempt
  flow-Settles page h = grind (arith, length-append)

  authorize-Settles :
      (page : Page) → IsIdle page → Settles page (handle_authorize_treasury services env page)
  unfolding handle_authorize_treasury attempt
  authorize-Settles page h = grind (arith, length-append)

  decrypt-Settles :
      (page : Page) → IsIdle page → Settles page (handle_decrypt_balance services env page)
  unfolding handle_decrypt_balance attempt_balance
  decrypt-Settles page h = grind (arith, length-append)

  -- On a page where nothing is in progress, every button, whatever the wallet, the chain and the
  -- relayer answer, ends with nothing in progress and with exactly one notice more.
  pub press-Settles :
      (b : Button) (page : Page) → IsIdle page → Settles page (press services env b page)
  unfolding press
  press-Settles mint_usdc page h = mint-Settles page h
  press-Settles approve_wrapper page h = approve-Settles page h
  press-Settles wrap_cusdc page h = wrap-Settles page h
  press-Settles mint_and_wrap page h = flow-Settles page h
  press-Settles authorize_treasury page h = authorize-Settles page h
  press-Settles decrypt_balance page h = decrypt-Settles page h

  -- The calls that a sequence of them comes to, where each waits for the one before it.
  abbrev pub sent_of : List Call → List Call
  sent_of [] = []
  sent_of (c ∷ cs) = c ∷ (elim (services.write_contract c) [ threw e ↦ [] | gave a ↦ sent_of cs ])

  -- The first refusal among them, if there is one.
  abbrev pub refusal_of : List Call → Option Failure
  refusal_of [] = none
  refusal_of (c ∷ cs) = elim (services.write_contract c) [
    | threw e ↦ some e
    | gave a ↦ refusal_of cs
  ]

  abbrev pub flow : List Call
  flow =
      mint (given env.address) (amount_micro env.amount_usdc)
      ∷ approve (given env.cusdc_contract) (amount_micro env.amount_usdc)
      ∷ wrap (given env.address) (amount_micro env.amount_usdc)
      ∷ []

  abbrev pub message_of : Option Failure → Note
  message_of none = success (codes "cUSDC faucet flow completed.")
  message_of (some e) = failure (to_error_message e)

  -- Where the faucet can be used, the button for the whole flow sends the calls mint, approve and
  -- wrap of the same amount in this order up to the first that throws, and ends with one notice:
  -- of that failure, or of success where none throws.
  pub handle_mint_approve_wrap_lem :
      (page : Page)
      → can_use_faucet env ≡ true
      → let after = handle_mint_approve_wrap services env page in
        (after.sent ≡ page.sent ++ sent_of flow)
        × (after.notes ≡ page.notes ++ message_of (refusal_of flow) ∷ [])
  unfolding handle_mint_approve_wrap attempt can_use_faucet
  handle_mint_approve_wrap_lem page h = grind (arith, append_assoc)

-- For every whole amount in the field, what is minted is the amount clamped as the field clamps
-- it, in micro-USDC; it is at least one USDC and below 2^64.
pub amount_micro_bounds :
    (amount_usdc : ℕ)
    → (amount_micro amount_usdc ≡ clamp_mint_amount (some (amount_usdc * 1000000000)) * 1000000)
      × (1000000 ≤ amount_micro amount_usdc)
      × (amount_micro amount_usdc < 2 ^ 64)
unfolding amount_micro clamp_mint_amount lucky_scratch.Money.to_micro_usdc
    lucky_scratch.Money.round_div
amount_micro_bounds amount = ground arith
