-- ===== src/Profile/Overview.antt =====
-- packages/nextjs/components/profile/OverviewPanel.tsx: the decryption of the balance, the figures
-- of the tickets and the list of what happened last. The wallet, the relayer, viem's getAddress and
-- the formats of amounts are parameters.
use lucky_scratch.Prelude.{
  ℕ, max, Bool, not, ◌&&◌, Option, none, some, List, [], ◌∷◌, ◌++◌, map, leb, ◌==◌, sum_by, take,
  if◌then◌else◌,
}
use lucky_scratch.Prelude.Texts.{Text, codes, is_empty, trim, to_upper}
use lucky_scratch.Prelude.Decimal.{decimal}
use lucky_scratch.Prelude.Int.{ℤ, pos, big_int}
use lucky_scratch.Prelude.Sorting.{sort_by}
use lucky_scratch.Types.{LuckyScratchTicket}
use lucky_scratch.Claim.{
  ClearValue, boolean, big, integer, not_integer, string, lookup, first_value, or_try,
}
use lucky_scratch.Vault.{status_text}
use lucky_scratch.Faucet.{Failure, error, other, Answer, threw, gave, Note, failure, success}

-- A part of the `try` block: the stages that it sets, in their order, and its answer.
abbrev pub Staged : Type 0 → Type 0
Staged A = List Text × Answer A

infixl 5 ◌>>=◌ ◌>>◌
abbrev pub ◌>>=◌ : {A B : Type 0} → Staged A → (A → Staged B) → Staged B
(stages, r) >>= k = elim r [
  | threw e ↦ (stages, threw e)
  | gave a ↦ let rest = k a in (stages ++ rest.0, rest.1)
]

abbrev pub ◌>>◌ : {A B : Type 0} → Staged A → Staged B → Staged B
m >> k = m >>= λ _. k

abbrev pub wait : {A : Type 0} → Answer A → Staged A
wait r = ([], r)

abbrev pub set_balance_stage : Text → Staged (Unit {0})
set_balance_stage stage = (stage ∷ [], gave tt)

-- What the relayer tells `onProgress` of, while it decrypts.
pub data Progress : Type 0 where
  queued throttled other_progress : Progress

abbrev pub on_progress : List Progress → List Text
on_progress [] = []
on_progress (queued ∷ events) = codes "Queued" ∷ on_progress events
on_progress (throttled ∷ events) = codes "Retrying" ∷ on_progress events
on_progress (other_progress ∷ events) = on_progress events

-- What the panel knows when the button is pressed.
pub record Env : Type 0 where
  pub address : Option Text
  pub has_wallet_client : Bool
  pub chain_id : ℕ
  pub payment_token_contract : Option Text
  pub confidential_balance_handle : Option Text

pub record Services : Type 0 where
  pub ensure_ready : Answer (Unit {0})
  pub get_address : Text → Answer Text
  pub create_instance : Answer (Unit {0})  -- with the key pair and the typed data
  pub sign_typed_data : Answer (Unit {0})
  pub user_decrypt : Text → Text → Text → List Progress × Answer (List (Text × ClearValue))
  pub big_int_message : Text  -- of the error that `BigInt` throws

pub record Panel : Type 0 where
  pub balance_stage : Text
  pub decrypted_cusdc_balance : Option ℤ
  pub notes : List Note

abbrev pub truthy : Option Text → Option Text
truthy none = none
truthy (some s) = if is_empty s then none else some s

-- The address, the token and the handle, where the guard lets them pass.
unfoldable pub ready_to_decrypt : Env → Option (Text × Text × Text)
ready_to_decrypt env =
    if not (env.has_wallet_client && env.chain_id == 11155111)
    then none
    else elim (truthy env.address) [
      | none ↦ none
      | some address ↦ elim (truthy env.payment_token_contract) [
        | none ↦ none
        | some token ↦ elim (truthy env.confidential_balance_handle) [
          | none ↦ none
          | some handle ↦ some (address, token, handle)
        ]
      ]
    ]

-- `BigInt(String(value))`, for a value that is no bigint.
unfoldable pub balance_of : Text → ClearValue → Answer ℤ
unfolding trim
balance_of message (big n) = gave n
balance_of message (integer n) = gave n
balance_of message not_integer = threw (error message)
balance_of message (boolean b) = threw (error message)
balance_of message (string s) =
    if is_empty (trim s)
    then gave (pos 0)
    else elim (big_int (trim s)) [ none ↦ threw (error message) | some n ↦ gave n ]

abbrev pub decrypted_value : Text → List (Text × ClearValue) → Answer ClearValue
decrypted_value handle values = elim (or_try (lookup handle values) (first_value values)) [
  | none ↦ threw (error (codes "Relayer did not return a decrypted cUSDC balance."))
  | some value ↦ gave value
]

unfoldable pub error_message : Failure → Text
error_message (error message) =
    if is_empty message then codes "Balance decryption failed." else message
error_message other = codes "Balance decryption failed."

module _ (services : Services) where
  -- The `try` block, past the guard.
  unfoldable pub decrypt : Text × Text × Text → Staged ℤ
  decrypt (address, token, handle) = do
    set_balance_stage (codes "Preparing")
    wait services.ensure_ready
    user_address ← wait (services.get_address address)
    token_address ← wait (services.get_address token)
    wait services.create_instance
    set_balance_stage (codes "Sign request")
    wait services.sign_typed_data
    set_balance_stage (codes "Decrypting")
    result ←
        let asked = services.user_decrypt handle token_address user_address in
        (on_progress asked.0, asked.1)
    value ← wait (decrypted_value handle result)
    wait (balance_of services.big_int_message value)

  abbrev pub stages_set : List Text → Panel → Panel
  stages_set [] panel = panel
  stages_set (stage ∷ stages) panel = stages_set stages (record panel { balance_stage = stage })

  -- The end of the `try` block, or the `catch` block.
  abbrev pub settled : Answer ℤ → Panel → Panel
  settled (threw e) panel = record panel { notes = panel.notes ++ failure (error_message e) ∷ [] }
  settled (gave balance) panel = record panel {
    decrypted_cusdc_balance = some balance;
    notes = panel.notes ++ success (codes "cUSDC balance decrypted.") ∷ [];
  }

  -- The `finally` block.
  unfoldable pub reset_stage : Panel → Panel
  reset_stage panel = record panel { balance_stage = [] }

  unfoldable pub pressed : Option (Text × Text × Text) → Panel → Panel
  pressed none panel = record panel {
    notes =
        panel.notes
        ++ failure (codes "Connect a Sepolia wallet with a cUSDC balance before decrypting.") ∷ [];
  }
  pressed (some given) panel =
      let run = decrypt given in reset_stage (settled run.1 (stages_set run.0 panel))

  unfoldable pub handle_decrypt_balance : Env → Panel → Panel
  unfolding pressed
  handle_decrypt_balance env panel = pressed (ready_to_decrypt env) panel

unfoldable pub total_winnings_micro : List LuckyScratchTicket → ℕ
total_winnings_micro wins = sum_by LuckyScratchTicket.claim_clear_reward_amount wins

abbrev pub best_from : ℕ → List LuckyScratchTicket → ℕ
best_from best [] = best
best_from best (ticket ∷ wins) = best_from (max best ticket.claim_clear_reward_amount) wins

unfoldable pub best_claimed_reward_micro : List LuckyScratchTicket → ℕ
best_claimed_reward_micro wins = best_from 0 wins

pub record ActivityItem : Type 0 where
  pub timestamp : Text
  pub operation : Text
  pub details : Text
  pub status : Text

abbrev pub ticket_event : LuckyScratchTicket → ActivityItem
ticket_event ticket = record {
  timestamp = ticket.created_at;
  operation = codes "TICKET_PURCHASED";
  details =
      codes "Ticket #"
      ++ decimal ticket.ticket_id
      ++ codes " • Pool #"
      ++ decimal ticket.pool_id
      ++ codes " • Round "
      ++ decimal ticket.round_id;
  status = to_upper (status_text ticket.status);
}

module _ (format_usdc_from_micro : ℕ → Text) (time : Text → ℕ) where
  abbrev pub claim_event : LuckyScratchTicket → ActivityItem
  claim_event ticket = record {
    timestamp = ticket.updated_at;
    operation = codes "REWARD_CLAIMED";
    details =
        codes "+"
        ++ format_usdc_from_micro ticket.claim_clear_reward_amount
        ++ codes " USDC • Ticket #"
        ++ decimal ticket.ticket_id;
    status = codes "CLAIMED";
  }

  -- `right - left` by the time of `new Date(timestamp)`.
  abbrev pub comes_before : ActivityItem → ActivityItem → Bool
  comes_before left right = leb (time right.timestamp) (time left.timestamp)

  abbrev pub all_events : List LuckyScratchTicket → List LuckyScratchTicket → List ActivityItem
  all_events claimed_wins tickets = map claim_event claimed_wins ++ map ticket_event tickets

  unfoldable pub activity_items :
      List LuckyScratchTicket → List LuckyScratchTicket → List ActivityItem
  activity_items claimed_wins tickets =
      take 10 (sort_by comes_before (all_events claimed_wins tickets))
