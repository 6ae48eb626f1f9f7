-- ===== src/Pools.antt =====
-- The pools of a creator: packages/nextjs/components/profile/MyPoolsPanel.tsx. The wallet is a
-- parameter; a transaction is rejected with an Error of a message, or with another value.
pub mod Laws
pub mod Listing
pub mod Refresh
pub mod Order
mod Tests
use lucky_scratch.Prelude.{
  ℕ, zero, ◌+◌, ◌*◌, min, Bool, true, false, not, ◌&&◌, ◌||◌, Option, none, some, List, [], ◌∷◌,
  ◌++◌, ltb, ◌==◌, if◌then◌else◌,
}
use lucky_scratch.Prelude.Texts.{Text, codes, text_eq, to_lower, is_empty}
use lucky_scratch.Prelude.Decimal.{decimal}
use lucky_scratch.Types.{
  LuckyScratchPool, LuckyScratchPoolRound, PoolStatus, closed, RoundStatus, settled,
}
use lucky_scratch.Queries.{Part, text, undefined, Key, root, user_key, creator_part}
use lucky_scratch.Store.{is_closed}

pub data PoolAction : Type 0 where
  withdraw_profit refund_bond close_pool roll_round : PoolAction

unfoldable pub pool_action_label : PoolAction → Text
pool_action_label withdraw_profit = codes "Withdraw"
pool_action_label refund_bond = codes "Refund Bond"
pool_action_label close_pool = codes "Close"
pool_action_label roll_round = codes "Roll Round"

pub data Call : Type 0 where
  withdraw_creator_profit : ℕ → ℕ → Call
  refund close roll : ℕ → Call

abbrev pub is_settled : RoundStatus → Bool
is_settled settled = true
is_settled _ = false

abbrev pub has_settled_round : Option LuckyScratchPoolRound → Bool
has_settled_round none = false
has_settled_round (some round) = is_settled round.status

abbrev pub is_loop : LuckyScratchPool → Bool
is_loop pool = text_eq pool.mode (codes "Loop")

-- The flags of the buttons of a card.
unfoldable pub can_withdraw_profit : LuckyScratchPool → Bool
can_withdraw_profit pool = ltb 0 pool.claimable_creator_profit

unfoldable pub can_refund_bond : LuckyScratchPool → Bool
can_refund_bond pool = is_closed pool.status && ltb 0 pool.locked_bond

unfoldable pub can_close_pool : LuckyScratchPool → Bool
can_close_pool pool = not (is_closed pool.status) && not pool.close_requested

unfoldable pub can_roll_round : LuckyScratchPool → Bool
can_roll_round pool =
    is_loop pool && has_settled_round pool.current_round_state && not pool.close_requested

-- What a call of the mutation comes to before the wallet is asked: an Error or a transaction.
pub data Request : Type 0 where
  refused : Text → Request
  call : Call → Request

abbrev pub connected : Option Text → Bool
connected none = false
connected (some s) = not (is_empty s)

abbrev pub action_request : PoolAction → LuckyScratchPool → Request
action_request withdraw_profit pool =
    if pool.claimable_creator_profit == 0
    then refused (codes "This pool has no claimable creator profit.")
    else call (withdraw_creator_profit pool.pool_id pool.claimable_creator_profit)
action_request refund_bond pool =
    if not (is_closed pool.status) || pool.locked_bond == 0
    then refused (codes "Bond refund is only available after the pool is closed.")
    else call (refund pool.pool_id)
action_request close_pool pool =
    if is_closed pool.status || pool.close_requested
    then refused (codes "This pool is already closed or closing.")
    else call (close pool.pool_id)
action_request roll_round pool =
    if not (is_loop pool)
      || not (has_settled_round pool.current_round_state)
      || pool.close_requested
    then refused (codes "This loop pool is not ready to roll.")
    else call (roll pool.pool_id)

unfoldable pub request_of : Option Text → PoolAction → LuckyScratchPool → Request
request_of address action pool =
    if connected address
    then action_request action pool
    else refused (codes "Connect your wallet before managing creator pools.")

pub data Note : Type 0 where
  success failure : Text → Note

pub record Panel : Type 0 where
  pub selected_pool : Option LuckyScratchPool
  pub sent : List Call
  pub invalidated : List Key
  pub notes : List Note

-- What the wallet answers.
pub data WalletAnswer : Type 0 where
  mined : WalletAnswer
  error : Text → WalletAnswer
  other : WalletAnswer

-- The keys that `onSuccess` invalidates.
unfoldable pub invalidated_keys : Option Text → ℕ → List Key
invalidated_keys address pool_id =
    (text (codes "readContract") ∷ [])
    ∷ root (text (codes "pools") ∷ creator_part address ∷ [])
    ∷ root (text (codes "pools") ∷ text (decimal pool_id) ∷ [])
    ∷ user_key address (text (codes "created-pools") ∷ text (codes "summary") ∷ [])
    ∷ []

abbrev pub on_success : Option Text → PoolAction → LuckyScratchPool → Panel → Panel
on_success address action pool panel = record panel {
  selected_pool = none;
  invalidated = panel.invalidated ++ invalidated_keys address pool.pool_id;
  notes = panel.notes ++ success (pool_action_label action ++ codes " transaction submitted.") ∷ [];
}

abbrev pub on_error : Text → Panel → Panel
on_error message panel = record panel { notes = panel.notes ++ failure message ∷ [] }

module _ (answer : Call → WalletAnswer) (address : Option Text) where
  abbrev pub after_wallet : PoolAction → LuckyScratchPool → WalletAnswer → Panel → Panel
  after_wallet action pool mined panel = on_success address action pool panel
  after_wallet action pool (error message) panel = on_error message panel
  after_wallet action pool other panel = on_error (codes "Pool action failed.") panel

  abbrev pub perform : PoolAction → LuckyScratchPool → Request → Panel → Panel
  perform action pool (refused message) panel = on_error message panel
  perform action pool (call c) panel =
      after_wallet action pool (answer c) (record panel { sent = panel.sent ++ c ∷ [] })

  -- `poolActionMutation.mutate({ pool, action })`
  unfoldable pub mutate : PoolAction → LuckyScratchPool → Panel → Panel
  mutate action pool panel = perform action pool (request_of address action pool) panel
