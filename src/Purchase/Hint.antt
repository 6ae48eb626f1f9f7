-- ===== src/Purchase/Hint.antt =====
-- The line of status under the button of PurchasePage.tsx.
pub mod Laws
use lucky_scratch.Prelude.{Bool, true, false, not, ◌||◌, Option, none, some, if◌then◌else◌, is_some}
use lucky_scratch.Types.{LuckyScratchPurchaseContext, RoundStatus, pending_encryption}
use lucky_scratch.Purchase.{round_ready, current_round_of}
use lucky_scratch.Purchase.Handler.{View, is_encrypting}

pub data Hint : Type 0 where
  connect closing encrypting waiting_vrf no_metadata checking_balance no_balance : Hint
  authorizes submits_indexes assigns_indexes : Hint

-- The read of the balance's handle, besides what the page shows.
pub record BalanceRead : Type 0 where
  pub is_loading : Bool
  pub is_error : Bool

unfoldable pub status_hint : BalanceRead → View → Hint
status_hint read v =
    if not (is_some v.address)
    then connect
    else if v.context.pool.close_requested
    then closing
    else if not (round_ready v.context)
    then (if is_encrypting
          (elim (current_round_of v.context) [ none ↦ none | some r ↦ some r.status ])
        then encrypting
        else waiting_vrf)
    else if not v.operator_check_available
    then no_metadata
    else if read.is_loading
    then checking_balance
    else if read.is_error || not v.has_balance_handle
    then no_balance
    else if not v.treasury_is_operator
    then authorizes
    else if v.context.pool.selectable
    then submits_indexes
    else assigns_indexes
