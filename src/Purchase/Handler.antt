-- ===== src/Purchase/Handler.antt =====
-- `handlePurchase` of PurchasePage.tsx. The wallet, the chain and the backend are parameters: what
-- each call answers, with a message for a call that throws. A run lists the calls in their order,
-- with the query result that the page keeps. A refetch that fails keeps the old query result; the
-- invalidation at the end of a purchase awaits such a refetch.
use lucky_scratch.Prelude.{
  ℕ, Bool, true, false, not, ◌&&◌, Option, none, some, List, [], ◌∷◌, ◌++◌, length, ltb, ◌==◌,
  filter, any, if◌then◌else◌, is_some,
}
use lucky_scratch.Prelude.Texts.{Text, text_eq, codes, includes, is_empty}
use lucky_scratch.Types.{LuckyScratchPurchaseContext, RoundStatus, pending_encryption}
use lucky_scratch.Purchase.{
  Picks, Phase, selecting, authorizing, purchasing, purchased, round_ready, active_count,
  active_ticket_indexes, current_round_of,
}

pub data PurchaseCall : Type 0 where
  with_selection : List ℕ → PurchaseCall
  by_quantity : ℕ → PurchaseCall

-- A `TicketPurchased` event: its pool and its ticket, where they are given.
pub record PurchaseEvent : Type 0 where
  pub pool_id : Option Text
  pub ticket_id : Option Text

-- What `writeContractAsync` answers: a receipt if the block was confirmed, and a hash if there is
-- one.
pub data Written : Type 0 where
  write_failed : Text → Written
  written : Option (List PurchaseEvent) → Option Text → Written

pub record Services : Type 0 where
  pub set_operator : Option Text
  pub refetched : Option LuckyScratchPurchaseContext
  pub write_purchase : PurchaseCall → Written
  pub refetched_after : Option LuckyScratchPurchaseContext

pub data Refusal : Type 0 where
  context_not_ready no_wallet no_operator_check no_balance encrypting waiting_vrf bad_selection :
      Refusal

pub data Call : Type 0 where
  set_phase : Phase → Call
  approve : Call
  refetch : Call
  write : PurchaseCall → Call
  set_minted : List Text → Call
  sync : Text → Call
  invalidate : Call
  warn_sold : Call
  report : Text → Call

pub data Outcome : Type 0 where
  refused : Refusal → Outcome
  failed : Text → Outcome
  bought : List Text → Outcome

-- What the callback closes over when the button is pressed.
pub record View : Type 0 where
  pub pool_id : Text
  pub context : LuckyScratchPurchaseContext
  pub picks : Picks
  pub quick_pick_ids : List Text
  pub address : Option Text
  pub core_contract : Bool
  pub operator_check_available : Bool
  pub treasury_is_operator : Bool
  pub has_balance_handle : Bool
  pub is_gallery_ready : Bool

abbrev pub purchase_indexes : View → List ℕ
purchase_indexes v = active_ticket_indexes v.context v.picks v.quick_pick_ids

unfoldable pub can_submit_purchase : View → Bool
can_submit_purchase v =
    is_some v.address
    && v.core_contract
    && round_ready v.context
    && ltb 0 (active_count v.picks)
    && v.is_gallery_ready
    && v.operator_check_available
    && v.has_balance_handle
    && (if v.context.pool.selectable
        then length (purchase_indexes v) == active_count v.picks
        else true)

abbrev pub is_encrypting : Option RoundStatus → Bool
is_encrypting (some pending_encryption) = true
is_encrypting _ = false

abbrev round_status : View → Option RoundStatus
round_status v = elim (current_round_of v.context) [ none ↦ none | some r ↦ some r.status ]

-- The early returns, in their order.
unfoldable pub refusal : View → Option Refusal
refusal v =
    if not v.core_contract
    then some context_not_ready
    else if not (is_some v.address)
    then some no_wallet
    else if not v.operator_check_available
    then some no_operator_check
    else if not v.has_balance_handle
    then some no_balance
    else if not (round_ready v.context)
    then some (if is_encrypting (round_status v) then encrypting else waiting_vrf)
    else if not (can_submit_purchase v)
    then some bad_selection
    else none

unfoldable pub purchase_call : View → PurchaseCall
purchase_call v =
    if v.context.pool.selectable
    then with_selection (purchase_indexes v)
    else by_quantity (active_count v.picks)

abbrev pub same_pool : Text → Option Text → Bool
same_pool pool none = false
same_pool pool (some id) = text_eq id pool

abbrev pub keep_id : Option Text → List Text → List Text
keep_id none rest = rest
keep_id (some id) rest = if is_empty id then rest else id ∷ rest

-- The tickets of the pool that a receipt names.
unfoldable pub purchased_ticket_ids : Text → List PurchaseEvent → List Text
purchased_ticket_ids pool [] = []
purchased_ticket_ids pool (e ∷ es) =
    let rest = purchased_ticket_ids pool es in
    if same_pool pool e.pool_id then keep_id e.ticket_id rest else rest

abbrev pub has_index : ℕ → List ℕ → Bool
has_index n = any (λ m. m == n)

-- The optimistic update of the query result.
unfoldable pub mark_sold : List ℕ → LuckyScratchPurchaseContext → LuckyScratchPurchaseContext
mark_sold indexes old = record old {
  sold_ticket_indexes = old.sold_ticket_indexes ++ indexes;
  available_ticket_indexes = filter (λ i. not (has_index i indexes)) old.available_ticket_indexes;
}

pub record Run : Type 0 where
  pub calls : List Call
  pub context : LuckyScratchPurchaseContext
  pub outcome : Outcome

abbrev pub refreshed : Services → LuckyScratchPurchaseContext → LuckyScratchPurchaseContext
refreshed s context = elim s.refetched [ none ↦ context | some fresh ↦ fresh ]

-- The refetch that `invalidateQueries` of the purchase context waits for, if it succeeds.
abbrev pub invalidated : Services → LuckyScratchPurchaseContext → LuckyScratchPurchaseContext
invalidated s context = elim s.refetched_after [ none ↦ context | some fresh ↦ fresh ]

-- The `catch` block.
unfoldable pub recover : Services → List Call → LuckyScratchPurchaseContext → Text → Run
recover s calls context message =
    if includes message (codes "TicketIndexAlreadySold")
    then record {
      calls = calls ++ warn_sold ∷ refetch ∷ set_phase selecting ∷ [];
      context = refreshed s context;
      outcome = failed message;
    }
    else record {
      calls = calls ++ report message ∷ set_phase selecting ∷ [];
      context = context;
      outcome = failed message;
    }

abbrev pub after_receipt :
    View
    → Option (List PurchaseEvent)
    → LuckyScratchPurchaseContext
    → LuckyScratchPurchaseContext × List Text
after_receipt v none context = (context, [])
after_receipt v (some events) context =
    (mark_sold (purchase_indexes v) context, purchased_ticket_ids v.pool_id events)

abbrev pub conclude :
    Services → List Call → LuckyScratchPurchaseContext → List Text → Option Text → Run
conclude s calls context ids none =
    recover s calls context (codes "Purchase transaction hash was not returned.")
conclude s calls context [] (some hash) =
    recover s calls context (codes "Purchase receipt did not include TicketPurchased events.")
conclude s calls context (id ∷ ids) (some hash) = record {
  calls =
      calls
      ++ set_minted (id ∷ ids) ∷ set_phase purchased ∷ sync hash ∷ invalidate ∷ invalidate ∷ [];
  context = invalidated s context;
  outcome = bought (id ∷ ids);
}

abbrev pub settle_write : Services → View → List Call → LuckyScratchPurchaseContext → Written → Run
settle_write s v calls context (write_failed message) = recover s calls context message
settle_write s v calls context (written receipt hash) =
    let updated = after_receipt v receipt context in conclude s calls updated.0 updated.1 hash

-- From the phase of the purchase on.
unfoldable pub purchase : Services → View → List Call → Run
purchase s v calls =
    settle_write s v (calls ++ set_phase purchasing ∷ refetch ∷ write (purchase_call v) ∷ [])
      (refreshed s v.context) (s.write_purchase (purchase_call v))

abbrev pub authorize : Services → View → Run
authorize s v = elim s.set_operator [
  | some message ↦ recover s (set_phase authorizing ∷ approve ∷ []) v.context message
  | none ↦ purchase s v (set_phase authorizing ∷ approve ∷ invalidate ∷ [])
]

unfoldable pub handle_purchase : Services → View → Run
handle_purchase s v = elim (refusal v) [
  | some r ↦ record { calls = []; context = v.context; outcome = refused r }
  | none ↦ if v.treasury_is_operator then purchase s v [] else authorize s v
]
