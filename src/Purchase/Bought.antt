-- ===== src/Purchase/Bought.antt =====
-- What a purchase of PurchasePage.tsx that ends well has been answered, and what it leaves.
use lucky_scratch.Prelude.{
  ℕ, ◌<◌, ◌≡◌, inl, inr, refl, sym, ap, ◌∙◌, Bool, false, not, ◌&&◌, count_by, ◌⊎◌, Option, none,
  some, List, [], ◌∷◌, arith, length, filter, All, Bool-cases, Option-cases,
}
use lucky_scratch.Prelude.Texts.{Text, codes, includes, text_eq, is_empty}
use lucky_scratch.Types.{LuckyScratchPurchaseContext}
use lucky_scratch.Purchase.Handler.{
  PurchaseEvent, Written, write_failed, written, Services, Call, bought, View, purchase_indexes,
  refusal, purchase_call, purchased_ticket_ids, mark_sold, Run, recover, conclude, settle_write,
  purchase, handle_purchase, has_index, invalidated,
}
use lucky_scratch.Purchase.Runs.{run-refused_outcome, run-ready, run-approved, run-rejected}

-- An event that names a ticket of a pool: a ticket number that is not empty, under the pool's number.
abbrev pub names : Text → Text → PurchaseEvent → Bool
names pool ticket e = elim e.pool_id [
  | none ↦ false
  | some p ↦ elim e.ticket_id [
    | none ↦ false
    | some t ↦ text_eq p pool && not (is_empty t) && text_eq t ticket
  ]
]

-- The query result after a purchase: what the refetch has answered or, where it failed, one in which
-- none of the tickets shown as available is one of the indexes that were sent.
abbrev pub IsLeft : Services → View → LuckyScratchPurchaseContext → Type 0
IsLeft s v context =
    (s.refetched_after ≡ some context)
    ⊎ (s.refetched_after ≡ none)
      × All (λ i. has_index i (purchase_indexes v) ≡ false) context.available_ticket_indexes

-- What a purchase that succeeded leaves.
pub record IsBought (s : Services) (v : View) (ids : List Text) (run : Run) : Type 0 where
  pub events : List PurchaseEvent
  pub hash : Text
  pub answered : s.write_purchase (purchase_call v) ≡ written (some events) (some hash)
  pub named :
      (ticket : Text)
      → count_by (λ id. text_eq id ticket) ids ≡ count_by (names v.pool_id ticket) events
  pub some_ticket : 0 < length ids
  pub left : IsLeft s v run.context

all-filter :
    (indexes : List ℕ) (ns : List ℕ)
    → All (λ i. has_index i indexes ≡ false) (filter (λ i. not (has_index i indexes)) ns)
all-filter indexes [] = tt
all-filter indexes (n ∷ ns) = elim (Bool-cases (has_index n indexes)) [
  | inl sold ↦ rw sold (all-filter indexes ns)
  | inr free ↦ rw free (free, all-filter indexes ns)
]

count_by-purchased_ticket_ids :
    (pool ticket : Text) (events : List PurchaseEvent)
    → count_by (λ id. text_eq id ticket) (purchased_ticket_ids pool events)
      ≡ count_by (names pool ticket) events
unfolding purchased_ticket_ids
count_by-purchased_ticket_ids pool ticket [] = refl
count_by-purchased_ticket_ids pool ticket (e ∷ events) =
    ground (arith, count_by-purchased_ticket_ids pool ticket events)

invalidated-IsLeft :
    (s : Services) (v : View) (context : LuckyScratchPurchaseContext)
    → All (λ i. has_index i (purchase_indexes v) ≡ false) context.available_ticket_indexes
    → IsLeft s v (invalidated s context)
invalidated-IsLeft s v context gone = elim (Option-cases s.refetched_after) [
  | inl failed ↦ rw failed (inr (refl, gone))
  | inr (fresh, answered) ↦ rw answered (inl refl)
]

recover_failed :
    (s : Services) (cs : List Call) (context : LuckyScratchPurchaseContext) (m : Text)
    (ids : List Text)
    → ¬ ((recover s cs context m).outcome ≡ bought ids)
unfolding recover
recover_failed s cs context m ids h =
    elim (Bool-cases (includes m (codes "TicketIndexAlreadySold"))) [
      | inl sold ↦ absurd (ground arith)
      | inr other ↦ absurd (ground arith)
    ]

conclude-bought :
    (s : Services) (cs : List Call) (context : LuckyScratchPurchaseContext) (found ids : List Text)
    (hash : Option Text)
    → (conclude s cs context found hash).outcome ≡ bought ids
    → ((h : Text) × (hash ≡ some h))
      × (ids ≡ found)
      × (0 < length ids)
      × ((conclude s cs context found hash).context ≡ invalidated s context)
conclude-bought s cs context found ids none h = absurd (recover_failed s cs context _ ids h)
conclude-bought s cs context [] ids (some hash) h = absurd (recover_failed s cs context _ ids h)
conclude-bought s cs context (x ∷ xs) ids (some hash) h =
    let same : x ∷ xs ≡ ids = ground arith in
    ((hash, refl), sym same, rw (sym same) (ground arith), refl)

module _ (s : Services) (v : View) where
  settle_write-IsBought :
      (cs : List Call) (context : LuckyScratchPurchaseContext) (w : Written) (ids : List Text)
      → s.write_purchase (purchase_call v) ≡ w
      → (settle_write s v cs context w).outcome ≡ bought ids
      → IsBought s v ids (settle_write s v cs context w)
  unfolding mark_sold
  settle_write-IsBought cs context (write_failed m) ids e h =
      absurd (recover_failed s cs context m ids h)
  settle_write-IsBought cs context (written none hash) ids e h =
      let (given, named, positive, kept) = conclude-bought s cs context [] ids hash h in
      absurd (ground arith)
  settle_write-IsBought cs context (written (some events) hash) ids e h =
      let ((h1, given), named, positive, kept) = conclude-bought s cs _ _ ids hash h in
      record {
        events = events;
        hash = h1;
        answered = e ∙ ap (written (some events)) given;
        named = λ ticket. rw named (count_by-purchased_ticket_ids v.pool_id ticket events);
        some_ticket = positive;
        left = rw kept (
            invalidated-IsLeft s v _
              (all-filter (purchase_indexes v) context.available_ticket_indexes));
      }

  purchase-IsBought :
      (cs : List Call) (ids : List Text)
      → (purchase s v cs).outcome ≡ bought ids
      → IsBought s v ids (purchase s v cs)
  unfolding purchase
  purchase-IsBought cs ids h = settle_write-IsBought _ _ _ ids refl h

-- A purchase that ends well was answered with a receipt and a hash. It has at least one ticket,
-- and every ticket as often as the events of the receipt name it for the pool. The query result
-- that it leaves is what the refetch at the end answered or, where that refetch failed, one in
-- which no index that was sent is left among the tickets shown as available.
pub handle_purchase-IsBought :
    (s : Services) (v : View) (ids : List Text)
    → (handle_purchase s v).outcome ≡ bought ids
    → IsBought s v ids (handle_purchase s v)
handle_purchase-IsBought s v ids h = elim (Option-cases (refusal v)) [
  | inr (r, stopped) ↦ absurd (cc (run-refused_outcome s v r stopped, h))
  | inl clear ↦ elim (Bool-cases v.treasury_is_operator) [
    | inl ready ↦
        rw (run-ready s v clear ready)
          (purchase-IsBought s v [] ids (rw (run-ready s v clear ready) at h))
    | inr not_yet ↦ elim (Option-cases s.set_operator) [
      | inl approved ↦
          rw (run-approved s v clear not_yet approved)
            (purchase-IsBought s v _ ids (rw (run-approved s v clear not_yet approved) at h))
      | inr (m, rejected) ↦
          absurd (
            recover_failed s _ v.context m ids
              (rw (run-rejected s v m clear not_yet rejected) at h))
    ]
  ]
]
