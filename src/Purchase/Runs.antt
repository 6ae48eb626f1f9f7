-- ===== src/Purchase/Runs.antt =====
-- What a run of `handlePurchase` in PurchasePage.tsx sends, and what it leaves on the page.
use lucky_scratch.Prelude.{
  ◌≡◌, ◌⊎◌, inl, inr, refl, ap, ◌∙◌, Bool, true, false, Option, none, some, List, [], ◌∷◌, ◌++◌,
  arith, Bool-cases, Option-cases,
}
use lucky_scratch.Prelude.Texts.{Text, codes, includes}
use lucky_scratch.Types.{LuckyScratchPurchaseContext}
use lucky_scratch.Purchase.{authorizing}
use lucky_scratch.Purchase.Handler.{
  PurchaseCall, Written, write_failed, written, Services, Call, set_phase, approve, refetch, write,
  Refusal, refused, View, can_submit_purchase, refusal, purchase_call, recover, after_receipt,
  conclude, settle_write, purchase, handle_purchase,
}

abbrev pub write_of : Call → List PurchaseCall → List PurchaseCall
write_of (write c) rest = c ∷ rest
write_of _ rest = rest

-- The purchases among the calls.
abbrev pub writes : List Call → List PurchaseCall
writes [] = []
writes (c ∷ cs) = write_of c (writes cs)

abbrev pub is_approve : Call → Bool
is_approve approve = true
is_approve _ = false

writes-append : (cs ds : List Call) → writes (cs ++ ds) ≡ writes cs ++ writes ds
writes-append [] ds = refl
writes-append (write c ∷ cs) ds = ap (λ l. c ∷ l) (writes-append cs ds)
writes-append (set_phase p ∷ cs) ds = writes-append cs ds
writes-append (approve ∷ cs) ds = writes-append cs ds
writes-append (refetch ∷ cs) ds = writes-append cs ds
writes-append (Call.set_minted ids ∷ cs) ds = writes-append cs ds
writes-append (Call.sync h ∷ cs) ds = writes-append cs ds
writes-append (Call.invalidate ∷ cs) ds = writes-append cs ds
writes-append (Call.warn_sold ∷ cs) ds = writes-append cs ds
writes-append (Call.report m ∷ cs) ds = writes-append cs ds

writes-recover :
    (s : Services) (cs : List Call) (context : LuckyScratchPurchaseContext) (m : Text)
    → writes (recover s cs context m).calls ≡ writes cs ++ []
unfolding recover
writes-recover s cs context m = elim (Bool-cases (includes m (codes "TicketIndexAlreadySold"))) [
  | inl sold ↦ rw sold (writes-append cs _)
  | inr other ↦ rw other (writes-append cs _)
]

writes-conclude :
    (s : Services) (cs : List Call) (context : LuckyScratchPurchaseContext) (ids : List Text)
    (hash : Option Text)
    → writes (conclude s cs context ids hash).calls ≡ writes cs ++ []
writes-conclude s cs context ids none = writes-recover s cs context _
writes-conclude s cs context [] (some hash) = writes-recover s cs context _
writes-conclude s cs context (id ∷ ids) (some hash) = writes-append cs _

writes-settle_write :
    (s : Services) (v : View) (cs : List Call) (context : LuckyScratchPurchaseContext) (w : Written)
    → writes (settle_write s v cs context w).calls ≡ writes cs ++ []
writes-settle_write s v cs context (write_failed m) = writes-recover s cs context m
writes-settle_write s v cs context (written receipt hash) =
    writes-conclude s cs _ (after_receipt v receipt context).1 hash

writes-purchase :
    (s : Services) (v : View) (cs : List Call)
    → writes cs ≡ []
    → writes (purchase s v cs).calls ≡ purchase_call v ∷ []
unfolding purchase
writes-purchase s v cs h =
    writes-settle_write s v (cs ++ set_phase _ ∷ refetch ∷ write (purchase_call v) ∷ []) _ _
    ∙ ap (λ l. l ++ []) (writes-append cs _ ∙ ap (λ l. l ++ purchase_call v ∷ []) h)

refusal-none : (v : View) → refusal v ≡ none → can_submit_purchase v ≡ true
unfolding refusal
refusal-none v h = ground arith

module _ (s : Services) (v : View) where
  pub run-refused : (r : Refusal) → refusal v ≡ some r → (handle_purchase s v).calls ≡ []
  unfolding handle_purchase
  run-refused r h = ground arith

  pub run-refused_outcome :
      (r : Refusal) → refusal v ≡ some r → (handle_purchase s v).outcome ≡ refused r
  unfolding handle_purchase
  run-refused_outcome r h = ground arith

  pub run-ready :
      refusal v ≡ none → v.treasury_is_operator ≡ true → handle_purchase s v ≡ purchase s v []
  unfolding handle_purchase
  run-ready h1 h2 = ground arith

  pub run-approved :
      refusal v ≡ none
      → v.treasury_is_operator ≡ false
      → s.set_operator ≡ none
      → handle_purchase s v ≡ purchase s v (set_phase authorizing ∷ approve ∷ Call.invalidate ∷ [])
  unfolding handle_purchase
  run-approved h1 h2 h3 = ground arith

  pub run-rejected :
      (m : Text)
      → refusal v ≡ none
      → v.treasury_is_operator ≡ false
      → s.set_operator ≡ some m
      → handle_purchase s v ≡ recover s (set_phase authorizing ∷ approve ∷ []) v.context m
  unfolding handle_purchase
  run-rejected m h1 h2 h3 = ground arith

-- A run of handlePurchase sends no purchase, or exactly one: the call made from what the page
-- showed when the button was pressed, and only if every condition of the button held then and the
-- treasury was the operator already or has been made one.
pub handle_purchase-IsAllowed :
    (s : Services) (v : View)
    → (writes (handle_purchase s v).calls ≡ [])
      ⊎ ((writes (handle_purchase s v).calls ≡ purchase_call v ∷ [])
          × (can_submit_purchase v ≡ true)
          × ((v.treasury_is_operator ≡ true) ⊎ (s.set_operator ≡ none)))
handle_purchase-IsAllowed s v = elim (Option-cases (refusal v)) [
  | inr (r, stopped) ↦ inl (rw (run-refused s v r stopped) refl)
  | inl clear ↦ elim (Bool-cases v.treasury_is_operator) [
    | inl ready ↦ inr (
      rw (run-ready s v clear ready) (writes-purchase s v [] refl),
      refusal-none v clear,
      inl ready,
    )
    | inr not_yet ↦ elim (Option-cases s.set_operator) [
      | inl approved ↦ inr (
        rw (run-approved s v clear not_yet approved) (writes-purchase s v _ refl),
        refusal-none v clear,
        inr approved,
      )
      | inr (m, rejected) ↦
          inl (rw (run-rejected s v m clear not_yet rejected) (writes-recover s _ v.context m))
    ]
  ]
]
