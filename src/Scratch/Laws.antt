-- ===== src/Scratch/Laws.antt =====
-- What a preparation of ScratchPage.tsx that ends well has checked and sent.
use lucky_scratch.Prelude.{
  ℕ, ◌≡◌, ◌≤◌, ◌⊎◌, inl, inr, refl, sym, ap, ◌∙◌, true, false, not, ◌&&◌, Option, none, some, List,
  [], ◌∷◌, map, arith, leb, ltb, ◌==◌, any, length, All, Bool-cases,
}
use lucky_scratch.Prelude.Texts.{Text}
use lucky_scratch.TicketCache.{RewardCacheScope, Browser}
use lucky_scratch.Scratch.{
  Chain, RevealState, TicketResult, ScratchState, Failure, prepared, read_all, read_state,
  read_owner, is_scratchable, scratchable_ids, call_of, unknown_count, result_of, check_owners,
  check, decrypt_all, after_scratch, scratched_with, scratch, checked, with_states,
  prepare_scratch_results,
}

-- A ticket that may be opened: unscratched, or scratched or claimed with its reveal authorised.
abbrev pub IsOpenable : RevealState → Type 0
IsOpenable s = (s.status ≤ 2) × ((s.status ≡ 0) ⊎ (s.reveal_authorized ≡ true))

openable :
    (states : List RevealState)
    → any (λ s. not (leb s.status 2)) states ≡ false
    → any (λ s. not (is_scratchable s) && not s.reveal_authorized) states ≡ false
    → All IsOpenable states
openable [] h k = tt
openable (s ∷ states) h k = (ground arith, openable states (ground arith) (ground arith))

module _ (chain : Chain) (now chain_id : ℕ) (scope : Option RewardCacheScope) (address : Text) where
  abbrev pub IsMine : Text → Type 0
  IsMine owner = chain.is_address_equal owner address ≡ true

  mine :
      (owners : List Text)
      → any (λ owner. not (chain.is_address_equal owner address)) owners ≡ false
      → All IsMine owners
  mine [] h = tt
  mine (owner ∷ owners) h = (ground arith, mine owners (ground arith))

  pub record IsPrepared (ids : List Text) (results : List TicketResult) : Type 0 where
    pub states : List RevealState
    pub owners : List Text
    pub read : read_all (read_state chain now chain_id scope address) ids ≡ some states
    pub all_openable : All IsOpenable states
    pub owned : read_all (read_owner chain now chain_id scope address) ids ≡ some owners
    pub all_mine : All IsMine owners
    pub scratched_now :
        (scratchable_ids states ≡ [])
        ⊎ ((hash : Text) × (chain.write_contract (call_of (scratchable_ids states)) ≡ some hash))
    pub same_tickets : map TicketResult.ticket_id results ≡ ids
    pub all_known : unknown_count results ≡ 0

  ids-result_of :
      (browser : Browser) (ids : List Text)
      → map TicketResult.ticket_id (map (result_of chain now chain_id scope address browser) ids)
        ≡ ids
  unfolding result_of
  ids-result_of browser [] = refl
  ids-result_of browser (id ∷ ids) = ap (λ l. id ∷ l) (ids-result_of browser ids)

  decrypt_all-prepared :
      (ids : List Text) (st last : ScratchState) (results : List TicketResult)
      → decrypt_all chain now chain_id scope address ids st ≡ (last, prepared results)
      → (map TicketResult.ticket_id results ≡ ids) × (unknown_count results ≡ 0)
  unfolding decrypt_all
  decrypt_all-prepared ids st last results h =
      let found = map (result_of chain now chain_id scope address st.browser) ids in
      elim (Bool-cases (ltb 0 (unknown_count found))) [
        | inl missing ↦ absurd (ground arith)
        | inr complete ↦
            let same : found ≡ results = ground arith in
            let full : unknown_count found ≡ 0 = ground arith in
            (
              ap (map TicketResult.ticket_id) (sym same) ∙ ids-result_of st.browser ids,
              ap unknown_count (sym same) ∙ full,
            )
      ]

  after_scratch-prepared :
      (ids : List Text) (states : List RevealState) (st last : ScratchState)
      (results : List TicketResult)
      → after_scratch chain now chain_id scope address ids states st ≡ (last, prepared results)
      → (any (λ s. not (is_scratchable s) && not s.reveal_authorized) states ≡ false)
        × (map TicketResult.ticket_id results ≡ ids)
        × (unknown_count results ≡ 0)
  after_scratch-prepared ids states st last results h =
      elim (Bool-cases (any (λ s. not (is_scratchable s) && not s.reveal_authorized) states)) [
        | inl bad ↦ absurd (ground arith)
        | inr fine ↦
            let (same, known) = decrypt_all-prepared ids st last results (rw fine at h) in
            (fine, same, known)
      ]

  scratched_with-prepared :
      (ids : List Text) (states : List RevealState) (st last : ScratchState)
      (results : List TicketResult) (hash : Option Text)
      → scratched_with chain now chain_id scope address ids states st hash
        ≡ (last, prepared results)
      → ((h : Text) × (hash ≡ some h))
        × (any (λ s. not (is_scratchable s) && not s.reveal_authorized) states ≡ false)
        × (map TicketResult.ticket_id results ≡ ids)
        × (unknown_count results ≡ 0)
  scratched_with-prepared ids states st last results none h = absurd (cc)
  scratched_with-prepared ids states st last results (some hash) h =
      let (fine, same, known) = after_scratch-prepared ids states _ last results h in
      ((hash, refl), fine, same, known)

  nothing_to_scratch : (l : List Text) → (length l == 0) ≡ true → l ≡ []
  nothing_to_scratch [] h = refl
  nothing_to_scratch (x ∷ l) h = absurd (ground arith)

  scratch-prepared :
      (ids : List Text) (states : List RevealState) (st last : ScratchState)
      (results : List TicketResult)
      → scratch chain now chain_id scope address ids states st ≡ (last, prepared results)
      → ((scratchable_ids states ≡ [])
          ⊎ ((hash : Text) × (chain.write_contract (call_of (scratchable_ids states)) ≡ some hash)))
        × (any (λ s. not (is_scratchable s) && not s.reveal_authorized) states ≡ false)
        × (map TicketResult.ticket_id results ≡ ids)
        × (unknown_count results ≡ 0)
  scratch-prepared ids states st last results h =
      elim (Bool-cases (length (scratchable_ids states) == 0)) [
        | inl nothing ↦
            let (fine, same, known) =
              after_scratch-prepared ids states st last results (rw nothing at h) in
            (inl (nothing_to_scratch (scratchable_ids states) nothing), fine, same, known)
        | inr some_ticket ↦
            let (sent, fine, same, known) =
              scratched_with-prepared ids states st last results _ (rw some_ticket at h) in
            (inr sent, fine, same, known)
      ]

  check_owners-none :
      (o : Option (List Text))
      → check_owners chain now chain_id scope address o ≡ none
      → (owners : List Text) × (o ≡ some owners) × All IsMine owners
  check_owners-none none h = absurd (cc)
  check_owners-none (some owners) h =
      elim (Bool-cases (any (λ owner. not (chain.is_address_equal owner address)) owners)) [
        | inl other ↦ absurd (ground arith)
        | inr all_own ↦ (owners, refl, mine owners all_own)
      ]

  check-none :
      (ids : List Text) (states : List RevealState)
      → check chain now chain_id scope address ids states ≡ none
      → (any (λ s. not (leb s.status 2)) states ≡ false)
        × ((owners : List Text) × (read_all (read_owner chain now chain_id scope address) ids
              ≡ some owners)
            × All IsMine owners)
  check-none ids states h = elim (Bool-cases (any (λ s. not (leb s.status 2)) states)) [
    | inl bad ↦ absurd (ground arith)
    | inr fine ↦ (fine, check_owners-none _ (rw fine at h))
  ]

  checked-IsPrepared :
      (ids : List Text) (states : List RevealState) (st last : ScratchState)
      (results : List TicketResult) (o : Option Failure)
      → read_all (read_state chain now chain_id scope address) ids ≡ some states
      → check chain now chain_id scope address ids states ≡ o
      → checked chain now chain_id scope address ids states st o ≡ (last, prepared results)
      → IsPrepared ids results
  checked-IsPrepared ids states st last results (some f) e1 e2 h = absurd (cc)
  checked-IsPrepared ids states st last results none e1 e2 h =
      let (valid, (owners, owned, own)) = check-none ids states e2 in
      let (sent, authorized, same, known) = scratch-prepared ids states st last results h in
      record {
        states = states;
        owners = owners;
        read = e1;
        all_openable = openable states valid authorized;
        owned = owned;
        all_mine = own;
        scratched_now = sent;
        same_tickets = same;
        all_known = known;
      }

  with_states-IsPrepared :
      (ids : List Text) (st last : ScratchState) (results : List TicketResult)
      (o : Option (List RevealState))
      → read_all (read_state chain now chain_id scope address) ids ≡ o
      → with_states chain now chain_id scope address ids st o ≡ (last, prepared results)
      → IsPrepared ids results
  with_states-IsPrepared ids st last results none e h = absurd (cc)
  with_states-IsPrepared ids st last results (some states) e h =
      checked-IsPrepared ids states st last results _ e refl h

  -- Where a preparation of tickets ends well, every ticket was read as unscratched, or as
  -- scratched or claimed with its reveal authorised, and as owned by the wallet; the unscratched
  -- ones, if any, were sent in one transaction that has a hash; and there is a known result for
  -- each ticket, in order.
  pub prepare_scratch_results-IsPrepared :
      (ids : List Text) (st last : ScratchState) (results : List TicketResult)
      → prepare_scratch_results chain now chain_id scope address ids st ≡ (last, prepared results)
      → IsPrepared ids results
  unfolding prepare_scratch_results
  prepare_scratch_results-IsPrepared ids st last results h =
      with_states-IsPrepared ids st last results _ refl h
