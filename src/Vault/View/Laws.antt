-- ===== src/Vault/View/Laws.antt =====
-- The page and the selection after the effects of MyTicketsVault.tsx have come to rest.
use lucky_scratch.Prelude.{
  ℕ, ◌-◌, ◌*◌, ◌/◌, ◌%◌, ◌<◌, ◌≡◌, ◌⊎◌, refl, ◌∙◌, Bool, true, false, not, ◌&&◌, Option, none, some,
  List, [], ◌∷◌, ltb, leb, ◌==◌, arith, if◌then◌else◌,
}
use lucky_scratch.Prelude.Texts.{Text, text_eq_refl}
use lucky_scratch.Vault.{TicketTab, all_tickets, unrevealed, revealed, winning, to_claim}
use lucky_scratch.Vault.Pages.{settle_page_offset}
use lucky_scratch.Vault.View.{
  View, Event, set_active_tab, set_search_query, set_wallet, set_tickets, previous_page, next_page,
  toggle, select_all, same_tab, same_address, normalized_search, is_reset, total_count,
  has_next_page, has_previous_page, handle, reset_effect, settle_effect, clear_effect, effects,
  step, run,
}

-- The start of the last page.
abbrev pub last_page_offset : ℕ → ℕ
last_page_offset total = (total - 1) / 24 * 24

-- An offset past the tickets.
abbrev pub is_past : ℕ → ℕ → Bool
is_past offset total = ltb 0 offset && leb total offset

same_tab_refl : (t : TicketTab) → same_tab t t ≡ true
same_tab_refl all_tickets = refl
same_tab_refl unrevealed = refl
same_tab_refl revealed = refl
same_tab_refl winning = refl
same_tab_refl to_claim = refl

same_address_refl : (a : Option Text) → same_address a a ≡ true
same_address_refl none = refl
same_address_refl (some a) = text_eq_refl a

module _ (cached : ℕ → Option ℕ) where
  -- The offset after the effects of one render.
  abbrev offset_after : View → View → ℕ
  offset_after before v =
      if not
          (v.page_offset == before.page_offset && total_count cached v == total_count cached before)
        && is_past v.page_offset (total_count cached v)
      then last_page_offset (total_count cached v)
      else if is_reset before v
      then 0
      else v.page_offset

  page-effects : (before v : View) → (effects cached before v).page_offset ≡ offset_after before v
  unfolding effects reset_effect settle_effect clear_effect settle_page_offset
  page-effects before v = ground arith

  total-effects :
      (before v : View) → total_count cached (effects cached before v) ≡ total_count cached v
  unfolding effects reset_effect settle_effect clear_effect total_count
  total-effects before v = ground arith

  -- The page starts at a multiple of 24, inside the tickets unless it is the first.
  abbrev pub IsPage : View → Type 0
  IsPage v =
      (v.page_offset % 24 ≡ 0) × ((v.page_offset ≡ 0) ⊎ (v.page_offset < total_count cached v))

  effects-IsPage :
      (before v : View) → IsPage before → v.page_offset % 24 ≡ 0 → IsPage (effects cached before v)
  effects-IsPage before v k h =
      rw (total-effects before v, page-effects before v) (ground (arith, k, h))

  page-handle : (v : View) (e : Event) → IsPage v → (handle cached v e).page_offset % 24 ≡ 0
  unfolding handle has_previous_page has_next_page
  page-handle v (set_active_tab tab) k = k.0
  page-handle v (set_search_query text) k = k.0
  page-handle v (set_wallet address tickets) k = k.0
  page-handle v (set_tickets tickets) k = k.0
  page-handle v previous_page k = ground (arith, k)
  page-handle v next_page k = ground (arith, k)
  page-handle v (toggle id) k = ground (arith, k)
  page-handle v (select_all checked) k = k.0

  is_reset-effects : (before v : View) → is_reset v (effects cached before v) ≡ false
  unfolding effects reset_effect settle_effect clear_effect
  is_reset-effects before v = ground (
    arith,
    same_tab_refl v.active_tab,
    same_address_refl v.address,
    text_eq_refl (normalized_search v),
  )

  -- A second round of effects leaves the page.
  page-effects_again :
      (before v : View)
      → IsPage (effects cached before v)
      → (effects cached v (effects cached before v)).page_offset
        ≡ (effects cached before v).page_offset
  page-effects_again before v k =
      rw (page-effects v (effects cached before v), is_reset-effects before v) (ground (arith, k))

  -- A third round changes nothing.
  effects-rest :
      (v w : View)
      → w.page_offset ≡ v.page_offset
      → total_count cached w ≡ total_count cached v
      → is_reset v w ≡ false
      → effects cached v w ≡ w
  unfolding effects reset_effect settle_effect clear_effect
  effects-rest v w h h' h'' = ground (arith, h, h', h'')

  step-IsPage : (v : View) (e : Event) → IsPage v → IsPage (step cached v e)
  unfolding step
  step-IsPage v e k =
      let w = handle cached v e in
      let x = effects cached v w in
      let kx : IsPage x = effects-IsPage v w k (page-handle v e k) in
      rw (total-effects w x, page-effects_again v w kx) kx

  -- From an inventory on a page, whatever the user chooses, searches or turns and whatever tickets
  -- the queries bring, the page that is shown when the effects have run starts at a multiple of 24
  -- and inside the tickets of the view, or is the first.
  pub run-IsPage : (v : View) (es : List Event) → IsPage v → IsPage (run cached v es)
  unfolding run
  run-IsPage v [] k = k
  run-IsPage v (e ∷ es) k = run-IsPage (step cached v e) es (step-IsPage v e k)

  -- From an inventory on a page, the effects that follow any event come to rest: after two rounds
  -- a third one changes nothing.
  pub step-rests :
      (v : View) (e : Event)
      → IsPage v
      → effects cached (effects cached v (handle cached v e)) (step cached v e) ≡ step cached v e
  unfolding step
  step-rests v e k =
      let w = handle cached v e in
      let x = effects cached v w in
      let kx : IsPage x = effects-IsPage v w k (page-handle v e k) in
      effects-rest x (effects cached w x) (page-effects_again v w kx) (total-effects w x)
        (is_reset-effects w x)

  selected-reset :
      (before v : View)
      → is_reset before v ≡ true
      → (effects cached before v).selected_ticket_ids ≡ []
  unfolding effects reset_effect settle_effect clear_effect
  selected-reset before v h = ground (arith, h)

  selected-kept :
      (before v : View)
      → v.selected_ticket_ids ≡ []
      → (effects cached before v).selected_ticket_ids ≡ []
  unfolding effects reset_effect settle_effect clear_effect
  selected-kept before v h = ground (arith, h)

  offset-set_active_tab :
      (v : View) (tab : TicketTab)
      → IsPage v
      → same_tab v.active_tab tab ≡ false
      → let total = total_count cached (handle cached v (set_active_tab tab)) in
        offset_after v (handle cached v (set_active_tab tab))
        ≡ (if is_past v.page_offset total then last_page_offset total else 0)
  unfolding handle
  offset-set_active_tab v tab k h = ground (arith, k, h)

  is_reset-set_active_tab :
      (v : View) (tab : TicketTab)
      → same_tab v.active_tab tab ≡ false
      → is_reset v (handle cached v (set_active_tab tab)) ≡ true
  unfolding handle
  is_reset-set_active_tab v tab h = ground (arith, h)

  -- From an inventory on a page, choosing another tab clears the selection, and leads to the first
  -- page unless the old offset is past the tickets of the new tab: then it leads to the last page
  -- of that tab.
  pub set_active_tab-page :
      (v : View) (tab : TicketTab)
      → IsPage v
      → same_tab v.active_tab tab ≡ false
      → let w = handle cached v (set_active_tab tab) in
        let after = step cached v (set_active_tab tab) in
        (after.page_offset ≡ (
          if is_past v.page_offset (total_count cached w)
          then last_page_offset (total_count cached w)
          else 0))
        × (after.selected_ticket_ids ≡ [])
  unfolding step
  set_active_tab-page v tab k h =
      let w = handle cached v (set_active_tab tab) in
      let x = effects cached v w in
      let kx : IsPage x = effects-IsPage v w k (page-handle v (set_active_tab tab) k) in
      (
        page-effects_again v w kx ∙ page-effects v w ∙ offset-set_active_tab v tab k h,
        selected-kept w x (selected-reset v w (is_reset-set_active_tab v tab h)),
      )
