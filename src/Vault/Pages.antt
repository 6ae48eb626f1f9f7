-- ===== src/Vault/Pages.antt =====
-- The pages of the inventory in MyTicketsVault.tsx: the effect that moves the offset back when the
-- filtered tickets become fewer, and the numbers shown under the cards.
use lucky_scratch.Prelude.{
  ℕ, ◌+◌, ◌-◌, ◌*◌, ◌/◌, ◌%◌, ◌≤◌, ◌<◌, ◌≡◌, ◌⊎◌, ◌&&◌, List, arith, ltb, leb, ◌==◌, length,
  if◌then◌else◌, min, max, drop, length-take, length-drop, ap, ◌∙◌,
}
use lucky_scratch.Types.{LuckyScratchTicket}
use lucky_scratch.Vault.{page_size, visible_tickets}

-- The effect on `[pageOffset, totalCount]`.
unfoldable pub settle_page_offset : ℕ → ℕ → ℕ
settle_page_offset page_offset total_count =
    if ltb 0 page_offset && leb total_count page_offset
    then max 0 (max (total_count - 1) 0 / page_size * page_size)
    else page_offset

unfoldable pub page_index : ℕ → ℕ
page_index page_offset = page_offset / page_size + 1

unfoldable pub total_pages : ℕ → ℕ
total_pages total_count = max 1 ((total_count + (page_size - 1)) / page_size)

unfoldable pub first_visible_ticket_number : List LuckyScratchTicket → ℕ → ℕ
first_visible_ticket_number visible page_offset = if length visible == 0 then 0 else page_offset + 1

unfoldable pub last_visible_ticket_number : List LuckyScratchTicket → ℕ → ℕ → ℕ
last_visible_ticket_number visible page_offset total_count =
    if length visible == 0 then 0 else min (page_offset + length visible) total_count

-- From the offset of any page of the inventory and any count, the effect leaves the offset of a
-- page: it is inside the tickets, or 0 where there are none, and its number is at most the number
-- of pages.
pub settle_page_offset_lem :
    (k n : ℕ)
    → (settle_page_offset (24 * k) n % 24 ≡ 0)
      × ((settle_page_offset (24 * k) n < n) ⊎ ((n ≡ 0) × (settle_page_offset (24 * k) n ≡ 0)))
      × (page_index (settle_page_offset (24 * k) n) ≤ total_pages n)
unfolding settle_page_offset page_index total_pages
settle_page_offset_lem k n = ground arith

-- The effect settles at once: run again with the same count, it changes nothing.
pub settle_page_offset_idem :
    (p n : ℕ) → settle_page_offset (settle_page_offset p n) n ≡ settle_page_offset p n
unfolding settle_page_offset
settle_page_offset_idem p n = ground arith

length-visible_tickets :
    (filtered : List LuckyScratchTicket) (p : ℕ)
    → length (visible_tickets filtered p) ≡ min 24 (length filtered - p)
unfolding visible_tickets
length-visible_tickets filtered p =
    length-take 24 (drop p filtered) ∙ ap (min 24) (length-drop p filtered)

-- The two numbers under the cards enclose as many tickets as are shown, inside the count.
pub visible_ticket_numbers_lem :
    (filtered : List LuckyScratchTicket) (p : ℕ)
    → p < length filtered
    → (last_visible_ticket_number (visible_tickets filtered p) p (length filtered) + 1
        ≡ first_visible_ticket_number (visible_tickets filtered p) p
          + length (visible_tickets filtered p))
      × (last_visible_ticket_number (visible_tickets filtered p) p (length filtered)
          ≤ length filtered)
unfolding first_visible_ticket_number last_visible_ticket_number
visible_ticket_numbers_lem filtered p h = rw (length-visible_tickets filtered p) (ground arith)
