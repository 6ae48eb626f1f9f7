-- ===== src/Vault/Fetch.antt =====
-- `listAllUserTickets` of MyTicketsVault.tsx, against the page that the backend serves
-- (`handleUserTickets` and `listParams` of packages/backend/api/server.go) from tickets that stay
-- the same while they are read. A call that fails ends the query and is not modelled.
use lucky_scratch.Prelude.{
  ℕ, zero, suc, ◌+◌, ◌-◌, ◌*◌, ◌≡◌, refl, sym, ap, ◌∙◌, true, false, not, ◌&&◌, ◌||◌, List, [],
  ◌++◌, arith, ltb, leb, ◌==◌, length, take, drop, if◌then◌else◌, min, take-add, take_all,
  length-take, length-drop, Bool-cases, inl, inr,
}
use lucky_scratch.Types.{LuckyScratchTicket, UserTicketsResponse}

abbrev pub api_page_size : ℕ
api_page_size = 100

abbrev pub max_ticket_pages : ℕ
max_ticket_pages = 50

-- `listParams`: the page size that is asked for where it is in 1..100, and else 20.
unfoldable pub list_limit : ℕ → ℕ
list_limit limit = if ltb 0 limit && leb limit 100 then limit else 20

-- `handleUserTickets` on the tickets of one owner, in the order of the query.
unfoldable pub serve_user_tickets : List LuckyScratchTicket → ℕ → ℕ → UserTicketsResponse
serve_user_tickets db limit offset =
    let page = take (list_limit limit) (drop offset db) in
    record {
      items = page;
      limit = list_limit limit;
      offset = offset;
      next_offset = offset + length page;
      total_count = length db;
      has_more = ltb (offset + length page) (length db);
    }

-- The loop of `listAllUserTickets`, by the number of pages it may still ask for.
unfoldable pub list_pages :
    (ℕ → ℕ → UserTicketsResponse)
    → ℕ
    → ℕ
    → List LuckyScratchTicket
    → ℕ
    → List LuckyScratchTicket × ℕ
list_pages serve zero offset items total_count = (items, total_count)
list_pages serve (suc pages) offset items total_count =
    let response = serve api_page_size offset in
    let rest =
      list_pages serve pages response.next_offset (items ++ response.items) response.total_count in
    if not response.has_more || length response.items == 0
    then (items ++ response.items, response.total_count)
    else rest

unfoldable pub list_all_user_tickets : (ℕ → ℕ → UserTicketsResponse) → UserTicketsResponse
list_all_user_tickets serve =
    let read = list_pages serve max_ticket_pages 0 [] 0 in
    record {
      items = read.0;
      limit = length read.0;
      offset = 0;
      next_offset = length read.0;
      total_count = read.1;
      has_more = ltb (length read.0) read.1;
    }

full_page : (a n p : ℕ) → p ≡ min 100 (n - a) → ltb (a + 100) n ≡ true → p ≡ 100
full_page a n p h more = ground arith

last_page : (a n p : ℕ) → p ≡ min 100 (n - a) → ltb (a + 100) n ≡ false → ltb (a + p) n ≡ false
last_page a n p h more = ground arith

module _ (db : List LuckyScratchTicket) where
  abbrev page_at : ℕ → List LuckyScratchTicket
  page_at offset = take 100 (drop offset db)

  -- Where a page ends: a page before the last one is full.
  length-page_at : (offset : ℕ) → length (page_at offset) ≡ min 100 (length db - offset)
  length-page_at offset = length-take 100 (drop offset db) ∙ ap (min 100) (length-drop offset db)

  abbrev Step : ℕ → ℕ → List LuckyScratchTicket → ℕ → Type 0
  Step pages offset items total =
      list_pages (serve_user_tickets db) (suc pages) offset items total ≡ (
        if ltb (offset + 100) (length db)
        then list_pages (serve_user_tickets db) pages (offset + 100) (items ++ page_at offset)
            (length db)
        else (items ++ page_at offset, length db))

  step_full :
      (pages offset : ℕ) (items : List LuckyScratchTicket) (total : ℕ)
      → length (page_at offset) ≡ 100
      → ltb (offset + 100) (length db) ≡ true
      → Step pages offset items total
  unfolding list_pages serve_user_tickets list_limit
  step_full pages offset items total len more = rw (len, more) refl

  step_last :
      (pages offset : ℕ) (items : List LuckyScratchTicket) (total : ℕ)
      → ltb (offset + length (page_at offset)) (length db) ≡ false
      → ltb (offset + 100) (length db) ≡ false
      → Step pages offset items total
  unfolding list_pages serve_user_tickets list_limit
  step_last pages offset items total short last = rw (short, last) refl

  list_pages_step :
      (pages offset : ℕ) (items : List LuckyScratchTicket) (total : ℕ)
      → Step pages offset items total
  list_pages_step pages offset items total =
      let len = length-page_at offset in
      elim (Bool-cases (ltb (offset + 100) (length db))) [
        | inl more ↦
            step_full pages offset items total (full_page offset (length db) _ len more) more
        | inr last ↦
            step_last pages offset items total (last_page offset (length db) _ len last) last
      ]

  seen :
      (offset : ℕ) (items : List LuckyScratchTicket)
      → items ≡ take offset db
      → items ++ page_at offset ≡ take (offset + 100) db
  seen offset items read = rw read (sym (take-add offset 100 (offset + 100) db refl))

  -- Once a page reaches the end, all tickets have been read.
  at_end :
      (offset more : ℕ) (items : List LuckyScratchTicket)
      → items ≡ take offset db
      → ltb (offset + 100) (length db) ≡ false
      → items ++ page_at offset ≡ take (offset + 100 * suc more) db
  at_end offset more items read last =
      seen offset items read
      ∙ take_all (offset + 100) db (ground arith)
      ∙ sym (take_all (offset + 100 * suc more) db (ground arith))

  list_pages_lem :
      (pages offset : ℕ) (items : List LuckyScratchTicket) (total : ℕ)
      → items ≡ take offset db
      → list_pages (serve_user_tickets db) (suc pages) offset items total
        ≡ (take (offset + 100 * suc pages) db, length db)
  unfolding list_pages
  list_pages_lem zero offset items total read = elim (Bool-cases (ltb (offset + 100) (length db))) [
    | inl more ↦
        rw (list_pages_step zero offset items total, more)
          (ap (λ l. (l, length db)) (seen offset items read))
    | inr last ↦
        rw (list_pages_step zero offset items total, last)
          (ap (λ l. (l, length db)) (at_end offset 0 items read last))
  ]
  list_pages_lem (suc n) offset items total read =
      elim (Bool-cases (ltb (offset + 100) (length db))) [
        | inl more ↦
            rw (list_pages_step (suc n) offset items total, more)
              (list_pages_lem n (offset + 100) (items ++ page_at offset) (length db)
                  (seen offset items read)
                ∙ ap (λ i. (take i db, length db)) (omega arith))
        | inr last ↦
            rw (list_pages_step (suc n) offset items total, last)
              (ap (λ l. (l, length db)) (at_end offset (suc n) items read last))
      ]

ltb-min : (m n : ℕ) → ltb (min m n) n ≡ ltb m n
ltb-min m n = ground arith

-- Against the pages that the backend serves from an unchanging list, the fifty-page loop returns
-- exactly the first 5000 tickets of the list and the count of all of them, and hasMore tells
-- whether there are more than 5000.
pub list_all_user_tickets_lem :
    (db : List LuckyScratchTicket)
    → ((list_all_user_tickets (serve_user_tickets db)).items ≡ take 5000 db)
      × ((list_all_user_tickets (serve_user_tickets db)).total_count ≡ length db)
      × ((list_all_user_tickets (serve_user_tickets db)).has_more ≡ ltb 5000 (length db))
unfolding list_all_user_tickets
list_all_user_tickets_lem db =
    let read = list_pages_lem db 49 0 [] 0 refl in
    (
      ap (λ r. r.0) read,
      ap (λ r. r.1) read,
      ap (λ r. ltb (length r.0) r.1) read
          ∙ ap (λ n. ltb n (length db)) (length-take 5000 db)
          ∙ ltb-min 5000 (length db),
    )
