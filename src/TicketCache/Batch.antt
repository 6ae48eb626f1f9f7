-- ===== src/TicketCache/Batch.antt =====
-- What `setBatch` of ticketCache.ts leaves for each ticket.
use lucky_scratch.Prelude.{
  ℕ, ◌≡◌, ◌≢◌, refl, ap, Option, none, some, List, [], ◌∷◌, arith, ◌==◌, if◌then◌else◌, Bool-cases,
  inl, inr,
}
use lucky_scratch.Prelude.Texts.{text_eq_refl}
use lucky_scratch.TicketCache.{
  CachedReward, RewardCacheScope, Cache, lookup, Browser, read_cache, cache_key, build_cache_entry,
  fresh, get, BatchEntry, insert_all, set_batch,
}
use lucky_scratch.TicketCache.Keys.{NoColon?, contract_of, owner_of, cache_key_injective}
use lucky_scratch.TicketCache.Laws.{lookup-insert, read_cache-write_cache, text_eq-ne, IsWritable}

-- The entry of a ticket that a batch leaves: the last one for it.
abbrev pub last_entry : ℕ → List BatchEntry → Option BatchEntry → Option BatchEntry
last_entry ticket [] found = found
last_entry ticket (e ∷ es) found =
    last_entry ticket es (if e.ticket_id == ticket then some e else found)

abbrev pub entry_of :
    ℕ → Option RewardCacheScope → Option BatchEntry → Option CachedReward → Option CachedReward
entry_of now s none old = old
entry_of now s (some e) old =
    some (build_cache_entry e.clear_reward_amount e.decryption_proof now s)

module _ (now chain : ℕ) (s : Option RewardCacheScope) (h1 : NoColon? (contract_of s))
    (h2 : NoColon? (owner_of s)) where
  key-apart : (t t' : ℕ) → t ≢ t' → cache_key chain t s ≢ cache_key chain t' s
  key-apart t t' ne e = ne (cache_key_injective chain t chain t' s s h1 h2 h1 h2 e).1

  lookup-insert_all :
      (ticket : ℕ) (es : List BatchEntry) (found : Option BatchEntry) (old : Option CachedReward)
      (cache : Cache)
      → lookup (cache_key chain ticket s) cache ≡ entry_of now s found old
      → lookup (cache_key chain ticket s) (insert_all now chain s es cache)
        ≡ entry_of now s (last_entry ticket es found) old
  unfolding insert_all
  lookup-insert_all ticket [] found old cache h = h
  lookup-insert_all ticket (e ∷ es) found old cache h =
      let entry = build_cache_entry e.clear_reward_amount e.decryption_proof now s in
      elim (Bool-cases (e.ticket_id == ticket)) [
        | inl same ↦
            let t_eq : e.ticket_id ≡ ticket = ground arith in
            rw same (
              lookup-insert_all ticket es (some e) old _ (
                rw
                  (
                    lookup-insert (cache_key chain e.ticket_id s) (cache_key chain ticket s) entry
                        cache,
                    t_eq,
                    text_eq_refl (cache_key chain ticket s),
                  )
                  refl))
        | inr other ↦
            let t_ne : e.ticket_id ≢ ticket = ground arith in
            rw other (
              lookup-insert_all ticket es found old _ (
                rw
                  (
                    lookup-insert (cache_key chain e.ticket_id s) (cache_key chain ticket s) entry
                        cache,
                    text_eq-ne _ _ (key-apart e.ticket_id ticket t_ne),
                  )
                  h))
      ]

  -- Where the storage takes writes and neither the contract nor the owner contains a colon, a
  -- ticket reads after a batch the last entry of the batch for it, and what it read before where
  -- the batch has none, as long as that is fresh.
  pub get-set_batch :
      (later ticket : ℕ) (es : List BatchEntry) (b : Browser)
      → IsWritable b
      → get later (set_batch now chain es s b) chain ticket s
        ≡ fresh later (
            entry_of now s
              (last_entry ticket es none)
              (lookup (cache_key chain ticket s) (read_cache b)))
  unfolding get set_batch
  get-set_batch later ticket es b h =
      rw (read_cache-write_cache (insert_all now chain s es (read_cache b)) b h)
        (ap (fresh later) (lookup-insert_all ticket es none _ (read_cache b) refl))
