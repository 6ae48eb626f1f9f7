-- ===== src/TicketCache/Laws.antt =====
-- Reading after writing in ticketCache.ts: round trip, isolation of keys, expiry, batches.
use lucky_scratch.Prelude.{
  ℕ, ◌+◌, ◌≤◌, ◌≡◌, ◌≢◌, refl, sym, ◌∙◌, true, false, Option, none, some, [], ◌∷◌, arith,
  if◌then◌else◌, Bool-cases, Option-cases, inl, inr,
}
use lucky_scratch.Prelude.Texts.{Text, text_eq, text_eq→eq, text_eq_refl}
use lucky_scratch.TicketCache.{
  CachedReward, RewardCacheScope, cache_ttl_ms, Cache, lookup, erase, insert, Browser, read_cache,
  write_cache, cache_key, build_cache_entry, get, set, remove,
}
use lucky_scratch.TicketCache.Keys.{NoColon?, SameScope, contract_of, owner_of, cache_key_injective}

pub lookup-insert :
    (k j : Text) (e : CachedReward) (cache : Cache)
    → lookup j (insert k e cache) ≡ (if text_eq k j then some e else lookup j cache)
lookup-insert k j e [] = refl
lookup-insert k j e ((i, old) ∷ cache) = elim (Bool-cases (text_eq i k)) [
  | inl same ↦ rw (text_eq→eq i k same, text_eq_refl k) (ground arith)
  | inr other ↦ elim (Bool-cases (text_eq i j)) [
    | inl here ↦ elim (Bool-cases (text_eq k j)) [
      | inl both ↦
          let i_eq_k : i ≡ k = text_eq→eq i j here ∙ sym (text_eq→eq k j both) in
          absurd (cc (rw i_eq_k at other, text_eq_refl k))
      | inr apart ↦ ground arith
    ]
    | inr there ↦ ground (arith, lookup-insert k j e cache)
  ]
]

lookup-erase : (k : Text) (cache : Cache) → lookup k (erase k cache) ≡ none
lookup-erase k [] = refl
lookup-erase k ((j, e) ∷ cache) = ground (arith, lookup-erase k cache)

-- A browser whose storage takes writes.
abbrev pub IsWritable : Browser → Type 0
IsWritable b = (b.has_window ≡ true) × (b.writable ≡ true)

pub read_cache-write_cache :
    (cache : Cache) (b : Browser) → IsWritable b → read_cache (write_cache cache b) ≡ cache
unfolding read_cache write_cache
read_cache-write_cache cache b h = ground arith

read_cache-write_cache_lost :
    (cache : Cache) (b : Browser) → b.writable ≡ false → write_cache cache b ≡ b
unfolding write_cache
read_cache-write_cache_lost cache b h = ground arith

pub text_eq-ne : (s t : Text) → s ≢ t → text_eq s t ≡ false
text_eq-ne s t h = elim (Bool-cases (text_eq s t)) [
  | inl same ↦ absurd (h (text_eq→eq s t same))
  | inr other ↦ other
]

get-set_ne :
    (now later chain ticket chain' ticket' amount : ℕ) (proof : Option Text)
    (s s' : Option RewardCacheScope) (b : Browser)
    → IsWritable b
    → cache_key chain ticket s ≢ cache_key chain' ticket' s'
    → get later (set now chain ticket amount proof s b) chain' ticket' s'
      ≡ get later b chain' ticket' s'
unfolding get set
get-set_ne now later chain ticket chain' ticket' amount proof s s' b h ne =
    rw
      (
        read_cache-write_cache
            (insert (cache_key chain ticket s) (build_cache_entry amount proof now s)
              (read_cache b))
            b h,
        lookup-insert (cache_key chain ticket s) (cache_key chain' ticket' s')
            (build_cache_entry amount proof now s) (read_cache b),
        text_eq-ne _ _ ne,
      )
      refl

-- Where the storage takes writes and no contract or owner contains a colon, storing a reward
-- changes no read for another chain, another ticket, another contract or another owner beside a
-- contract.
pub get-set_isolated :
    (now later chain ticket chain' ticket' amount : ℕ) (proof : Option Text)
    (s s' : Option RewardCacheScope) (b : Browser)
    → IsWritable b
    → NoColon? (contract_of s)
    → NoColon? (owner_of s)
    → NoColon? (contract_of s')
    → NoColon? (owner_of s')
    → ¬ (
        (chain ≡ chain')
        × (ticket ≡ ticket')
        × SameScope (contract_of s) (owner_of s) (contract_of s') (owner_of s'))
    → get later (set now chain ticket amount proof s b) chain' ticket' s'
      ≡ get later b chain' ticket' s'
get-set_isolated now later chain ticket chain' ticket' amount proof s s' b h h1 h2 h3 h4 apart =
    get-set_ne now later chain ticket chain' ticket' amount proof s s' b h
      (λ e. apart (cache_key_injective chain ticket chain' ticket' s s' h1 h2 h3 h4 e))

-- An entry that get returns is the stored one under its key, and it is not older than seven days.
pub get_fresh :
    (now chain ticket : ℕ) (s : Option RewardCacheScope) (b : Browser) (e : CachedReward)
    → get now b chain ticket s ≡ some e
    → (now ≤ e.cached_at + cache_ttl_ms)
      × (lookup (cache_key chain ticket s) (read_cache b) ≡ some e)
unfolding get
get_fresh now chain ticket s b e h =
    elim (Option-cases (lookup (cache_key chain ticket s) (read_cache b))) [
      | inl nothing ↦ absurd (ground arith)
      | inr (found, eq) ↦ (ground arith, ground arith)
    ]

-- Where the storage takes writes, a removed ticket reads as absent.
pub get-remove :
    (now chain ticket : ℕ) (s : Option RewardCacheScope) (b : Browser)
    → IsWritable b
    → get now (remove chain ticket s b) chain ticket s ≡ none
unfolding get remove
get-remove now chain ticket s b h =
    rw
      (
        read_cache-write_cache (erase (cache_key chain ticket s) (read_cache b)) b h,
        lookup-erase (cache_key chain ticket s) (read_cache b),
      )
      refl

lookup-erase_other :
    (k j : Text) (cache : Cache) → text_eq k j ≡ false → lookup j (erase k cache) ≡ lookup j cache
lookup-erase_other k j [] ne = refl
lookup-erase_other k j ((i, e) ∷ cache) ne = elim (Bool-cases (text_eq i k)) [
  | inl same ↦
      let i_eq : i ≡ k = text_eq→eq i k same in
      let other : text_eq i j ≡ false = rw i_eq ne in
      rw (same, other) (lookup-erase_other k j cache ne)
  | inr apart ↦ ground (arith, lookup-erase_other k j cache ne)
]

pub remove-IsWritable :
    (chain ticket : ℕ) (s : Option RewardCacheScope) (b : Browser)
    → IsWritable b
    → IsWritable (remove chain ticket s b)
unfolding remove write_cache
remove-IsWritable chain ticket s b h = ground arith

pub get-remove-none :
    (now chain ticket other : ℕ) (s : Option RewardCacheScope) (b : Browser)
    → IsWritable b
    → get now b chain other s ≡ none
    → get now (remove chain ticket s b) chain other s ≡ none
unfolding get remove
get-remove-none now chain ticket other s b w h =
    let k = cache_key chain ticket s in
    let j = cache_key chain other s in
    rw (read_cache-write_cache (erase k (read_cache b)) b w) (elim (Bool-cases (text_eq k j)) [
      | inl same ↦ rw (text_eq→eq k j same, lookup-erase j (read_cache b)) refl
      | inr apart ↦ rw (lookup-erase_other k j (read_cache b) apart) h
    ])
