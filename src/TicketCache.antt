-- ===== src/TicketCache.antt =====
-- The cache of decrypted rewards in the browser's local storage:
-- packages/nextjs/services/luckyScratch/ticketCache.ts.
mod Tests
pub mod Keys
pub mod Laws
pub mod Batch
use lucky_scratch.Prelude.{
  ℕ, ◌+◌, ◌-◌, ◌*◌, Bool, true, false, not, ◌&&◌, Option, none, some, List, [], ◌∷◌, ◌++◌, ltb,
  if◌then◌else◌, filter,
}
use lucky_scratch.Prelude.Texts.{Text, text_eq, to_lower, is_empty, codes}
use lucky_scratch.Prelude.Decimal.{decimal}

pub record CachedReward : Type 0 where
  pub clear_reward_amount : ℕ
  pub decryption_proof : Option Text
  pub cached_at : ℕ
  pub contract_address : Option Text
  pub owner : Option Text

pub record RewardCacheScope : Type 0 where
  pub contract_address : Option Text
  pub owner : Option Text

-- 7 days in milliseconds
abbrev pub cache_ttl_ms : ℕ
cache_ttl_ms = 7 * 24 * 60 * 60 * 1000

-- `Record<string, CachedReward>`
abbrev pub Cache : Type 0
Cache = List (Text × CachedReward)

abbrev pub lookup : Text → Cache → Option CachedReward
lookup k [] = none
lookup k ((j, e) ∷ cache) = if text_eq j k then some e else lookup k cache

abbrev pub erase : Text → Cache → Cache
erase k [] = []
erase k ((j, e) ∷ cache) = if text_eq j k then erase k cache else (j, e) ∷ erase k cache

abbrev pub insert : Text → CachedReward → Cache → Cache
insert k e [] = (k, e) ∷ []
insert k e ((j, old) ∷ cache) = if text_eq j k then (k, e) ∷ cache else (j, old) ∷ insert k e cache

-- What stands under the storage key: nothing, a text that `JSON.parse` refuses, or a cache.
pub data Item : Type 0 where
  absent corrupt : Item
  stored : Cache → Item

-- Where the code runs: in a browser or on the server, and whether the storage takes a write.
pub record Browser : Type 0 where
  pub has_window : Bool
  pub item : Item
  pub writable : Bool

unfoldable pub read_cache : Browser → Cache
read_cache b =
    if not b.has_window
    then []
    else elim b.item [ stored cache ↦ cache | absent ↦ [] | corrupt ↦ [] ]

unfoldable pub write_cache : Cache → Browser → Browser
write_cache cache b =
    if not b.has_window then b else if b.writable then record b { item = stored cache } else b

abbrev pub normalize_scope_value : Option Text → Option Text
normalize_scope_value none = none
normalize_scope_value (some value) = some (to_lower value)

-- A text that is there and not empty.
abbrev pub truthy : Option Text → Option Text
truthy none = none
truthy (some s) = if is_empty s then none else some s

abbrev pub scope_contract : Option RewardCacheScope → Option Text
scope_contract none = none
scope_contract (some scope) = normalize_scope_value scope.contract_address

abbrev pub scope_owner : Option RewardCacheScope → Option Text
scope_owner none = none
scope_owner (some scope) = normalize_scope_value scope.owner

abbrev colon : Text → Text → Text
colon s t = s ++ b':' ∷ t

abbrev key_of : Text → Text → Option Text → Option Text → Text
key_of chain ticket none owner = colon chain ticket
key_of chain ticket (some contract) none = colon chain (colon contract ticket)
key_of chain ticket (some contract) (some owner) = colon chain (colon contract (colon owner ticket))

unfoldable pub cache_key : ℕ → ℕ → Option RewardCacheScope → Text
cache_key chain_id ticket_id scope =
    key_of (decimal chain_id) (decimal ticket_id) (truthy (scope_contract scope))
      (truthy (scope_owner scope))

unfoldable pub build_cache_entry : ℕ → Option Text → ℕ → Option RewardCacheScope → CachedReward
build_cache_entry amount proof now scope = record {
  clear_reward_amount = amount;
  decryption_proof = proof;
  cached_at = now;
  contract_address = scope_contract scope;
  owner = scope_owner scope;
}

abbrev pub fresh : ℕ → Option CachedReward → Option CachedReward
fresh now none = none
fresh now (some e) = if ltb cache_ttl_ms (now - e.cached_at) then none else some e

unfoldable pub get : ℕ → Browser → ℕ → ℕ → Option RewardCacheScope → Option CachedReward
get now b chain_id ticket_id scope =
    fresh now (lookup (cache_key chain_id ticket_id scope) (read_cache b))

unfoldable pub set : ℕ → ℕ → ℕ → ℕ → Option Text → Option RewardCacheScope → Browser → Browser
set now chain_id ticket_id amount proof scope b =
    write_cache
      (insert (cache_key chain_id ticket_id scope) (build_cache_entry amount proof now scope)
        (read_cache b))
      b

pub record BatchEntry : Type 0 where
  pub ticket_id : ℕ
  pub clear_reward_amount : ℕ
  pub decryption_proof : Option Text

insert_all : ℕ → ℕ → Option RewardCacheScope → List BatchEntry → Cache → Cache
insert_all now chain_id scope [] cache = cache
insert_all now chain_id scope (e ∷ es) cache = insert_all now chain_id scope es (
    insert (cache_key chain_id e.ticket_id scope)
      (build_cache_entry e.clear_reward_amount e.decryption_proof now scope) cache)

unfoldable pub set_batch : ℕ → ℕ → List BatchEntry → Option RewardCacheScope → Browser → Browser
unfolding insert_all
set_batch now chain_id entries scope b =
    write_cache (insert_all now chain_id scope entries (read_cache b)) b

unfoldable pub remove : ℕ → ℕ → Option RewardCacheScope → Browser → Browser
remove chain_id ticket_id scope b =
    write_cache (erase (cache_key chain_id ticket_id scope) (read_cache b)) b
