-- ===== src/TicketCache/Tests.antt =====
-- The cache of rewards in a browser that takes writes.
use lucky_scratch.Prelude.{ℕ, ◌≡◌, refl, true, Option, some, arith}
use lucky_scratch.Prelude.Texts.{Text, codes}
use lucky_scratch.Prelude.Decimal.{decimal}
use lucky_scratch.TicketCache.{
  CachedReward, RewardCacheScope, Browser, absent, stored, get, set, set_batch, remove, BatchEntry,
  cache_key, cache_ttl_ms, build_cache_entry, lookup, read_cache, fresh,
}
use lucky_scratch.TicketCache.Keys.{NoColon?, SameScope, contract_of, owner_of}
use lucky_scratch.TicketCache.Laws.{get-set_isolated}

abbrev browser : Browser
browser = record { has_window = true; item = absent; writable = true }

abbrev scope_of : Text → Option RewardCacheScope
scope_of owner = some (record { contract_address = some (codes "0xC0"); owner = some owner })

abbrev ann : Option RewardCacheScope
ann = scope_of (codes "0xA")

abbrev bob : Option RewardCacheScope
bob = scope_of (codes "0xB")

abbrev proof : Option Text
proof = some (codes "0x12")

contract_fine : NoColon? (contract_of ann)
contract_fine = ground arith

ann_fine : NoColon? (owner_of ann)
ann_fine = ground arith

bob_fine : NoColon? (owner_of bob)
bob_fine = ground arith

get_test :
    get 20 (set 10 1 5 700 proof ann browser) 1 5 ann ≡ some (build_cache_entry 700 proof 10 ann)
unfolding get set read_cache lucky_scratch.TicketCache.write_cache cache_key decimal
    build_cache_entry
get_test = refl

abbrev chain : ℕ
chain = 1

abbrev five : ℕ
five = 5

apart : ¬ (
    (chain ≡ chain)
    × (five ≡ five)
    × SameScope (contract_of ann) (owner_of ann) (contract_of bob) (owner_of bob))
apart h = absurd (ground arith)

get-set_isolated_example :
    get 20 (set 10 1 5 700 proof ann browser) 1 5 bob ≡ get 20 browser 1 5 bob
get-set_isolated_example =
    get-set_isolated 10 20 1 5 1 5 700 proof ann bob browser (refl, refl) contract_fine ann_fine
      contract_fine bob_fine apart
