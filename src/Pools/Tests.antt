-- ===== src/Pools/Tests.antt =====
-- A pool with a profit, and a wallet that carries out every call.
use lucky_scratch.Prelude.{
  ◌≡◌, refl, true, false, none, some, List, [], ◌∷◌, ◌++◌, suc, length, count_by, ◌≤◌, ◌<◌, ◌*◌,
  All, if◌then◌else◌,
}
use lucky_scratch.Prelude.Texts.{codes}
use lucky_scratch.Samples.{alice, pool_with}
use lucky_scratch.Types.{LuckyScratchPool}
use lucky_scratch.Pools.{withdraw_profit, withdraw_creator_profit, request_of}
use lucky_scratch.Pools.Laws.{contract_accepts, request_of-contract_accepts}
use lucky_scratch.Pools.Listing.{pool_title}

abbrev pool : LuckyScratchPool
pool = record (pool_with 7 1000000 3) { claimable_creator_profit = 500 }

title_test : pool_title pool ≡ codes "Pool #7"
unfolding pool_title lucky_scratch.Prelude.Decimal.decimal
title_test = refl

request_of-contract_accepts_example :
    contract_accepts alice false pool (withdraw_creator_profit 7 500) ≡ true
unfolding request_of
request_of-contract_accepts_example =
    request_of-contract_accepts alice false withdraw_profit pool (withdraw_creator_profit 7 500)
      refl refl
