-- ===== src/Pools/Laws.antt =====
-- What the buttons of a pool's card promise, and what the contract makes of the calls.
use lucky_scratch.Prelude.{
  ℕ, suc, ◌≡◌, Bool, true, false, not, ◌&&◌, ◌||◌, Option, some, List, [], ◌∷◌, ◌++◌, arith, leb,
  ◌==◌, length, length-append, append-nil, if◌then◌else◌,
}
use lucky_scratch.Prelude.Texts.{Text, text_eq, to_lower, text_eq_refl}
use lucky_scratch.Types.{LuckyScratchPool}
use lucky_scratch.Store.{is_closed}
use lucky_scratch.Pools.{
  PoolAction, withdraw_profit, refund_bond, close_pool, roll_round, Call, withdraw_creator_profit,
  refund, close, roll, is_loop, has_settled_round, can_withdraw_profit, can_refund_bond,
  can_close_pool, can_roll_round, Request, refused, call, action_request, request_of, Panel,
  invalidated_keys, WalletAnswer, mined, mutate, perform,
}

-- The flag of an action's button.
abbrev pub can_act : PoolAction → LuckyScratchPool → Bool
can_act withdraw_profit = can_withdraw_profit
can_act refund_bond = can_refund_bond
can_act close_pool = can_close_pool
can_act roll_round = can_roll_round

abbrev pub is_call : Request → Bool
is_call (call c) = true
is_call (refused m) = false

-- A button can be clicked exactly where the mutation makes a call.
pub can_act-is_call :
    (action : PoolAction) (pool : LuckyScratchPool)
    → can_act action pool ≡ is_call (action_request action pool)
unfolding can_withdraw_profit can_refund_bond can_close_pool can_roll_round
can_act-is_call withdraw_profit pool = ground arith
can_act-is_call refund_bond pool = ground arith
can_act-is_call close_pool pool = ground arith
can_act-is_call roll_round pool = ground arith

-- The checks of the functions of LuckyScratchCore.sol on the state that a pool's record reports.
abbrev roll_to_next_round_accepts : LuckyScratchPool → Bool
roll_to_next_round_accepts pool =
    is_loop pool && not pool.close_requested && has_settled_round pool.current_round_state

abbrev withdraw_creator_profit_accepts : LuckyScratchPool → ℕ → Bool
withdraw_creator_profit_accepts pool amount =
    not (amount == 0) && leb amount pool.claimable_creator_profit

abbrev refund_bond_accepts : LuckyScratchPool → Bool
refund_bond_accepts pool = is_closed pool.status

-- The modifier of the four functions: the sender created the pool or holds the role of an admin.
-- Addresses are compared without the case of their letters.
abbrev only_pool_creator_or_admin : Text → Bool → LuckyScratchPool → Bool
only_pool_creator_or_admin sender is_admin pool =
    text_eq (to_lower pool.creator) (to_lower sender) || is_admin

-- A pool may be closed in any state.
abbrev state_accepts : LuckyScratchPool → Call → Bool
state_accepts pool (withdraw_creator_profit id amount) = withdraw_creator_profit_accepts pool amount
state_accepts pool (refund id) = refund_bond_accepts pool
state_accepts pool (close id) = true
state_accepts pool (roll id) = roll_to_next_round_accepts pool

abbrev called_pool : Call → ℕ
called_pool (withdraw_creator_profit id amount) = id
called_pool (refund id) = id
called_pool (close id) = id
called_pool (roll id) = id

-- A call about the pool of a record, by a sender.
unfoldable pub contract_accepts : Text → Bool → LuckyScratchPool → Call → Bool
contract_accepts sender is_admin pool c =
    called_pool c == pool.pool_id
    && only_pool_creator_or_admin sender is_admin pool
    && state_accepts pool c

-- Every call that a pool's buttons make names that pool and, where the wallet is the pool's
-- creator, passes the contract's checks of the sender and of the state that the pool's record
-- reports.
pub request_of-contract_accepts :
    (sender : Text) (is_admin : Bool) (action : PoolAction) (pool : LuckyScratchPool) (c : Call)
    → to_lower pool.creator ≡ to_lower sender
    → request_of (some sender) action pool ≡ call c
    → contract_accepts sender is_admin pool c ≡ true
unfolding request_of contract_accepts
request_of-contract_accepts sender is_admin action pool c own h = split action h
  where
    same : text_eq (to_lower pool.creator) (to_lower sender) ≡ true
    same = rw own (text_eq_refl (to_lower sender))

    split :
        (a : PoolAction)
        → request_of (some sender) a pool ≡ call c
        → (called_pool c == pool.pool_id
            && only_pool_creator_or_admin sender is_admin pool
            && state_accepts pool c)
          ≡ true
    split withdraw_profit g = ground (arith, same)
    split refund_bond g = ground (arith, same)
    split close_pool g = ground (arith, same)
    split roll_round g = ground (arith, same)

abbrev pub calls_of : Request → List Call
calls_of (refused m) = []
calls_of (call c) = c ∷ []

-- The request is a call that the wallet carries out.
abbrev pub is_done : (Call → WalletAnswer) → Request → Bool
is_done answer (refused m) = false
is_done answer (call c) = elim (answer c) [ mined ↦ true | _ ↦ false ]

pub mutate_lem :
    (answer : Call → WalletAnswer) (address : Option Text) (action : PoolAction)
    (pool : LuckyScratchPool) (panel : Panel)
    → let r = request_of address action pool in
      let after = mutate answer address action pool panel in
      (after.sent ≡ panel.sent ++ calls_of r)
      × (after.invalidated
          ≡ panel.invalidated
            ++ (if is_done answer r then invalidated_keys address pool.pool_id else []))
      × (length after.notes ≡ suc (length panel.notes))
unfolding mutate
mutate_lem answer address action pool panel = on (request_of address action pool)
  where
    on :
        (r : Request)
        → let after = perform answer address action pool r panel in
          (after.sent ≡ panel.sent ++ calls_of r)
          × (after.invalidated
              ≡ panel.invalidated
                ++ (if is_done answer r then invalidated_keys address pool.pool_id else []))
          × (length after.notes ≡ suc (length panel.notes))
    on (refused m) = grind (arith, length-append, append-nil)
    on (call c) = grind (arith, length-append, append-nil)
