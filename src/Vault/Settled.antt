-- ===== src/Vault/Settled.antt =====
-- What `claimRewardMutation` of MyTicketsVault.tsx says and makes stale when it has ended, in
-- `onSuccess` past its edits of the cache and in `onError`.
pub mod Laws
mod Tests
use lucky_scratch.Prelude.{
  ℕ, Bool, true, false, Option, none, some, List, [], ◌∷◌, ◌++◌, map, ltb, ◌==◌, length,
  if◌then◌else◌,
}
use lucky_scratch.Prelude.Texts.{Text, codes, trim, includes, is_empty}
use lucky_scratch.Prelude.Decimal.{decimal}
use lucky_scratch.Types.{LuckyScratchTicket}
use lucky_scratch.Queries.{Key, text, root, user_key}
use lucky_scratch.Vault.Selection.{unique}
use lucky_scratch.Vault.ClaimRun.{ClaimMutationResult}

pub data Note : Type 0 where
  info success warning error : Text → Note

abbrev pub ticket_key : LuckyScratchTicket → Key
ticket_key t = root (text (codes "tickets") ∷ text (decimal t.ticket_id) ∷ [])

abbrev pub pool_key : ℕ → Key
pool_key id = root (text (codes "pools") ∷ text (decimal id) ∷ [])

-- The keys of a user, where there is an address.
abbrev pub user_keys : Option Text → List Text → List Key
user_keys none names = []
user_keys (some address) names =
    if is_empty address then [] else map (λ name. user_key (some address) (text name ∷ [])) names

unfoldable pub invalidated_keys : Option Text → ClaimMutationResult → List Key
invalidated_keys address result =
    (text (codes "readContract") ∷ []) ∷ map ticket_key result.claimed_tickets
    ++ map pool_key (unique [] (map LuckyScratchTicket.pool_id result.claimed_tickets))
    ++ root (text (codes "stats") ∷ text (codes "overview") ∷ [])
      ∷ root (text (codes "wins") ∷ text (codes "recent") ∷ [])
      ∷ user_keys address (codes "tickets" ∷ codes "wins" ∷ [])

abbrev pub submitted : List LuckyScratchTicket → Text
submitted (t ∷ []) = codes "Ticket #" ++ decimal t.ticket_id ++ codes " reward claim submitted."
submitted ts = decimal (length ts) ++ codes " reward claims submitted."

unfoldable pub success_notes : ClaimMutationResult → List Note
success_notes result =
    (if ltb 0 result.skipped_zero_count
      then info (
          decimal result.skipped_zero_count
          ++ codes " zero-reward ticket(s) did not need a claim transaction.")
        ∷ []
      else [])
    ++ success (submitted result.claimed_tickets) ∷ []

-- What the mutation threw: a ZeroRewardClaimError, another Error, or anything else.
pub data Failure : Type 0 where
  zero_reward_claim_error failed : Text → Failure
  other : Failure

unfoldable pub to_error_message : Failure → Text
unfolding trim
to_error_message (zero_reward_claim_error message) =
    if is_empty (trim message) then codes "Reward claim failed." else message
to_error_message (failed message) =
    if is_empty (trim message) then codes "Reward claim failed." else message
to_error_message other = codes "Reward claim failed."

abbrev pub told : Option Text → Text → Note × List Key
told address message =
    if includes message (codes "Claim proof expired")
    then (info message, [])
    else if includes message (codes "TicketNotClaimable")
    then (
      warning (codes "Ticket state has changed. Refreshing data — please try again."),
      user_keys address (codes "tickets" ∷ []),
    )
    else (error message, [])

-- The notice, and the keys that are made stale.
unfoldable pub on_error : Option Text → Failure → Note × List Key
unfolding to_error_message
on_error address (zero_reward_claim_error message) = (info message, [])
on_error address (failed message) = told address (to_error_message (failed message))
on_error address other = told address (to_error_message other)
