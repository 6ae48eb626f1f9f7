-- ===== src/Profile.antt =====
-- The profile of a user: packages/nextjs/app/profile/page.tsx. The labels of the user and the level
-- that the money spent on tickets comes to.
pub mod Overview
pub mod Laws
mod Tests
use lucky_scratch.Prelude.{
  ℕ, ◌-◌, ◌*◌, ◌/◌, Bool, true, false, not, ◌&&◌, Option, none, some, List, [], ◌∷◌, ◌++◌, ltb,
  ◌==◌, count_by, sum_by, take, drop, or_else, if◌then◌else◌,
}
use lucky_scratch.Prelude.Texts.{Text, codes, is_empty, to_upper}
use lucky_scratch.Types.{LuckyScratchTicket, TicketStatus, unscratched, LuckyScratchPool}
use lucky_scratch.Display.{last_of}

abbrev pub text_or : Text → (Text → Text) → Option Text → Text
text_or otherwise f none = otherwise
text_or otherwise f (some s) = if is_empty s then otherwise else f s

unfoldable pub format_short_address : Option Text → Text
format_short_address =
    text_or (codes "NOT_CONNECTED") (λ address. take 6 address ++ codes "..." ++ last_of 4 address)

unfoldable pub player_label : Option Text → Text
player_label =
    text_or (codes "PLAYER_ANON") (λ address. codes "PLAYER_" ++ to_upper (take 6 (drop 2 address)))

unfoldable pub profile_role_label : ℕ → ℕ → Text
profile_role_label pool_count win_count =
    if ltb 0 pool_count && ltb 0 win_count
    then codes "CREATOR + PLAYER"
    else if ltb 0 pool_count
    then codes "CREATOR"
    else if ltb 0 win_count
    then codes "WINNING PLAYER"
    else codes "ACTIVE PLAYER"

-- `ticket.status !== "Unscratched"`
abbrev pub is_revealed : LuckyScratchTicket → Bool
is_revealed ticket = elim ticket.status [ unscratched ↦ false | _ ↦ true ]

unfoldable pub revealed_tickets : List LuckyScratchTicket → ℕ
revealed_tickets tickets = count_by is_revealed tickets

-- `priceMap.get(poolId)`, where a later pool replaces an earlier one of the same number.
abbrev pub price_of : ℕ → List LuckyScratchPool → Option ℕ
price_of id [] = none
price_of id (pool ∷ pools) = elim (price_of id pools) [
  | some price ↦ some price
  | none ↦ if pool.pool_id == id then some pool.ticket_price else none
]

abbrev pub is_nil : {A : Type 0} → List A → Bool
is_nil [] = true
is_nil (x ∷ xs) = false

unfoldable pub total_spent_micro : List LuckyScratchPool → List LuckyScratchTicket → ℕ
total_spent_micro pools tickets = sum_by (λ t. or_else (price_of t.pool_id pools) 0) tickets

-- `totalSpentMicro / 1e6 / 100`, rounded down.
unfoldable pub user_level : List LuckyScratchPool → List LuckyScratchTicket → ℕ
unfolding total_spent_micro
user_level pools tickets =
    if is_nil tickets
    then 0
    else if is_nil pools
    then 0
    else total_spent_micro pools tickets / 100000000

-- `copyAddress`: whether the text is written, and the notice, if there is an address.
pub data Note : Type 0 where
  success failure : Text → Note

unfoldable pub copy_address : (Text → Bool) → Option Text → Option Note
copy_address write_text none = none
copy_address write_text (some address) =
    if is_empty address
    then none
    else if write_text address
    then some (success (codes "Wallet address copied."))
    else some (failure (codes "Failed to copy wallet address."))
