-- ===== src/Api/Search.antt =====
-- The query strings of `listUserTickets` and `listPools`. Values are written as they are: they hold
-- no character that URLSearchParams would encode, save the address of a creator.
pub mod Laws
use lucky_scratch.Prelude.{
  ℕ, zero, suc, Bool, true, false, not, Option, none, some, List, [], ◌∷◌, ◌++◌, ◌==◌,
  if◌then◌else◌,
}
use lucky_scratch.Prelude.Texts.{Text, codes, is_empty}
use lucky_scratch.Prelude.Decimal.{decimal}

pub data TicketView : Type 0 where
  all unrevealed revealed winning to_claim : TicketView

pub record ListUserTicketsParams : Type 0 where
  pub limit : Option ℕ
  pub offset : Option ℕ
  pub view : Option TicketView
  pub pool_id : Option ℕ

abbrev pub number_or : ℕ → Option ℕ → ℕ
number_or n none = n
number_or n (some m) = m

abbrev pub view_name : TicketView → Text
view_name all = codes "all"
view_name unrevealed = codes "unrevealed"
view_name revealed = codes "revealed"
view_name winning = codes "winning"
view_name to_claim = codes "to-claim"

abbrev pub Pairs : Type 0
Pairs = List (Text × Text)

-- `set` of the view where there is one that is not "all".
abbrev pub view_pairs : Option TicketView → Pairs
view_pairs none = []
view_pairs (some all) = []
view_pairs (some v) = (codes "view", view_name v) ∷ []

abbrev pub pool_pairs : Option ℕ → Pairs
pool_pairs none = []
pool_pairs (some zero) = []
pool_pairs (some (suc n)) = (codes "poolId", decimal (suc n)) ∷ []

abbrev pub creator_pairs : Option Text → Pairs
creator_pairs none = []
creator_pairs (some s) = if is_empty s then [] else (codes "creator", s) ∷ []

unfoldable pub ticket_pairs : ListUserTicketsParams → Pairs
ticket_pairs p =
    (codes "limit", decimal (number_or 50 p.limit))
      ∷ (codes "offset", decimal (number_or 0 p.offset))
      ∷ view_pairs p.view
    ++ pool_pairs p.pool_id

unfoldable pub pools_pairs : Option Text → Option ℕ → Option ℕ → Pairs
pools_pairs creator limit offset =
    creator_pairs creator
    ++ (codes "limit", decimal (number_or 50 limit))
      ∷ (codes "offset", decimal (number_or 0 offset))
      ∷ []

-- `search.toString()`
unfoldable pub search_text : Pairs → Text
search_text [] = []
search_text ((k, v) ∷ []) = k ++ b'=' ∷ v
search_text ((k, v) ∷ more) = k ++ b'=' ∷ v ++ b'&' ∷ search_text more

unfoldable pub list_user_tickets : Text → ListUserTicketsParams → Text
list_user_tickets address p =
    codes "/api/v1/users/" ++ address ++ codes "/tickets?" ++ search_text (ticket_pairs p)

unfoldable pub list_pools : Option Text → Option ℕ → Option ℕ → Text
list_pools creator limit offset =
    codes "/api/v1/pools?" ++ search_text (pools_pairs creator limit offset)
