-- ===== src/Scratch.antt =====
-- Opening tickets: `parseTicketIds` and `prepareScratchResults` of
-- packages/nextjs/components/scratch/ScratchPage.tsx. The chain, the relayer and viem's comparison
-- of addresses are parameters, with `none` for a call that throws; the time is read once for a run.
pub mod Page
pub mod Laws
pub mod Links
mod Tests
use lucky_scratch.Prelude.{
  ℕ, ◌+◌, Bool, true, false, not, ◌&&◌, ◌||◌, Option, none, some, List, [], ◌∷◌, ◌++◌, map, leb,
  ltb, ◌==◌, all, any, filter, length, if◌then◌else◌,
}
use lucky_scratch.Prelude.Texts.{Text, text_eq, trim, is_empty}
use lucky_scratch.Prelude.Texts.Split.{split_on}
use lucky_scratch.Prelude.Decimal.{value}
use lucky_scratch.Types.{LuckyScratchTicket, TicketStatus, scratched}
use lucky_scratch.TicketCache.{RewardCacheScope, Browser, BatchEntry, get, set_batch}
use lucky_scratch.Claim.{
  Promise, thrown, fulfilled, TicketClaimProof, Instance, build_ticket_claim_proof_direct,
}

-- `raw.split(",")`
unfoldable pub split_commas : Text → List Text
split_commas = split_on b','

-- `/^\d+$/.test(value)`
abbrev pub is_number : Text → Bool
is_number s = not (is_empty s) && all (λ c. leb 48 c && leb c 57) s

abbrev pub has_text : Text → List Text → Bool
has_text s = any (λ t. text_eq t s)

-- `[...new Set(values)]`
unfoldable pub unique_texts : List Text → List Text → List Text
unique_texts seen [] = seen
unique_texts seen (s ∷ rest) = unique_texts (if has_text s seen then seen else seen ++ s ∷ []) rest

unfoldable pub parse_ticket_ids : Text → List Text
unfolding split_commas unique_texts trim
parse_ticket_ids raw = unique_texts [] (filter is_number (map trim (split_commas raw)))

pub data ScratchCall : Type 0 where
  scratch_ticket : ℕ → ScratchCall
  batch_scratch : List ℕ → ScratchCall

pub record Chain : Type 0 where
  pub get_ticket_reveal_state : ℕ → Option (ℕ × Bool)
  pub owner_of : ℕ → Option Text
  pub is_address_equal : Text → Text → Bool
  pub write_contract : ScratchCall → Option Text
  pub get_ticket_prize_handle : ℕ → Option Text
  pub created : Promise Instance

pub record RevealState : Type 0 where
  pub ticket_id : Text
  pub status : ℕ
  pub reveal_authorized : Bool

-- A reward that is known: its amount in micro-USDC, and its proof if there is one.
pub record TicketResult : Type 0 where
  pub ticket_id : Text
  pub known : Option (ℕ × Option Text)

-- The cached rewards, and the list of the user's tickets that the queries keep.
pub record ScratchState : Type 0 where
  pub browser : Browser
  pub inventory : List LuckyScratchTicket

pub data Failure : Type 0 where
  read_failed not_ready not_owned not_submitted not_authorized : Failure
  not_decrypted : ℕ → Failure

pub data Outcome : Type 0 where
  failed : Failure → Outcome
  prepared : List TicketResult → Outcome

-- `Promise.all` of reads.
abbrev pub read_all : {A : Type 0} → (Text → Option A) → List Text → Option (List A)
read_all read [] = some []
read_all read (id ∷ ids) = elim (read id) [
  | none ↦ none
  | some a ↦ elim (read_all read ids) [ none ↦ none | some rest ↦ some (a ∷ rest) ]
]

abbrev pub state_of : Text → Option (ℕ × Bool) → Option RevealState
state_of id none = none
state_of id (some (status, authorized)) =
    some (record { ticket_id = id; status = status; reveal_authorized = authorized })

abbrev pub is_scratchable : RevealState → Bool
is_scratchable s = s.status == 0

abbrev pub scratchable_ids : List RevealState → List Text
scratchable_ids states = map RevealState.ticket_id (filter is_scratchable states)

abbrev pub call_of : List Text → ScratchCall
call_of (id ∷ []) = scratch_ticket (value id)
call_of ids = batch_scratch (map value ids)

abbrev pub has_number : ℕ → List ℕ → Bool
has_number n = any (λ m. m == n)

abbrev pub set_scratched : List ℕ → LuckyScratchTicket → LuckyScratchTicket
set_scratched ids t =
    if has_number t.ticket_id ids
    then record t { status = scratched; reveal_authorized = true }
    else t

abbrev pub entry_of : TicketResult → List BatchEntry → List BatchEntry
entry_of r rest = elim r.known [
  | none ↦ rest
  | some (amount, proof) ↦
      record {
        ticket_id = value r.ticket_id;
        clear_reward_amount = amount;
        decryption_proof = proof;
      }
      ∷ rest
]

abbrev pub cache_entries : List TicketResult → List BatchEntry
cache_entries [] = []
cache_entries (r ∷ rs) = entry_of r (cache_entries rs)

-- `rewardMap.get`: the last entry of a ticket.
abbrev pub reward_of : ℕ → List BatchEntry → Option ℕ
reward_of id [] = none
reward_of id (e ∷ es) = elim (reward_of id es) [
  | some amount ↦ some amount
  | none ↦ if e.ticket_id == id then some e.clear_reward_amount else none
]

abbrev pub set_reward : List BatchEntry → LuckyScratchTicket → LuckyScratchTicket
set_reward es t = elim (reward_of t.ticket_id es) [
  | none ↦ t
  | some amount ↦ record t { claim_clear_reward_amount = amount }
]

abbrev pub unknown_count : List TicketResult → ℕ
unknown_count [] = 0
unknown_count (r ∷ rs) = elim r.known [ none ↦ 1 + unknown_count rs | some k ↦ unknown_count rs ]

module _ (chain : Chain) (now chain_id : ℕ) (scope : Option RewardCacheScope) (address : Text) where
  abbrev pub read_state : Text → Option RevealState
  read_state id = state_of id (chain.get_ticket_reveal_state (value id))

  abbrev pub read_owner : Text → Option Text
  read_owner id = chain.owner_of (value id)

  abbrev pub proof_result : Promise TicketClaimProof → Option (ℕ × Option Text)
  proof_result (thrown e) = none
  proof_result (fulfilled p) = some (p.clear_reward_amount, some p.decryption_proof)

  abbrev pub decrypt : Option Text → Option (ℕ × Option Text)
  decrypt none = none
  decrypt (some handle) = proof_result (build_ticket_claim_proof_direct chain.created handle)

  -- One of the settled promises: a cached reward, or one decrypted now.
  unfoldable pub result_of : Browser → Text → TicketResult
  result_of browser id = record {
    ticket_id = id;
    known = elim (get now browser chain_id (value id) scope) [
      | some e ↦ some (e.clear_reward_amount, e.decryption_proof)
      | none ↦ decrypt (chain.get_ticket_prize_handle (value id))
    ];
  }

  abbrev pub check_owners : Option (List Text) → Option Failure
  check_owners none = some read_failed
  check_owners (some owners) =
      if any (λ owner. not (chain.is_address_equal owner address)) owners
      then some not_owned
      else none

  -- The checks before the transaction.
  abbrev pub check : List Text → List RevealState → Option Failure
  check ids states =
      if any (λ s. not (leb s.status 2)) states
      then some not_ready
      else check_owners (read_all read_owner ids)

  -- The end: results, cache and list, and whether all tickets are known.
  unfoldable pub decrypt_all : List Text → ScratchState → ScratchState × Outcome
  decrypt_all ids st =
      let results = map (result_of st.browser) ids in
      let entries = cache_entries results in
      let last = if length entries == 0 then st else record st {
        browser = set_batch now chain_id entries scope st.browser;
        inventory = map (set_reward entries) st.inventory;
      } in
      (
        last,
        if ltb 0 (unknown_count results)
            then failed (not_decrypted (unknown_count results))
            else prepared results,
      )

  abbrev pub after_scratch : List Text → List RevealState → ScratchState → ScratchState × Outcome
  after_scratch ids states st =
      if any (λ s. not (is_scratchable s) && not s.reveal_authorized) states
      then (st, failed not_authorized)
      else decrypt_all ids st

  abbrev pub scratched_with :
      List Text → List RevealState → ScratchState → Option Text → ScratchState × Outcome
  scratched_with ids states st none = (st, failed not_submitted)
  scratched_with ids states st (some hash) = after_scratch ids states (record st {
    inventory = map (set_scratched (map value (scratchable_ids states))) st.inventory;
  })

  abbrev pub scratch : List Text → List RevealState → ScratchState → ScratchState × Outcome
  scratch ids states st =
      if length (scratchable_ids states) == 0
      then after_scratch ids states st
      else scratched_with ids states st (chain.write_contract (call_of (scratchable_ids states)))

  abbrev pub checked :
      List Text → List RevealState → ScratchState → Option Failure → ScratchState × Outcome
  checked ids states st (some f) = (st, failed f)
  checked ids states st none = scratch ids states st

  abbrev pub with_states :
      List Text → ScratchState → Option (List RevealState) → ScratchState × Outcome
  with_states ids st none = (st, failed read_failed)
  with_states ids st (some states) = checked ids states st (check ids states)

  -- `prepareScratchResults` past its early returns, for a list of tickets that is not empty.
  unfoldable pub prepare_scratch_results : List Text → ScratchState → ScratchState × Outcome
  prepare_scratch_results ids st = with_states ids st (read_all read_state ids)
