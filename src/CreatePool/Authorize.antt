-- ===== src/CreatePool/Authorize.antt =====
-- `handleAuthorizeTreasury` of CreatePoolPage.tsx. The wallet is a parameter: nothing where the call
-- succeeds, and the parsed message of what it throws. Time is in milliseconds, as Date.now gives it.
pub mod Laws
use lucky_scratch.Prelude.{
  ℕ, ◌+◌, ◌*◌, ◌/◌, Bool, true, false, Option, none, some, List, [], ◌∷◌, ◌++◌, if◌then◌else◌,
}
use lucky_scratch.Prelude.Texts.{Text, codes, is_empty}

pub data Note : Type 0 where
  success failure : Text → Note

pub record Panel : Type 0 where
  pub is_authorizing_operator : Bool
  pub submission_stage : Text
  pub notes : List Note
  pub calls : List (Text × ℕ)  -- setOperator, with the operator and the expiry
  pub invalidated : ℕ  -- how often the reads of contracts were made stale

abbrev pub note : Note → Panel → Panel
note n panel = record panel { notes = panel.notes ++ n ∷ [] }

abbrev pub expiry : ℕ → ℕ
expiry now = now / 1000 + 60 * 60 * 24 * 365

-- The `try` with its `catch`.
abbrev pub after_call : Option Text → Panel → Panel
after_call none panel =
    note (success (codes "cUSDC operator authorization completed."))
      (record panel { invalidated = panel.invalidated + 1 })
after_call (some message) panel =
    note
      (failure (if is_empty message then codes "Failed to authorize cUSDC operator." else message))
      panel

-- The `finally`.
abbrev pub finished : Panel → Panel
finished panel = record panel { is_authorizing_operator = false; submission_stage = [] }

abbrev pub no_treasury : Panel → Panel
no_treasury = note (
    failure
      (codes "LuckyScratchTreasury deployment metadata is unavailable on the current network."))

unfoldable pub handle_authorize_treasury :
    (Text → ℕ → Option Text) → ℕ → Option Text → Panel → Panel
handle_authorize_treasury set_operator now none panel = no_treasury panel
handle_authorize_treasury set_operator now (some treasury) panel =
    if is_empty treasury
    then no_treasury panel
    else finished (
        after_call (set_operator treasury (expiry now)) (record panel {
          is_authorizing_operator = true;
          submission_stage =
              codes "Authorizing LuckyScratchTreasury as a confidential cUSDC operator...";
          calls = panel.calls ++ (treasury, expiry now) ∷ [];
        }))
