-- ===== src/Purchase/Hint/Laws.antt =====
-- The hint and what a press of the button does.
use lucky_scratch.Prelude.{◌≡◌, ◌↔◌, Bool, true, false, Option, none, some, arith}
use lucky_scratch.Purchase.{round_ready}
use lucky_scratch.Purchase.Handler.{View, refusal, Refusal, bad_selection}
use lucky_scratch.Purchase.Hint.{
  Hint, authorizes, submits_indexes, assigns_indexes, BalanceRead, status_hint,
}

-- The hint speaks of a purchase.
abbrev pub invites : Hint → Bool
invites authorizes = true
invites submits_indexes = true
invites assigns_indexes = true
invites _ = false

abbrev pub is_selection : Option Refusal → Bool
is_selection none = true
is_selection (some bad_selection) = true
is_selection (some _) = false

-- With the contract known, the hint under the button speaks of a purchase if and only if a press
-- is refused for nothing but the selection and the read of the balance neither runs nor has
-- failed.
pub status_hint-refusal :
    (read : BalanceRead) (v : View)
    → v.core_contract ≡ true
    → (invites (status_hint read v) ≡ true)
      ↔ ((is_selection (refusal v) ≡ true) × (read.is_loading ≡ false) × (read.is_error ≡ false))
unfolding status_hint refusal round_ready
status_hint-refusal read v h = ground (arith, h)
