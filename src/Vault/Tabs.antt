-- ===== src/Vault/Tabs.antt =====
-- Which tickets a tab of MyTicketsVault.tsx shows, and how a card is labelled.
use lucky_scratch.Prelude.{ℕ, ◌<◌, ◌≡◌, ◌↔◌, true, false, Option, none, some, arith}
use lucky_scratch.Prelude.Texts.{Text, is_empty}
use lucky_scratch.Types.{LuckyScratchTicket, scratched}
use lucky_scratch.Vault.{
  unrevealed, revealed, to_claim, is_claimed, owned_by, is_ticket_ready_for_claim,
  get_known_reward_amount, is_ticket_in_tab,
}

-- With a wallet address that is not empty a ticket is in the tab of claims if and only if it is
-- not claimed, its known reward is positive and the address owns it up to case; with an empty one
-- it never is.
pub is_ticket_in_tab-to_claim_iff :
    (t : LuckyScratchTicket) (address : Text) (cached : Option ℕ)
    → (is_ticket_in_tab t to_claim (some address) cached ≡ true) ↔ (
        (is_empty address ≡ false)
        × (is_claimed t.status ≡ false)
        × (0 < get_known_reward_amount t cached)
        × (owned_by t address ≡ true))
unfolding is_ticket_in_tab
is_ticket_in_tab-to_claim_iff t address cached = ground arith

-- A scratched ticket of the user that may be revealed, with nothing cached and a recorded reward
-- of 0, is ready for a claim and yet not in the tab of claims.
pub is_ticket_in_tab-unknown_reward :
    (t : LuckyScratchTicket) (address : Text)
    → is_empty address ≡ false
    → t.status ≡ scratched
    → t.reveal_authorized ≡ true
    → t.claim_clear_reward_amount ≡ 0
    → owned_by t address ≡ true
    → (is_ticket_ready_for_claim t (some address) none ≡ true)
      × (is_ticket_in_tab t to_claim (some address) none ≡ false)
unfolding is_ticket_in_tab
is_ticket_in_tab-unknown_reward t address h1 h2 h3 h4 h5 = ground arith

-- A ticket is in exactly one of the tabs of unrevealed and of revealed tickets.
pub is_ticket_in_tab_partition :
    (t : LuckyScratchTicket) (address : Option Text) (cached : Option ℕ)
    → (is_ticket_in_tab t unrevealed address cached ≡ true)
      ↔ (is_ticket_in_tab t revealed address cached ≡ false)
unfolding is_ticket_in_tab
is_ticket_in_tab_partition t address cached = ground arith
