-- ===== src/Vault/Cards/Laws.antt =====
-- What a card of MyTicketsVault.tsx tells of a reward.
use lucky_scratch.Prelude.{ℕ, ◌≡◌, ◌⊎◌, Bool, true, Option, none, some, arith}
use lucky_scratch.Prelude.Texts.{Text, codes}
use lucky_scratch.Types.{LuckyScratchTicket}
use lucky_scratch.Vault.{
  is_unscratched, is_scratched, is_ticket_ready_for_claim, get_ticket_card_status,
  get_known_reward_amount,
}
use lucky_scratch.Vault.Cards.{usdc, prize_amount, action, card}

-- The card of an unscratched ticket shows no amount; any other card shows none, the known reward,
-- or the word ENCRYPTED, the last only for a scratched ticket whose reveal is authorised and whose
-- reward is not cached.
pub card-amount :
    (format : ℕ → Text) (ticket : LuckyScratchTicket) (address : Option Text) (cached : Option ℕ)
    (is_claiming : Bool) (claim_stage : Text)
    → let shown = card format ticket address cached is_claiming claim_stage in
      (is_unscratched ticket.status ≡ true → shown.amount ≡ none)
      × ((shown.amount ≡ none)
          ⊎ ((shown.amount ≡ some (usdc format (get_known_reward_amount ticket cached)))
              ⊎ ((shown.amount ≡ some (codes "ENCRYPTED"))
                  × (cached ≡ none)
                  × (is_scratched ticket.status ≡ true)
                  × (ticket.reveal_authorized ≡ true))))
unfolding card prize_amount action is_ticket_ready_for_claim get_ticket_card_status
    get_known_reward_amount
card-amount format ticket none none b s = ground arith
card-amount format ticket (some a) none b s = ground arith
card-amount format ticket none (some n) b s = ground arith
card-amount format ticket (some a) (some n) b s = ground arith
