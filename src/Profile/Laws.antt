-- ===== src/Profile/Laws.antt =====
-- What the profile shows.
use lucky_scratch.Prelude.{
  ℕ, ◌+◌, ◌*◌, ◌≤◌, ◌<◌, ◌≡◌, ◌⊎◌, inl, inr, refl, sym, ap, ◌∙◌, min, max, Bool, true, ◌&&◌, Option,
  none, some, List, [], ◌∷◌, ◌++◌, map, length, take, count_by, count_by-true, leb→le, arith, All,
}
use lucky_scratch.Prelude.Texts.{Text, codes, text_eq}
use lucky_scratch.Prelude.Int.{ℤ}
use lucky_scratch.Prelude.Sorting.{sort_by, IsTotal, IsSorted, take-sort_by}
use lucky_scratch.Types.{LuckyScratchTicket, LuckyScratchPool}
use lucky_scratch.Faucet.{Answer, threw, gave, Note, failure, success}
use lucky_scratch.Profile.{total_spent_micro, user_level}
use lucky_scratch.Profile.Overview.{
  Env, Services, Panel, ready_to_decrypt, decrypt, error_message, handle_decrypt_balance, settled,
  pressed, best_from, best_claimed_reward_micro, total_winnings_micro, comes_before, all_events,
  activity_items, ActivityItem, ticket_event, stages_set, reset_stage,
}

total_spent_micro-nil : (tickets : List LuckyScratchTicket) → total_spent_micro [] tickets ≡ 0
unfolding total_spent_micro
total_spent_micro-nil [] = refl
total_spent_micro-nil (t ∷ tickets) = omega (arith, total_spent_micro-nil tickets)

-- The level is one for each 100 USDC.
pub user_level_bounds :
    (pools : List LuckyScratchPool) (tickets : List LuckyScratchTicket)
    → let level = user_level pools tickets in
      let spent = total_spent_micro pools tickets in
      (level * 100000000 ≤ spent) × (spent < (level + 1) * 100000000)
unfolding user_level
user_level_bounds pools [] = omega arith
user_level_bounds [] (t ∷ tickets) = omega (arith, total_spent_micro-nil (t ∷ tickets))
user_level_bounds (q ∷ pools) (t ∷ tickets) = omega arith

best_from_lem :
    (best : ℕ) (wins : List LuckyScratchTicket)
    → (best ≤ best_from best wins)
      × All (λ t. t.claim_clear_reward_amount ≤ best_from best wins) wins
      × (best_from best wins ≤ best + total_winnings_micro wins)
unfolding total_winnings_micro
best_from_lem best [] = (omega arith, tt, omega arith)
best_from_lem best (t ∷ wins) =
    let (le, every, bound) = best_from_lem (max best t.claim_clear_reward_amount) wins in
    (omega (arith, le), (omega (arith, le), every), omega (arith, bound))

-- The best reward.
pub best_claimed_reward_micro_lem :
    (wins : List LuckyScratchTicket)
    → All (λ t. t.claim_clear_reward_amount ≤ best_claimed_reward_micro wins) wins
      × (best_claimed_reward_micro wins ≤ total_winnings_micro wins)
unfolding best_claimed_reward_micro
best_claimed_reward_micro_lem wins =
    let (_, every, bound) = best_from_lem 0 wins in (every, omega (arith, bound))

-- Of two events that follow each other the earlier one in the list is no older.
abbrev pub IsLatestFirst : (Text → ℕ) → List ActivityItem → Type 0
IsLatestFirst time [] = Unit
IsLatestFirst time (x ∷ []) = Unit
IsLatestFirst time (x ∷ y ∷ events) =
    (time y.timestamp ≤ time x.timestamp) × IsLatestFirst time (y ∷ events)

-- The events of an operation whose time is of a sort.
abbrev pub events_of : Text → (Text → Bool) → List ActivityItem → ℕ
events_of operation sort events =
    count_by (λ e. text_eq e.operation operation && sort e.timestamp) events

-- Every ticket was bought when it was made, and every claim when the ticket was last changed.
abbrev pub IsWhole : List LuckyScratchTicket → List LuckyScratchTicket → List ActivityItem → Type 0
IsWhole wins tickets events =
    (length events ≡ length wins + length tickets)
    × ((sort : Text → Bool)
        → (events_of (codes "REWARD_CLAIMED") sort events ≡ count_by (λ t. sort t.updated_at) wins)
          × (events_of (codes "TICKET_PURCHASED") sort events
              ≡ count_by (λ t. sort t.created_at) tickets))

module _ (format_usdc_from_micro : ℕ → Text) (time : Text → ℕ) where
  comes_before-IsTotal : IsTotal (comes_before format_usdc_from_micro time)
  comes_before-IsTotal x y h = ground arith

  IsSorted-IsLatestFirst :
      (events : List ActivityItem)
      → IsSorted (comes_before format_usdc_from_micro time) events
      → IsLatestFirst time events
  IsSorted-IsLatestFirst [] h = tt
  IsSorted-IsLatestFirst (x ∷ []) h = tt
  IsSorted-IsLatestFirst (x ∷ y ∷ events) (leads, h) =
      (leb→le _ _ leads, IsSorted-IsLatestFirst (y ∷ events) h)

  purchases-events :
      (sort : Text → Bool) (tickets : List LuckyScratchTicket)
      → let events = map ticket_event tickets in
        (length events ≡ length tickets)
        × (events_of (codes "REWARD_CLAIMED") sort events ≡ 0)
        × (events_of (codes "TICKET_PURCHASED") sort events
            ≡ count_by (λ t. sort t.created_at) tickets)
  purchases-events sort [] = (refl, refl, refl)
  purchases-events sort (t ∷ tickets) = ground (arith, purchases-events sort tickets)

  all_events-IsWhole :
      (sort : Text → Bool) (wins tickets : List LuckyScratchTicket)
      → let events = all_events format_usdc_from_micro time wins tickets in
        (length events ≡ length wins + length tickets)
        × (events_of (codes "REWARD_CLAIMED") sort events ≡ count_by (λ t. sort t.updated_at) wins)
        × (events_of (codes "TICKET_PURCHASED") sort events
            ≡ count_by (λ t. sort t.created_at) tickets)
  all_events-IsWhole sort [] tickets = ground (arith, purchases-events sort tickets)
  all_events-IsWhole sort (w ∷ wins) tickets = ground (arith, all_events-IsWhole sort wins tickets)

  -- The list of what happened last shows ten events, or all if there are fewer, and some rest
  -- stands behind it such that the two together are sorted by time from late to early and are the
  -- events of all claims, at the times when their tickets were last changed, and of all tickets,
  -- at the times when they were made.
  pub activity_items_lem :
      (wins tickets : List LuckyScratchTicket)
      → let shown = activity_items format_usdc_from_micro time wins tickets in
        (length shown ≡ min 10 (length wins + length tickets))
        × (rest : List ActivityItem) × IsLatestFirst time (shown ++ rest)
        × IsWhole wins tickets (shown ++ rest)
  unfolding activity_items
  activity_items_lem wins tickets =
      let events = all_events format_usdc_from_micro time wins tickets in
      let before = comes_before format_usdc_from_micro time in
      let (rest, sorted, same, size) = take-sort_by before comes_before-IsTotal 10 events in
      let shown = take 10 (sort_by before events) in
      let whole = all_events-IsWhole (λ _. true) wins tickets in
      (
        size ∙ ap (min 10) whole.0,
        rest,
        IsSorted-IsLatestFirst (shown ++ rest) sorted,
        (
          sym (count_by-true (shown ++ rest)) ∙ same (λ _. true) ∙ count_by-true events ∙ whole.0,
          λ sort. (
            same _ ∙ (all_events-IsWhole sort wins tickets).1,
            same _ ∙ (all_events-IsWhole sort wins tickets).2,
          ),
        ),
      )

abbrev pub balance_decrypted : Note
balance_decrypted = success (codes "cUSDC balance decrypted.")

-- A press ends with one notice: of the success, where a balance has just been decrypted and is
-- shown, or of a failure, where the balance shown is the one before.
abbrev pub IsSettled : Services → Env → Panel → Panel → Type 0
IsSettled services env panel after =
    ((given : Text × Text × Text) × (balance : ℤ) × (ready_to_decrypt env ≡ some given)
      × ((decrypt services given).1 ≡ gave balance)
      × (after.decrypted_cusdc_balance ≡ some balance)
      × (after.notes ≡ panel.notes ++ balance_decrypted ∷ []))
    ⊎ ((message : Text) × (after.notes ≡ panel.notes ++ failure message ∷ [])
        × (after.decrypted_cusdc_balance ≡ panel.decrypted_cusdc_balance))

-- The stage is empty, or the guard has refused and left it.
abbrev pub IsStageLeft : Env → Panel → Panel → Type 0
IsStageLeft env panel after =
    (after.balance_stage ≡ [])
    ⊎ (ready_to_decrypt env ≡ none) × (after.balance_stage ≡ panel.balance_stage)

stages_set-keeps :
    (services : Services) (stages : List Text) (panel : Panel)
    → ((stages_set services stages panel).notes ≡ panel.notes)
      × ((stages_set services stages panel).decrypted_cusdc_balance ≡ panel.decrypted_cusdc_balance)
stages_set-keeps services [] panel = (refl, refl)
stages_set-keeps services (stage ∷ stages) panel =
    stages_set-keeps services stages (record panel { balance_stage = stage })

settled-IsSettled :
    (services : Services) (env : Env) (panel during : Panel) (given : Text × Text × Text)
    (r : Answer ℤ)
    → ready_to_decrypt env ≡ some given
    → (decrypt services given).1 ≡ r
    → during.notes ≡ panel.notes
    → during.decrypted_cusdc_balance ≡ panel.decrypted_cusdc_balance
    → IsSettled services env panel (reset_stage services (settled services r during))
unfolding reset_stage
settled-IsSettled services env panel during given (threw e) q q' same kept =
    inr (error_message e, ap (λ notes. notes ++ failure (error_message e) ∷ []) same, kept)
settled-IsSettled services env panel during given (gave balance) q q' same kept =
    inl (given, balance, q, q', refl, ap (λ notes. notes ++ balance_decrypted ∷ []) same)

reset_stage-empty :
    (services : Services) (panel : Panel) → (reset_stage services panel).balance_stage ≡ []
unfolding reset_stage
reset_stage-empty services panel = refl

pressed-IsSettled :
    (services : Services) (env : Env) (panel : Panel) (o : Option (Text × Text × Text))
    → ready_to_decrypt env ≡ o
    → let after = pressed services o panel in
      IsSettled services env panel after × IsStageLeft env panel after
unfolding pressed
pressed-IsSettled services env panel none q = (inr (_, refl, refl), inr (q, refl))
pressed-IsSettled services env panel (some given) q =
    let run = decrypt services given in
    let during = stages_set services run.0 panel in
    let (same, kept) = stages_set-keeps services run.0 panel in
    (
      settled-IsSettled services env panel during given run.1 q refl same kept,
      inl (reset_stage-empty services (settled services run.1 during)),
    )

-- Pressing the button that decrypts the balance adds exactly one notice, whatever the wallet and
-- the relayer answer: of the success, with the balance that a decryption, let through by the
-- guard, has just answered, or of a failure, with the balance shown before. At the end no stage of
-- the decryption is left showing: the stage is empty, or the guard has refused and not touched it.
pub handle_decrypt_balance-IsSettled :
    (services : Services) (env : Env) (panel : Panel)
    → let after = handle_decrypt_balance services env panel in
      IsSettled services env panel after × IsStageLeft env panel after
unfolding handle_decrypt_balance
handle_decrypt_balance-IsSettled services env panel =
    pressed-IsSettled services env panel (ready_to_decrypt env) refl
