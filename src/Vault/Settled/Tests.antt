-- ===== src/Vault/Settled/Tests.antt =====
-- A claim of two tickets of one pool.
use lucky_scratch.Prelude.{◌≡◌, refl, true, some, none, [], ◌∷◌, length, All}
use lucky_scratch.Prelude.Texts.{codes}
use lucky_scratch.Types.{claimed}
use lucky_scratch.Samples.{alice, ticket_with}
use lucky_scratch.Queries.Stale.{is_stale}
use lucky_scratch.Vault.ClaimRun.{ClaimMutationResult}
use lucky_scratch.Vault.Settled.{
  invalidated_keys, on_error, failed, info, success, success_notes, to_error_message,
}
use lucky_scratch.Vault.Settled.Laws.{ticket_queries, ticket_queries-is_stale}

abbrev result : ClaimMutationResult
result = record {
  claimed_tickets = ticket_with 4 7 claimed 5 ∷ ticket_with 5 7 claimed 6 ∷ [];
  skipped_zero_count = 0;
}

notes_test : success_notes result ≡ success (codes "2 reward claims submitted.") ∷ []
unfolding success_notes lucky_scratch.Prelude.Decimal.decimal
notes_test = refl

keys_test : length (invalidated_keys (some alice) result) ≡ 8
unfolding invalidated_keys lucky_scratch.Vault.Selection.unique
keys_test = refl

on_error_test :
    on_error (some alice) (failed (codes "Claim proof expired. Decrypt again."))
    ≡ (info (codes "Claim proof expired. Decrypt again."), [])
unfolding on_error to_error_message lucky_scratch.Prelude.Texts.trim
on_error_test = refl

ticket_queries-is_stale_example :
    All
      (λ query. is_stale (invalidated_keys (some alice) result) query ≡ true)
      (ticket_queries alice
        (record { limit = none; offset = none; view = none; pool_id = none })
        20
        5
        7)
ticket_queries-is_stale_example =
    ticket_queries-is_stale alice result
      (record { limit = none; offset = none; view = none; pool_id = none }) 20 5 7 refl refl refl
