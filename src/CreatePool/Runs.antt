-- ===== src/CreatePool/Runs.antt =====
-- What a run of `handleCreatePool` does: the calls it makes, in every outcome.
use lucky_scratch.Prelude.{
  ℕ, ◌≡◌, ◌⊎◌, inl, inr, refl, ◌&&◌, Bool, true, false, not, none, some, List, [], ◌∷◌, ◌++◌, map,
  arith, Option-cases, Bool-cases,
}
use lucky_scratch.Prelude.Texts.{Text, codes}
use lucky_scratch.Types.{PoolDraft, FinalizePoolInput}
use lucky_scratch.CreatePool.{
  Form, File, validation_errors, ValidationError, is_official, target_rtp_bps,
}
use lucky_scratch.CreatePool.Economics.{IsValid}
use lucky_scratch.CreatePool.Sent.{pool_config, draft_input, contract_tier, final_prize_tiers}
use lucky_scratch.CreatePool.Submit.{
  Services, Page, Call, set_submitting, set_stage, upload, draft, submit, finalize, sync,
  invalidate, navigate, uploading_cover, uploading_ticket, creating_draft, submitting, finalizing,
  Outcome, failed, created, attempt, settle, handle_create_pool, ending, first_error,
  operator_available,
}

-- A transaction with whole counts that `validatePrizeEconomics` accepts in full; any other call.
abbrev pub IsAccepted : Call → Type 0
IsAccepted (submit c tiers) =
    IsValid tiers c.total_tickets_per_round c.ticket_price c.total_prize_budget c.hit_rate_bps
      c.target_rtp_bps c.max_prize
IsAccepted _ = Unit

first_error-none : (es : List ValidationError) → first_error es ≡ none → es ≡ []
first_error-none [] h = refl
first_error-none (e ∷ es) h = absurd (cc)

-- The guards that a run has passed, and what it then is.
pub record Starts (s : Services) (p : Page) (address : Text) : Type 0 where
  pub wallet : p.form.address ≡ some address
  pub core : p.core_contract ≡ true
  pub admin : (p.form.is_core_admin ≡ true) ⊎ (is_official p.form.pool_type ≡ false)
  pub treasury : p.treasury_contract ≡ true
  pub token : p.payment_token_contract ≡ true
  pub operator : p.treasury_is_operator ≡ true
  pub valid : validation_errors p.form ≡ []
  pub calls :
      (handle_create_pool s p).0 ≡ (set_submitting true ∷ (attempt s p.form address).0) ++ settle
  pub outcome : (handle_create_pool s p).1 ≡ ending (attempt s p.form address).1

abbrev is_ready : Page → Bool
is_ready p =
    p.core_contract
    && not (is_official p.form.pool_type && not p.form.is_core_admin)
    && operator_available p
    && p.treasury_is_operator

abbrev pub IsRefusal : Outcome → Type 0
IsRefusal failed = ⊥
IsRefusal (created id) = ⊥
IsRefusal _ = Unit

-- A refused run makes no call; any other has passed every guard.
pub handle_create_pool-cases :
    (s : Services) (p : Page)
    → ((handle_create_pool s p).0 ≡ []) × IsRefusal (handle_create_pool s p).1
      ⊎ ((address : Text) × Starts s p address)
unfolding handle_create_pool
handle_create_pool-cases s p = elim (Option-cases p.form.address) [
  | inl e ↦ inl (ground arith, ground arith)
  | inr (address, e) ↦ elim (Option-cases (first_error (validation_errors p.form))) [
    | inr (err, bad) ↦ inl (ground arith, ground arith)
    | inl fine ↦ elim (Bool-cases (is_ready p)) [
      | inr missing ↦ inl (ground arith, ground arith)
      | inl ready ↦ inr (
        address,
        record {
          wallet = e;
          core = ground arith;
          admin = ground arith;
          treasury = ground arith;
          token = ground arith;
          operator = ground arith;
          valid = first_error-none _ fine;
          calls = ground arith;
          outcome = ground arith;
        },
      )
    ]
  ]
]

abbrev pub binding : PoolDraft → Text → Text → FinalizePoolInput
binding d address hash = record {
  draft_id = d.draft_id;
  owner_address = address;
  create_tx_hash = hash;
}

-- A whole run: what each service answered, and the calls in their order.
pub record Completed (s : Services) (f : Form) (address id : Text) : Type 0 where
  pub cover_file : File
  pub art_file : File
  pub cover : ℕ
  pub art : ℕ
  pub pool_draft : PoolDraft
  pub hash : Text
  pub has_cover : f.cover_file ≡ some cover_file
  pub has_art : f.ticket_art_file ≡ some art_file
  pub cover_uploaded : s.upload_image cover_file address (codes "pool-cover") ≡ some cover
  pub art_uploaded : s.upload_image art_file address (codes "ticket-art") ≡ some art
  pub cover_sent : (draft_input f address cover art).cover_asset_id ≡ cover
  pub art_sent : (draft_input f address cover art).ticket_art_asset_id ≡ art
  pub drafted : s.create_pool_draft (draft_input f address cover art) ≡ some pool_draft
  pub mined :
      s.write_create_pool
        (pool_config f address pool_draft.theme_id)
        (map contract_tier (final_prize_tiers f))
      ≡ some (record { tx_hash = some hash; created_pool_id = some id })
  pub bound : s.finalize_pool id (binding pool_draft address hash) ≡ true
  pub calls :
      (attempt s f address).0
      ≡ set_stage uploading_cover
        ∷ upload cover_file address (codes "pool-cover")
        ∷ set_stage uploading_ticket
        ∷ upload art_file address (codes "ticket-art")
        ∷ set_stage creating_draft
        ∷ draft (draft_input f address cover art)
        ∷ set_stage submitting
        ∷ submit
            (pool_config f address pool_draft.theme_id)
            (map contract_tier (final_prize_tiers f))
        ∷ set_stage finalizing
        ∷ finalize id (binding pool_draft address hash)
        ∷ sync hash
        ∷ invalidate
        ∷ navigate id
        ∷ []
