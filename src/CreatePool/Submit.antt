-- ===== src/CreatePool/Submit.antt =====
-- `handleCreatePool` of CreatePoolPage.tsx. The backend, the wallet and the contract are parameters:
-- what each call answers, with `none` or `false` for a call that throws. A run lists the calls that
-- the page makes, in their order, and how the handler ends.
use lucky_scratch.Prelude.{
  ℕ, Bool, true, false, not, ◌&&◌, Option, none, some, List, [], ◌∷◌, ◌++◌, map, is_some,
  if◌then◌else◌,
}
use lucky_scratch.Prelude.Texts.{Text, codes}
use lucky_scratch.Types.{CreatePoolDraftInput, PoolDraft, FinalizePoolInput}
use lucky_scratch.CreatePool.{
  Form, File, ValidationError, is_official, validation_errors, is_integer, prize_pool_micro,
}
use lucky_scratch.CreatePool.Sent.{
  PoolConfig, TierArgument, contract_tier, draft_input, final_prize_tiers, pool_config,
}

pub record Receipt : Type 0 where
  pub tx_hash : Option Text
  pub created_pool_id : Option Text

pub record Services : Type 0 where
  pub upload_image : File → Text → Text → Option ℕ
  pub create_pool_draft : CreatePoolDraftInput → Option PoolDraft
  pub write_create_pool : PoolConfig → List TierArgument → Option Receipt
  pub finalize_pool : Text → FinalizePoolInput → Bool
  pub sync_transaction : Text → Bool

pub data Stage : Type 0 where
  uploading_cover uploading_ticket creating_draft submitting finalizing idle : Stage

pub data Call : Type 0 where
  set_submitting : Bool → Call
  set_stage : Stage → Call
  upload : File → Text → Text → Call
  draft : CreatePoolDraftInput → Call
  submit : PoolConfig → List TierArgument → Call
  finalize : Text → FinalizePoolInput → Call
  sync : Text → Call
  invalidate : Call
  navigate : Text → Call

pub data Outcome : Type 0 where
  no_wallet_connected no_core_contract admin_required no_token_metadata : Outcome
  invalid : ValidationError → Outcome
  operator_required failed : Outcome
  created : Text → Outcome

-- What the page knows besides the form.
pub record Page : Type 0 where
  pub form : Form
  pub core_contract : Bool
  pub treasury_contract : Bool
  pub payment_token_contract : Bool
  pub treasury_is_operator : Bool

abbrev pub operator_available : Page → Bool
operator_available p = is_some p.form.address && p.treasury_contract && p.payment_token_contract

abbrev pub official_admin_ready : Form → Bool
official_admin_ready f = if is_official f.pool_type then f.is_core_admin else true

-- A part of the `try` block: its calls, and `none` where it throws.
abbrev pub Run : Type 0 → Type 0
Run A = List Call × Option A

infixl 5 ◌>>=◌ ◌>>◌
abbrev pub ◌>>=◌ : {A B : Type 0} → Run A → (A → Run B) → Run B
(calls, r) >>= k = elim r [
  | none ↦ (calls, none)
  | some a ↦ let rest = k a in (calls ++ rest.0, rest.1)
]

abbrev pub ◌>>◌ : {A B : Type 0} → Run A → Run B → Run B
m >> k = m >>= λ _. k

abbrev pub call : {A : Type 0} → Call → Option A → Run A
call c r = (c ∷ [], r)

abbrev pub done : Bool → Option (Unit {0})
done true = some tt
done false = none

abbrev pub log : Call → Run (Unit {0})
log c = (c ∷ [], some tt)

-- `coverFile!`: the validation has found a file before this is read.
abbrev pub uploaded : Services → Option File → Text → Text → Run ℕ
uploaded s none address kind = ([], none)
uploaded s (some file) address kind =
    call (upload file address kind) (s.upload_image file address kind)

abbrev pub both : Receipt → Option (Text × Text)
both r = elim r.tx_hash [
  | none ↦ none
  | some hash ↦ elim r.created_pool_id [ none ↦ none | some id ↦ some (hash, id) ]
]

module _ (s : Services) (f : Form) (address : Text) where
  -- After the transaction: bind the metadata, sync, refresh and leave the page.
  unfoldable pub finish : PoolDraft → Text → Text → Run Text
  finish d hash id =
      let binding : FinalizePoolInput = record {
        draft_id = d.draft_id;
        owner_address = address;
        create_tx_hash = hash;
      } in
      do
        log (set_stage finalizing)
        call (finalize id binding) (done (s.finalize_pool id binding))
        log (sync hash)
        log invalidate
        log (navigate id)
        ([], some id)

  -- From the draft to the transaction; `BigInt` throws for a prize pool that is not whole.
  unfoldable pub send : PoolDraft → Run (Text × Text)
  send d =
      let config : PoolConfig = pool_config f address d.theme_id in
      let tiers : List TierArgument = map contract_tier (final_prize_tiers f) in
      do
        log (set_stage submitting)
        ([], done (is_integer (prize_pool_micro f)))
        receipt ← call (submit config tiers) (s.write_create_pool config tiers)
        ([], both receipt)

  -- The `try` block.
  unfoldable pub attempt : Run Text
  unfolding finish send
  attempt = do
    log (set_stage uploading_cover)
    cover ← uploaded s f.cover_file address (codes "pool-cover")
    log (set_stage uploading_ticket)
    art ← uploaded s f.ticket_art_file address (codes "ticket-art")
    log (set_stage creating_draft)
    d ←
        call (draft (draft_input f address cover art))
          (s.create_pool_draft (draft_input f address cover art))
    sent ← send d
    finish d sent.0 sent.1

abbrev pub ending : Option Text → Outcome
ending none = failed
ending (some id) = created id

-- What the `finally` block does.
abbrev pub settle : List Call
settle = set_submitting false ∷ set_stage idle ∷ []

abbrev pub first_error : List ValidationError → Option ValidationError
first_error [] = none
first_error (e ∷ es) = some e

unfoldable pub handle_create_pool : Services → Page → List Call × Outcome
handle_create_pool s p = elim p.form.address [
  | none ↦ ([], no_wallet_connected)
  | some address ↦
      if not p.core_contract
      then ([], no_core_contract)
      else if is_official p.form.pool_type && not (official_admin_ready p.form)
      then ([], admin_required)
      else if not (operator_available p)
      then ([], no_token_metadata)
      else elim (first_error (validation_errors p.form)) [
        | some e ↦ ([], invalid e)
        | none ↦
            if not p.treasury_is_operator
            then ([], operator_required)
            else let run = attempt s p.form address in
              ((set_submitting true ∷ run.0) ++ settle, ending run.1)
      ]
]
