-- ===== src/Api/Posts.antt =====
-- What api.ts posts, and the two answers that are neither a plain record nor normalised in Api.Pools:
-- the draft of a pool, and its metadata document, which is read from the gateway. A document is what
-- its field prizeTiers is read as, absent where the payload is no object.
use lucky_scratch.Prelude.{ℕ, not, Option, none, some, List, [], ◌∷◌, ◌++◌, if◌then◌else◌}
use lucky_scratch.Prelude.Texts.{Text, codes}
use lucky_scratch.Prelude.Decimal.{decimal}
use lucky_scratch.Prelude.Int.{ℤ}
use lucky_scratch.Ipfs.{UrlParser}
use lucky_scratch.Api.{Response, Outcome, thrown, failed, answered, request, ApiErrorPayload}
use lucky_scratch.Api.Tiers.{Tiers, PrizeTier, normalize_prize_tiers}
use lucky_scratch.Api.Pools.{resolved, UploadedImageAsset, normalize_uploaded_image_asset}

pub record DraftResponse : Type 0 where
  pub draft_id : ℕ
  pub name : Text
  pub description : Text
  pub theme_key : Text
  pub metadata_cid : Text
  pub metadata_uri : Text
  pub metadata_gateway_url : Text
  pub theme_id : Text
  pub status : Text

unfoldable pub upload_image_path : Text
upload_image_path = codes "/api/v1/uploads/images"

-- The fields of the form beside the file.
unfoldable pub upload_image_form : Text → Text → List (Text × Text)
upload_image_form owner_address kind =
    (codes "ownerAddress", owner_address) ∷ (codes "kind", kind) ∷ []

unfoldable pub create_pool_draft_path : Text
create_pool_draft_path = codes "/api/v1/pool-drafts"

unfoldable pub sync_transaction_path : Text
sync_transaction_path = codes "/api/v1/sync/tx"

-- The object that is posted, as its fields.
unfoldable pub sync_transaction_body : Text → List (Text × Text)
sync_transaction_body tx_hash = (codes "txHash", tx_hash) ∷ []

unfoldable pub build_reveal_auth_body : Text → List (Text × Text)
build_reveal_auth_body address = (codes "address", address) ∷ []

module _ (parse : UrlParser) (gateway : Option Text) where
  unfoldable pub normalize_pool_draft : DraftResponse → DraftResponse
  normalize_pool_draft draft = record draft {
    metadata_gateway_url = resolved parse gateway draft.metadata_gateway_url;
  }

  -- `uploadImage` from the response: its JSON is an asset, or is not JSON.
  abbrev pub uploaded : Outcome (Response UploadedImageAsset) → Outcome UploadedImageAsset
  uploaded thrown = thrown
  uploaded (failed message) = failed message
  uploaded (answered r) = elim r.json [
    | none ↦ thrown
    | some asset ↦ answered (normalize_uploaded_image_asset parse gateway asset)
  ]

  unfoldable pub upload_image :
      (UploadedImageAsset → ApiErrorPayload)
      → Option (Response UploadedImageAsset)
      → Outcome UploadedImageAsset
  upload_image payload r = uploaded (request payload r)

  -- The address that a document is fetched from.
  unfoldable pub metadata_document_url : Text → Text
  metadata_document_url metadata_gateway_url = resolved parse gateway metadata_gateway_url

unfoldable pub get_pool_metadata_document :
    (Text → Option ℤ) → Option (Response Tiers) → Outcome (List PrizeTier)
get_pool_metadata_document number_of none = thrown
get_pool_metadata_document number_of (some r) =
    if not r.ok
    then failed (codes "Pool metadata request failed with " ++ decimal r.status)
    else elim r.json [
      | none ↦ thrown
      | some tiers ↦ answered (normalize_prize_tiers number_of tiers)
    ]
