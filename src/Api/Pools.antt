-- ===== src/Api/Pools.antt =====
-- The normalisation of pools and uploads in packages/nextjs/services/luckyScratch/api.ts: addresses
-- are resolved to the gateway, and prize tiers are normalised. Tiers have the numbers of their type.
use lucky_scratch.Prelude.{ℕ, Bool, Option, none, some, List, ltb, map, filter, if◌then◌else◌}
use lucky_scratch.Prelude.Texts.{Text, is_empty}
use lucky_scratch.Ipfs.{UrlParser, resolve_ipfs_url}
use lucky_scratch.Types.{
  PrizeTierPreview, LuckyScratchPoolMetadata, LuckyScratchPool, LuckyScratchPurchaseContext,
}

pub record UploadedImageAsset : Type 0 where
  pub asset_id : ℕ
  pub owner_address : Text
  pub kind : Text
  pub cid : Text
  pub ipfs_uri : Text
  pub gateway_url : Text
  pub mime_type : Text
  pub size_bytes : ℕ
  pub sha256 : Text

abbrev pub has_count : PrizeTierPreview → Bool
has_count t = ltb 0 t.count

module _ (parse : UrlParser) (gateway : Option Text) where
  -- `resolveLuckyScratchIPFSURL(value) || value`
  abbrev pub resolved : Text → Text
  resolved value =
      let url = resolve_ipfs_url parse gateway value in if is_empty url then value else url

  abbrev pub resolved_option : Option Text → Option Text
  resolved_option none = none
  resolved_option (some value) = some (resolved value)

  abbrev pub normal_tiers : Option (List PrizeTierPreview) → Option (List PrizeTierPreview)
  normal_tiers none = none
  normal_tiers (some ts) = some (filter has_count ts)

  unfoldable pub normalize_pool_metadata :
      Option LuckyScratchPoolMetadata → Option LuckyScratchPoolMetadata
  normalize_pool_metadata none = none
  normalize_pool_metadata (some m) = some (record m {
    metadata_gateway_url = resolved m.metadata_gateway_url;
    cover_image_url = resolved_option m.cover_image_url;
    ticket_art_url = resolved_option m.ticket_art_url;
    prize_tiers = normal_tiers m.prize_tiers;
  })

  unfoldable pub normalize_pool : LuckyScratchPool → LuckyScratchPool
  normalize_pool pool = record pool { metadata = normalize_pool_metadata pool.metadata }

  unfoldable pub normalize_pools_response : List LuckyScratchPool → List LuckyScratchPool
  normalize_pools_response = map normalize_pool

  unfoldable pub normalize_purchase_context :
      LuckyScratchPurchaseContext → LuckyScratchPurchaseContext
  normalize_purchase_context response = record response { pool = normalize_pool response.pool }

  unfoldable pub normalize_uploaded_image_asset : UploadedImageAsset → UploadedImageAsset
  normalize_uploaded_image_asset asset = record asset { gateway_url = resolved asset.gateway_url }
