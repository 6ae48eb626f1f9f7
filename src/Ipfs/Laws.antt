-- ===== src/Ipfs/Laws.antt =====
-- What `resolveLuckyScratchIPFSURL` of config.ts returns.
use lucky_scratch.Prelude.{
  ◌≡◌, ◌⊎◌, inl, inr, refl, Bool, true, false, Option, none, some, [], ◌∷◌, ◌++◌, ◌||◌, arith,
  Bool-cases, if◌then◌else◌,
}
use lucky_scratch.Prelude.Texts.{
  Text, codes, trim, strip_end, is_slash, is_space, is_empty, text_eq, starts_with,
}
use lucky_scratch.Prelude.Texts.Strip.{
  NoHead, NoEnd, strip_start-NoHead, strip_start_of_NoHead, strip_end-NoEnd, trim_of_clean,
}
use lucky_scratch.Ipfs.{
  trim_trailing_slash, explicit, Location, get_backend_base_url, get_ipfs_gateway_base_url,
  ipfs_protocol_prefix, after_marker, ParsedUrl, UrlParser, suffix_of, with_query,
  extract_ipfs_path, resolve_ipfs_url,
}

suffix_of-NoHead : (o : Option Text) → NoHead is_slash (suffix_of o)
suffix_of-NoHead none = tt
suffix_of-NoHead (some rest) = strip_start-NoHead is_slash rest

with_query-NoHead :
    (s : Text) (url : ParsedUrl) → NoHead is_slash s → NoHead is_slash (with_query s url)
with_query-NoHead [] url h = tt
with_query-NoHead (c ∷ s) url h = h

extract_ipfs_path-NoHead :
    (parse : UrlParser) (value : Text) → NoHead is_slash (extract_ipfs_path parse value)
unfolding extract_ipfs_path
extract_ipfs_path-NoHead parse value = elim (Bool-cases (is_empty (trim value))) [
  | inl blank ↦ rw blank tt
  | inr text ↦ elim (Bool-cases (starts_with (trim value) ipfs_protocol_prefix)) [
    | inl scheme ↦ rw (text, scheme) (strip_start-NoHead is_slash _)
    | inr other ↦ rw (text, other) (parsed (parse (trim value)))
  ]
]
  where
    parsed :
        (o : Option ParsedUrl)
        → NoHead is_slash (elim o [
          | some url ↦ with_query (suffix_of (after_marker url.pathname)) url
          | none ↦ suffix_of (after_marker (trim value))
        ])
    parsed none = suffix_of-NoHead _
    parsed (some url) = with_query-NoHead _ url (suffix_of-NoHead _)

-- A value that the gateway serves: the gateway without trailing slashes, one slash, and a path.
pub record IsServed (base value : Text) : Type 0 where
  pub path : Text
  pub joined : value ≡ base ++ b'/' ∷ path
  pub not_empty : is_empty path ≡ false
  pub no_slash : NoHead is_slash path

gateway-NoEnd : (gateway : Option Text) → NoEnd is_slash (get_ipfs_gateway_base_url gateway)
unfolding get_ipfs_gateway_base_url trim_trailing_slash
gateway-NoEnd gateway = from (explicit gateway)
  where
    from :
        (o : Option Text)
        → NoEnd is_slash (elim o [ none ↦ [] | some url ↦ strip_end is_slash url ])
    from none = tt
    from (some url) = strip_end-NoEnd is_slash url

-- Every value is left as it is, or is resolved to the gateway, which ends in no slash, one slash
-- and a path that is not empty and begins with no slash.
pub resolve_ipfs_url_lem :
    (parse : UrlParser) (gateway : Option Text) (value : Text)
    → (resolve_ipfs_url parse gateway value ≡ value)
      ⊎ NoEnd is_slash (get_ipfs_gateway_base_url gateway)
        × IsServed (get_ipfs_gateway_base_url gateway) (resolve_ipfs_url parse gateway value)
unfolding resolve_ipfs_url
resolve_ipfs_url_lem parse gateway value =
    let base = get_ipfs_gateway_base_url gateway in
    let path = extract_ipfs_path parse value in
    elim (Bool-cases (is_empty value || is_empty base || is_empty path)) [
      | inl kept ↦ inl (ground arith)
      | inr resolved ↦ inr (
        gateway-NoEnd gateway,
        record {
          path = path;
          joined = ground arith;
          not_empty = ground arith;
          no_slash = extract_ipfs_path-NoHead parse value;
        },
      )
    ]

-- An ipfs:// address whose path begins with no slash is served at that path.
pub resolve_ipfs_url-protocol :
    (parse : UrlParser) (gateway : Option Text) (path : Text)
    → is_empty (get_ipfs_gateway_base_url gateway) ≡ false
    → is_empty path ≡ false
    → NoHead is_slash path
    → NoEnd is_space (ipfs_protocol_prefix ++ path)
    → resolve_ipfs_url parse gateway (ipfs_protocol_prefix ++ path)
      ≡ get_ipfs_gateway_base_url gateway ++ b'/' ∷ path
unfolding resolve_ipfs_url extract_ipfs_path is_space
resolve_ipfs_url-protocol parse gateway path hg hp slash clean =
    let t : trim (ipfs_protocol_prefix ++ path) ≡ ipfs_protocol_prefix ++ path =
      trim_of_clean (ipfs_protocol_prefix ++ path) refl clean in
    rw (t, strip_start_of_NoHead is_slash path slash, hg, hp) refl

-- The address of the backend ends in no slash, unless it is the fixed one of the server side.
pub get_backend_base_url-NoEnd :
    (env : Option Text) (location : Option Location)
    → NoEnd is_slash (get_backend_base_url env location)
unfolding get_backend_base_url trim_trailing_slash
get_backend_base_url-NoEnd env location = from (explicit env) location
  where
    local_or :
        (b : Bool) (s t : Text)
        → NoEnd is_slash (if b then strip_end is_slash s else strip_end is_slash t)
    local_or true s t = strip_end-NoEnd is_slash s
    local_or false s t = strip_end-NoEnd is_slash t

    from :
        (o : Option Text) (l : Option Location)
        → NoEnd is_slash (elim o [
          | some url ↦ strip_end is_slash url
          | none ↦ elim l [
            | none ↦ codes "http://127.0.0.1:8080"
            | some l ↦
                if text_eq l.hostname (codes "localhost") || text_eq l.hostname (codes "127.0.0.1")
                then strip_end is_slash l.with_backend_port
                else strip_end is_slash l.origin
          ]
        ])
    from (some url) l = strip_end-NoEnd is_slash url
    from none none = refl
    from none (some l) = local_or _ l.with_backend_port l.origin
