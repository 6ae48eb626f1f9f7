-- ===== src/Ipfs.antt =====
-- Addresses of the backend and of files on IPFS: packages/nextjs/services/luckyScratch/config.ts.
-- The environment's settings and the platform's `URL` parser are parameters.
mod Tests
pub mod Laws
use lucky_scratch.Prelude.{
  ℕ, Bool, true, false, ◌||◌, Option, none, some, List, [], ◌∷◌, ◌++◌, length, drop, if◌then◌else◌,
}
use lucky_scratch.Prelude.Texts.{
  Text, codes, text_eq, trim, strip_start, strip_end, is_slash, is_empty, starts_with,
}

unfoldable pub trim_trailing_slash : Text → Text
trim_trailing_slash = strip_end is_slash

-- An environment variable that is set to more than white space.
abbrev pub explicit : Option Text → Option Text
explicit none = none
explicit (some value) = if is_empty (trim value) then none else some (trim value)

-- `window.location`: its origin, its host name, and its address with the port of the backend.
pub record Location : Type 0 where
  pub origin : Text
  pub hostname : Text
  pub with_backend_port : Text

unfoldable pub get_backend_base_url : Option Text → Option Location → Text
unfolding trim_trailing_slash
get_backend_base_url env location = elim (explicit env) [
  | some url ↦ trim_trailing_slash url
  | none ↦ elim location [
    | none ↦ codes "http://127.0.0.1:8080"
    | some l ↦
        if text_eq l.hostname (codes "localhost") || text_eq l.hostname (codes "127.0.0.1")
        then trim_trailing_slash l.with_backend_port
        else trim_trailing_slash l.origin
  ]
]

unfoldable pub get_ipfs_gateway_base_url : Option Text → Text
unfolding trim_trailing_slash
get_ipfs_gateway_base_url env = elim (explicit env) [
  | none ↦ []
  | some url ↦ trim_trailing_slash url
]

abbrev pub ipfs_protocol_prefix : Text
ipfs_protocol_prefix = codes "ipfs://"

abbrev pub ipfs_path_marker : Text
ipfs_path_marker = codes "/ipfs/"

-- What stands behind the first `/ipfs/`, by `indexOf` and `slice`.
unfoldable pub after_marker : Text → Option Text
after_marker [] = none
after_marker (c ∷ s) =
    if starts_with (c ∷ s) ipfs_path_marker
    then some (drop (length ipfs_path_marker) (c ∷ s))
    else after_marker s

-- The parts of a parsed address that are read.
pub record ParsedUrl : Type 0 where
  pub pathname : Text
  pub search : Text
  pub hash : Text

-- `new URL(value)`, with `none` where it throws.
abbrev pub UrlParser : Type 0
UrlParser = Text → Option ParsedUrl

abbrev suffix_of : Option Text → Text
suffix_of none = []
suffix_of (some rest) = strip_start is_slash rest

abbrev with_query : Text → ParsedUrl → Text
with_query [] url = []
with_query (c ∷ s) url = (c ∷ s) ++ url.search ++ url.hash

unfoldable pub extract_ipfs_path : UrlParser → Text → Text
unfolding after_marker
extract_ipfs_path parse value =
    let t = trim value in
    if is_empty t
    then []
    else if starts_with t ipfs_protocol_prefix
    then strip_start is_slash (drop (length ipfs_protocol_prefix) t)
    else elim (parse t) [
      | some url ↦ with_query (suffix_of (after_marker url.pathname)) url
      | none ↦ suffix_of (after_marker t)
    ]

unfoldable pub resolve_ipfs_url : UrlParser → Option Text → Text → Text
unfolding get_ipfs_gateway_base_url extract_ipfs_path
resolve_ipfs_url parse gateway value =
    let base = get_ipfs_gateway_base_url gateway in
    let path = extract_ipfs_path parse value in
    if is_empty value
    then value
    else if is_empty base
    then value
    else if is_empty path
    then value
    else base ++ b'/' ∷ path
