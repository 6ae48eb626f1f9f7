-- ===== src/Ipfs/Tests.antt =====
-- An ipfs:// address and a gateway.
use lucky_scratch.Prelude.{◌≡◌, ◌⊎◌, refl, none, some}
use lucky_scratch.Prelude.Texts.{Text, codes, is_slash}
use lucky_scratch.Ipfs.{UrlParser, resolve_ipfs_url}

abbrev parse : UrlParser
parse value = none

abbrev gateway : Text
gateway = codes "https://g.io/ipfs/"

abbrev address : Text
address = codes "ipfs://bafy/1.png"

resolve_test : resolve_ipfs_url parse (some gateway) address ≡ codes "https://g.io/ipfs/bafy/1.png"
unfolding resolve_ipfs_url lucky_scratch.Prelude.Texts.trim
resolve_test = refl
