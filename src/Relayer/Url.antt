-- ===== src/Relayer/Url.antt =====
-- `normalizeRelayerUrl` of sdk.ts, with its default route version.
use lucky_scratch.Prelude.{
  ◌≡◌, refl, Bool, true, false, ◌&&◌, ◌||◌, [], ◌∷◌, ◌++◌, arith, ◌==◌, if◌then◌else◌, Bool-cases,
  inl, inr,
}
use mathlib.Core.List.{reverse, reverse-append}
use lucky_scratch.Prelude.Texts.{Text, codes, trim, strip_end, is_space, is_slash}
use lucky_scratch.Prelude.Texts.Strip.{
  NoHead, strip_end-NoHead, strip_end_of_NoEnd, trim-NoHead, trim_of_clean,
}

-- A reversed text that begins with 1v/ or 2v/.
abbrev route_end : Text → Bool
route_end [] = false
route_end (c ∷ []) = false
route_end (c ∷ v ∷ []) = false
route_end (c ∷ v ∷ l ∷ s) = (c == b'1' || c == b'2') && v == b'v' && l == b'/'

-- `/\/v[12]$/.test(s)`
abbrev pub has_route : Text → Bool
has_route s = route_end (reverse s)

unfoldable pub normalize_relayer_url : Text → Text
normalize_relayer_url relayer_url =
    let trimmed = strip_end is_slash (trim relayer_url) in
    if has_route trimmed then trimmed else trimmed ++ codes "/v2"

route_end-NoHead_space : (s : Text) → route_end s ≡ true → NoHead is_space s
unfolding is_space
route_end-NoHead_space [] h = tt
route_end-NoHead_space (c ∷ []) h = absurd (cc)
route_end-NoHead_space (c ∷ v ∷ []) h = absurd (cc)
route_end-NoHead_space (c ∷ v ∷ l ∷ s) h = ground arith

route_end-NoHead_slash : (s : Text) → route_end s ≡ true → NoHead is_slash s
route_end-NoHead_slash [] h = tt
route_end-NoHead_slash (c ∷ []) h = absurd (cc)
route_end-NoHead_slash (c ∷ v ∷ []) h = absurd (cc)
route_end-NoHead_slash (c ∷ v ∷ l ∷ s) h = ground arith

-- An address that begins with no space and ends in a route version is left as it is.
pub normalize_relayer_url_of_route :
    (s : Text) → NoHead is_space s → has_route s ≡ true → normalize_relayer_url s ≡ s
unfolding normalize_relayer_url
normalize_relayer_url_of_route s h r =
    rw
      (
        trim_of_clean s h (route_end-NoHead_space (reverse s) r),
        strip_end_of_NoEnd is_slash s (route_end-NoHead_slash (reverse s) r),
        r,
      )
      refl

has_route-append : (s : Text) → has_route (s ++ codes "/v2") ≡ true
has_route-append s = rw (reverse-append s (codes "/v2")) refl

NoHead-append : (s : Text) → NoHead is_space s → NoHead is_space (s ++ codes "/v2")
unfolding is_space
NoHead-append [] h = refl
NoHead-append (c ∷ s) h = h

normalize_relayer_url-shape :
    (s : Text)
    → NoHead is_space (normalize_relayer_url s) × (has_route (normalize_relayer_url s) ≡ true)
unfolding normalize_relayer_url
normalize_relayer_url-shape s =
    let trimmed = strip_end is_slash (trim s) in
    let clean : NoHead is_space trimmed =
      strip_end-NoHead is_slash is_space (trim s) (trim-NoHead s) in
    elim (Bool-cases (has_route trimmed)) [
      | inl has ↦ rw has (clean, has)
      | inr lacks ↦ rw lacks (NoHead-append trimmed clean, has_route-append trimmed)
    ]

-- A normalised relayer address ends in a route version, and normalising it again changes nothing.
pub normalize_relayer_url_idem :
    (s : Text)
    → (has_route (normalize_relayer_url s) ≡ true)
      × (normalize_relayer_url (normalize_relayer_url s) ≡ normalize_relayer_url s)
normalize_relayer_url_idem s =
    let (clean, route) = normalize_relayer_url-shape s in
    (route, normalize_relayer_url_of_route (normalize_relayer_url s) clean route)
