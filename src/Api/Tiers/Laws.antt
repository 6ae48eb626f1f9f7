-- ===== src/Api/Tiers/Laws.antt =====
-- What the normalisation of prize tiers leaves.
use lucky_scratch.Prelude.{
  ℕ, zero, suc, ◌<◌, ◌≡◌, refl, ap, ◌∙◌, Option, none, some, List, [], ◌∷◌, map, arith, All,
  Option-cases, inl, inr,
}
use lucky_scratch.Prelude.Texts.{Text}
use lucky_scratch.Prelude.Int.{ℤ, pos}
use lucky_scratch.Api.Tiers.{
  Field, absent, number, Tier, scalar, object, Tiers, not_array, array, PrizeTier, kept,
  normalize_tier, keep_tiers, normalize_prize_tiers, number_from_unknown, or_else,
}

abbrev usdc_field : Option ℤ → Field
usdc_field none = absent
usdc_field (some n) = number n

-- A tier as the object that it serialises to.
abbrev pub tier_object : PrizeTier → Tier
tier_object t = object (record {
  count = number (pos t.count);
  quantity = absent;
  prize_amount_usdc = usdc_field t.prize_amount_usdc;
  amount_usdc = absent;
  amount = absent;
  prize_amount = number (pos t.prize_amount);
})

abbrev HasCount : PrizeTier → Type 0
HasCount t = 0 < t.count

module _ (number_of : Text → Option ℤ) where
  kept-HasCount : (c a u : Option ℤ) (t : PrizeTier) → kept number_of c a u ≡ some t → HasCount t
  kept-HasCount c a u t h = ground arith

  normalize_tier-HasCount :
      (x : Tier) (t : PrizeTier) → normalize_tier number_of x ≡ some t → HasCount t
  unfolding normalize_tier
  normalize_tier-HasCount scalar t h = cc
  normalize_tier-HasCount (object o) t h = kept-HasCount _ _ _ t h

  keep-HasCount : (ts : List Tier) → All HasCount (keep_tiers number_of ts)
  keep-HasCount [] = tt
  keep-HasCount (x ∷ ts) = elim (Option-cases (normalize_tier number_of x)) [
    | inl dropped ↦ rw dropped (keep-HasCount ts)
    | inr (t, h) ↦ rw h (normalize_tier-HasCount x t h, keep-HasCount ts)
  ]

  kept_usdc :
      (count amount : ℕ) (u : Option ℤ)
      → 0 < count
      → kept number_of (some (pos count)) (some (pos amount)) u
        ≡ some (record { prize_amount = amount; count = count; prize_amount_usdc = u })
  kept_usdc zero amount u h = absurd (omega arith)
  kept_usdc (suc count) amount u h = refl

  usdc_field-read :
      (u : Option ℤ)
      → number_from_unknown number_of (or_else (or_else (usdc_field u) absent) absent) ≡ u
  unfolding number_from_unknown
  usdc_field-read none = refl
  usdc_field-read (some n) = refl

  tier_object-kept :
      (t : PrizeTier) → HasCount t → normalize_tier number_of (tier_object t) ≡ some t
  unfolding normalize_tier number_from_unknown
  tier_object-kept t h =
      kept_usdc t.count t.prize_amount _ h
      ∙ ap (λ u. some (record t { prize_amount_usdc = u })) (usdc_field-read t.prize_amount_usdc)

  keep_tiers-tier_object :
      (ts : List PrizeTier) → All HasCount ts → keep_tiers number_of (map tier_object ts) ≡ ts
  keep_tiers-tier_object [] h = refl
  keep_tiers-tier_object (t ∷ ts) (p, h) =
      rw (tier_object-kept t p) (ap (λ l. t ∷ l) (keep_tiers-tier_object ts h))

  -- The tiers that are left, serialised and normalised again, are the same.
  pub normalize_prize_tiers_idem :
      (value : Tiers)
      → normalize_prize_tiers number_of
          (array (map tier_object (normalize_prize_tiers number_of value)))
        ≡ normalize_prize_tiers number_of value
  unfolding normalize_prize_tiers
  normalize_prize_tiers_idem not_array = refl
  normalize_prize_tiers_idem (array ts) =
      keep_tiers-tier_object (keep_tiers number_of ts) (keep-HasCount ts)
