-- ===== src/Purchase/Prizes.antt =====
-- The list of prizes that PurchasePage.tsx shows.
use lucky_scratch.Prelude.{◌≡◌, refl, Bool, ◌&&◌, List, [], ◌∷◌, arith, ltb, filter, count_by, ◌∙◌}
use lucky_scratch.Prelude.Sorting.{IsSorted, sort_by-IsSorted, count_by-sort_by}
use lucky_scratch.Types.{PrizeTierPreview}
use lucky_scratch.Purchase.{before, build_prize_structure}

abbrev pub is_prize : PrizeTierPreview → Bool
is_prize t = ltb 0 t.prize_amount && ltb 0 t.count

count_by-filter :
    (p q : PrizeTierPreview → Bool) (ts : List PrizeTierPreview)
    → count_by p (filter q ts) ≡ count_by (λ t. q t && p t) ts
count_by-filter p q [] = refl
count_by-filter p q (t ∷ ts) = ground (arith, count_by-filter p q ts)

-- The prizes shown are in order by amount and then by count, both falling, and of any kind of tier
-- there are as many as there were among the tiers with a positive amount and count.
pub build_prize_structure_lem :
    (tiers : List PrizeTierPreview) (p : PrizeTierPreview → Bool)
    → IsSorted before (build_prize_structure tiers)
      × (count_by p (build_prize_structure tiers) ≡ count_by (λ t. is_prize t && p t) tiers)
unfolding build_prize_structure
build_prize_structure_lem tiers p = (
  sort_by-IsSorted before (λ x y h. ground arith) (filter is_prize tiers),
  count_by-sort_by before p (filter is_prize tiers) ∙ count_by-filter p is_prize tiers,
)
