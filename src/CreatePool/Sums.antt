-- ===== src/CreatePool/Sums.antt =====
-- The sums of `handleCreatePool` in CreatePoolPage.tsx over tiers with whole quantities, beside those
-- of validatePrizeEconomics in PoolMathLib.sol. The page's counts are in billionths, the contract's
-- are whole.
use lucky_scratch.Prelude.{
  ℕ, ◌+◌, ◌*◌, ◌/◌, ◌%◌, ◌^◌, ◌≤◌, ◌<◌, ◌≡◌, refl, true, false, List, [], ◌∷◌, ◌++◌, map, arith,
  ltb, ◌==◌, any, all, All, filter, length, sum_by, if◌then◌else◌,
}
use lucky_scratch.Money.{nano, to_micro_usdc}
use lucky_scratch.Contract.{PrizeTier, tier_budget, positive_count, max_prize_of, fits_tier}
use lucky_scratch.CreatePool.{RewardTierDraft, is_positive_tier, tier_cost, max_amount}
use lucky_scratch.CreatePool.Sent.{TierArgument, preview_tier, losing_tier, contract_tier}

-- A tier of one micro-USDC or more, after rounding.
abbrev pub IsPaying : RewardTierDraft → Type 0
IsPaying t = 0 < to_micro_usdc t.amount_usdc

-- A tier whose quantity has no fraction.
abbrev pub IsWhole : RewardTierDraft → Type 0
IsWhole t = t.quantity % nano ≡ 0

-- The tier that the contract gets for an argument with a whole count.
abbrev pub whole_tier : TierArgument → PrizeTier
whole_tier t = record { prize_amount = t.prize_amount; count = t.count / nano }

abbrev pub submitted : List RewardTierDraft → ℕ → List TierArgument
submitted ts r =
    map contract_tier (map preview_tier ts ++ (if ltb 0 r then losing_tier r ∷ [] else []))

abbrev pub count_of : RewardTierDraft → ℕ
count_of t = t.quantity / nano

abbrev pub cost_of : RewardTierDraft → ℕ
cost_of t = to_micro_usdc t.amount_usdc * count_of t

abbrev pub All-quantity : List RewardTierDraft → Type 0
All-quantity = All (λ t. 0 < t.quantity)

pub filter-quantity : (ts : List RewardTierDraft) → All-quantity (filter is_positive_tier ts)
filter-quantity [] = tt
filter-quantity (t ∷ ts) = ground (arith, filter-quantity ts)

-- The page's sums over whole tiers are whole.
pub quantity-whole :
    (ts : List RewardTierDraft)
    → All IsWhole ts
    → sum_by RewardTierDraft.quantity ts ≡ sum_by count_of ts * nano
quantity-whole [] h = refl
quantity-whole (t ∷ ts) h = omega (arith, h.0, quantity-whole ts h.1)

pub mul_nano : (a q c : ℕ) → q ≡ c * nano → a * q ≡ a * c * nano
mul_nano a q c h = rw h (grind arith)

pub cost-whole :
    (ts : List RewardTierDraft) → All IsWhole ts → sum_by tier_cost ts ≡ sum_by cost_of ts * nano
cost-whole [] h = refl
cost-whole (t ∷ ts) h =
    let q : t.quantity ≡ count_of t * nano = omega (arith, h.0) in
    omega
      (arith, mul_nano (to_micro_usdc t.amount_usdc) t.quantity (count_of t) q, cost-whole ts h.1)

pub count-submitted :
    (ts : List RewardTierDraft) (r : ℕ)
    → sum_by PrizeTier.count (map whole_tier (submitted ts r)) ≡ sum_by count_of ts + r / nano
count-submitted [] r = ground arith
count-submitted (t ∷ ts) r = omega (arith, count-submitted ts r)

pub budget-submitted :
    (ts : List RewardTierDraft) (r : ℕ)
    → sum_by tier_budget (map whole_tier (submitted ts r)) ≡ sum_by cost_of ts
budget-submitted [] r = ground arith
budget-submitted (t ∷ ts) r = omega (arith, budget-submitted ts r)

pub positive-submitted :
    (ts : List RewardTierDraft) (r : ℕ)
    → All IsPaying ts
    → sum_by positive_count (map whole_tier (submitted ts r)) ≡ sum_by count_of ts
positive-submitted [] r h = ground arith
positive-submitted (t ∷ ts) r h = ground (arith, positive-submitted ts r h.1)

pub max-submitted :
    (ts : List RewardTierDraft) (r : ℕ)
    → max_prize_of (map whole_tier (submitted ts r)) ≡ max_amount ts
max-submitted [] r = ground arith
max-submitted (t ∷ ts) r = omega (arith, max-submitted ts r)

pub no_empty-submitted :
    (ts : List RewardTierDraft) (r : ℕ)
    → All-quantity ts
    → All IsWhole ts
    → r % nano ≡ 0
    → any (λ t. t.count == 0) (map whole_tier (submitted ts r)) ≡ false
no_empty-submitted [] r h k e = ground arith
no_empty-submitted (t ∷ ts) r h k e = ground (arith, no_empty-submitted ts r h.1 k.1 e)

pub whole-submitted :
    (ts : List RewardTierDraft) (r : ℕ)
    → All IsWhole ts
    → r % nano ≡ 0
    → All (λ t. t.count % nano ≡ 0) (submitted ts r)
whole-submitted [] r h e = ground arith
whole-submitted (t ∷ ts) r h e = (h.0, whole-submitted ts r h.1 e)

pub max_amount-pos :
    (ts : List RewardTierDraft) → All IsPaying ts → 0 < length ts → 0 < max_amount ts
max_amount-pos [] h k = absurd (omega arith)
max_amount-pos (t ∷ ts) h k = omega arith

-- A tier with tickets costs at least its amount.
amount-le-cost :
    (t : RewardTierDraft) → 0 < t.quantity → IsWhole t → to_micro_usdc t.amount_usdc ≤ cost_of t
amount-le-cost t h k = let q : 1 ≤ count_of t = omega arith in grind (arith, q)

pub max_amount-le :
    (ts : List RewardTierDraft)
    → All-quantity ts
    → All IsWhole ts
    → max_amount ts ≤ sum_by cost_of ts
max_amount-le [] h k = omega arith
max_amount-le (t ∷ ts) h k = omega (arith, amount-le-cost t h.0 k.0, max_amount-le ts h.1 k.1)

-- The widths of the tiers follow from those of the sums.
pub fits-submitted :
    (ts : List RewardTierDraft) (r : ℕ)
    → max_amount ts < 2 ^ 64
    → sum_by count_of ts + r / nano < 2 ^ 32
    → all fits_tier (map whole_tier (submitted ts r)) ≡ true
fits-submitted [] r h k = ground arith
fits-submitted (t ∷ ts) r h k = ground (arith, fits-submitted ts r (omega arith) (omega arith))
