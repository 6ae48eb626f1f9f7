-- ===== src/Api/Tiers.antt =====
-- `numberFromUnknown` and `normalizePrizeTiers` of packages/nextjs/services/luckyScratch/api.ts, on
-- a parsed JSON value. A number of the source is a whole number of 10^-9 here; what `Number` makes
-- of a text is a parameter, `none` for NaN and the infinities.
pub mod Laws
use lucky_scratch.Prelude.{
  ℕ, zero, suc, ◌*◌, Bool, true, false, not, ◌||◌, Option, none, some, List, [], ◌∷◌, leb,
  if◌then◌else◌,
}
use lucky_scratch.Prelude.Texts.{Text, trim, is_empty}
use lucky_scratch.Prelude.Int.{ℤ, pos, negsuc}
use lucky_scratch.Money.{round_div, nano_usdc}

-- The value of a field: undefined or null, a number, a text, or anything else.
pub data Field : Type 0 where
  absent other : Field
  number : ℤ → Field
  text : Text → Field

pub record TierFields : Type 0 where
  pub count : Field
  pub quantity : Field
  pub prize_amount_usdc : Field
  pub amount_usdc : Field
  pub amount : Field
  pub prize_amount : Field

-- An element of the array: an object (also an array), or a value that is not one.
pub data Tier : Type 0 where
  scalar : Tier
  object : TierFields → Tier

-- The value under `prizeTiers`.
pub data Tiers : Type 0 where
  not_array : Tiers
  array : List Tier → Tiers

pub record PrizeTier : Type 0 where
  pub prize_amount : ℕ
  pub count : ℕ
  pub prize_amount_usdc : Option ℤ

-- `a ?? b`
abbrev pub or_else : Field → Field → Field
or_else absent b = b
or_else other b = other
or_else (number n) b = number n
or_else (text s) b = text s

-- `Math.round(n * MICRO_USDC)`, in 10^-9; a result of -0 counts as 0,
-- and of a result below 0 only the sign counts.
unfoldable pub rounded : ℤ → ℤ
rounded (pos n) = pos (round_div n 1000 * nano_usdc)
rounded (negsuc n) = if leb (suc n) 500 then pos 0 else negsuc n

-- The `filter` of the tiers that are not null.
abbrev pub keep_tier : Option PrizeTier → List PrizeTier → List PrizeTier
keep_tier none ts = ts
keep_tier (some t) ts = t ∷ ts

module _ (number_of : Text → Option ℤ) where
  unfoldable pub number_from_unknown : Field → Option ℤ
  number_from_unknown absent = none
  number_from_unknown other = none
  number_from_unknown (number n) = some n
  number_from_unknown (text s) = if is_empty (trim s) then none else number_of s

  abbrev pub amount_or : Option ℤ → Option ℤ → Option ℤ
  amount_or (some n) usdc = some n
  amount_or none none = none
  amount_or none (some usdc) = some (rounded usdc)

  -- The checks of the numbers: a count above 0 and an amount that is not below 0.
  abbrev pub kept : Option ℤ → Option ℤ → Option ℤ → Option PrizeTier
  kept (some (pos (suc count))) (some (pos amount)) usdc =
      some (record { prize_amount = amount; count = suc count; prize_amount_usdc = usdc })
  kept _ _ usdc = none

  unfoldable pub normalize_tier : Tier → Option PrizeTier
  normalize_tier scalar = none
  normalize_tier (object t) =
      let count = number_from_unknown (or_else t.count t.quantity) in
      let usdc =
        number_from_unknown (or_else (or_else t.prize_amount_usdc t.amount_usdc) t.amount) in
      kept count (amount_or (number_from_unknown t.prize_amount) usdc) usdc

  abbrev pub keep_tiers : List Tier → List PrizeTier
  keep_tiers [] = []
  keep_tiers (t ∷ ts) = keep_tier (normalize_tier t) (keep_tiers ts)

  unfoldable pub normalize_prize_tiers : Tiers → List PrizeTier
  normalize_prize_tiers not_array = []
  normalize_prize_tiers (array ts) = keep_tiers ts
