-- ===== src/Display/Hash.antt =====
-- `hashString` and the hue of an avatar in packages/nextjs/services/luckyScratch/display.ts. An
-- int32 is the number that its 32 bits stand for without a sign.
use lucky_scratch.Prelude.{
  ℕ, ◌+◌, ◌-◌, ◌*◌, ◌%◌, ◌^◌, ◌≤◌, ◌<◌, ◌≡◌, refl, ◌∙◌, ap, [], ◌∷◌, arith, leb, if◌then◌else◌,
}
use lucky_scratch.Prelude.Texts.{Text}

abbrev pub int32 : ℕ → ℕ
int32 n = n % 4294967296

-- The body of the loop: `(hash << 5) - hash + code`, then `hash |= 0`.
unfoldable pub hash_step : ℕ → ℕ → ℕ
hash_step hash code = int32 (int32 (hash * 32) + (4294967296 - hash) + code)

unfoldable pub hash_from : ℕ → Text → ℕ
hash_from hash [] = hash
hash_from hash (c ∷ s) = hash_from (hash_step hash c) s

-- `Math.abs` of an int32.
unfoldable pub abs32 : ℕ → ℕ
abs32 hash = if leb 2147483648 hash then 4294967296 - hash else hash

unfoldable pub hash_string : Text → ℕ
hash_string value = abs32 (hash_from 0 value)

unfoldable pub avatar_hue : Text → ℕ
avatar_hue address = hash_string address % 360

-- The polynomial in 31, without wrapping.
abbrev pub poly_from : ℕ → Text → ℕ
poly_from n [] = n
poly_from n (c ∷ s) = poly_from (31 * n + c) s

hash_step_lem : (n c : ℕ) → hash_step (int32 n) c ≡ int32 (31 * n + c)
unfolding hash_step
hash_step_lem n c = omega arith

hash_from_lem : (n : ℕ) (s : Text) → hash_from (int32 n) s ≡ int32 (poly_from n s)
unfolding hash_from
hash_from_lem n [] = refl
hash_from_lem n (c ∷ s) = ap (λ h. hash_from h s) (hash_step_lem n c) ∙ hash_from_lem (31 * n + c) s

-- The hash of a text is the absolute value of the polynomial in 31 over its code units, taken once
-- as a 32-bit integer with a sign.
pub hash_string_lem : (s : Text) → hash_string s ≡ abs32 (poly_from 0 s % 4294967296)
unfolding hash_string
hash_string_lem s = ap abs32 (hash_from_lem 0 s)

abs32_le : (n : ℕ) → abs32 (int32 n) ≤ 2147483648
unfolding abs32
abs32_le n = ground arith

pub hash_string_bounds : (s : Text) → (hash_string s ≤ 2 ^ 31) × (avatar_hue s < 360)
unfolding avatar_hue
hash_string_bounds s = (rw (hash_string_lem s) (abs32_le (poly_from 0 s)), omega arith)
