-- ===== src/Prelude/Decimal.antt =====
-- A number inside a template string: its decimal digits, and that they determine the number.
use mathlib.Core.Path.{◌≡◌, refl, sym, ap, ◌∙◌}
use Prim.Native.Nat.{ℕ, zero, suc, ◌+◌, ◌-◌, ◌*◌, ◌/◌, ◌%◌, ◌≤◌, ◌<◌}
use mathlib.Core.List.{[], ◌∷◌, ◌++◌}
use native.Mathlib.Omega.{arith}
use lucky_scratch.Prelude.Tests.{ltb, if◌then◌else◌}
use lucky_scratch.Prelude.Lists.{All, All-append, length}
use mathlib.Core.Bool.{false}
use lucky_scratch.Prelude.Texts.{Text, codes, is_empty}

-- A number has at most as many digits as its own value and one more, so that fuel is enough.
digits_fuel : ℕ → ℕ → Text
digits_fuel zero n = []
digits_fuel (suc f) n =
    let leading = digits_fuel f (n / 10) in
    if ltb n 10 then (48 + n) ∷ [] else leading ++ (48 + n % 10) ∷ []

unfoldable pub decimal : ℕ → Text
unfolding digits_fuel
decimal n = digits_fuel (suc n) n

is_empty-snoc : (s : Text) (c : ℕ) → is_empty (s ++ c ∷ []) ≡ false
is_empty-snoc [] c = refl
is_empty-snoc (d ∷ s) c = refl

pub is_empty-decimal : (n : ℕ) → is_empty (decimal n) ≡ false
unfolding decimal digits_fuel
is_empty-decimal n = ground (arith, is_empty-snoc (digits_fuel n (n / 10)) (48 + n % 10))

value_from : ℕ → Text → ℕ
value_from acc [] = acc
value_from acc (c ∷ s) = value_from (acc * 10 + (c - 48)) s

-- What the digits say.
unfoldable pub value : Text → ℕ
unfolding value_from
value s = value_from 0 s

value_from-snoc :
    (acc : ℕ) (s : Text) (c : ℕ) → value_from acc (s ++ c ∷ []) ≡ value_from acc s * 10 + (c - 48)
unfolding value_from
value_from-snoc acc [] c = refl
value_from-snoc acc (d ∷ s) c = value_from-snoc (acc * 10 + (d - 48)) s c

value-digits_fuel : (f n : ℕ) → n < f → value_from 0 (digits_fuel f n) ≡ n
unfolding value_from digits_fuel
value-digits_fuel zero n h = absurd (omega arith)
value-digits_fuel (suc f) n h =
    ground (
      arith,
      value-digits_fuel f (n / 10),
      value_from-snoc 0 (digits_fuel f (n / 10)) (48 + n % 10),
    )

pub value-decimal : (n : ℕ) → value (decimal n) ≡ n
unfolding value decimal
value-decimal n = value-digits_fuel (suc n) n (omega arith)

pub decimal_injective : (m n : ℕ) → decimal m ≡ decimal n → m ≡ n
decimal_injective m n e = cc (value-decimal m, value-decimal n)

abbrev pub IsDigit : ℕ → Type 0
IsDigit c = (48 ≤ c) × (c ≤ 57)

digits_fuel-All : (f n : ℕ) → All IsDigit (digits_fuel f n)
unfolding digits_fuel
digits_fuel-All zero n = tt
digits_fuel-All (suc f) n = ground (
  arith,
  All-append IsDigit (digits_fuel f (n / 10)) ((48 + n % 10) ∷ []) (digits_fuel-All f (n / 10)),
)

pub decimal-All : (n : ℕ) → All IsDigit (decimal n)
unfolding decimal
decimal-All n = digits_fuel-All (suc n) n

zeros : ℕ → Text → Text
zeros zero s = s
zeros (suc n) s = b'0' ∷ zeros n s

-- `s.padStart(n, "0")`
unfoldable pub pad_start : ℕ → Text → Text
unfolding zeros
pad_start n s = zeros (n - length s) s

value-zeros : (n : ℕ) (s : Text) → value (zeros n s) ≡ value s
unfolding zeros value
value-zeros zero s = refl
value-zeros (suc n) s = value-zeros n s

pub pad_start-decimal_injective :
    (w m n : ℕ) → pad_start w (decimal m) ≡ pad_start w (decimal n) → m ≡ n
unfolding pad_start
pad_start-decimal_injective w m n e = sym (value-pad m) ∙ ap value e ∙ value-pad n
  where
    value-pad : (k : ℕ) → value (zeros (w - length (decimal k)) (decimal k)) ≡ k
    value-pad k = value-zeros (w - length (decimal k)) (decimal k) ∙ value-decimal k

decimal_test : decimal 11155111 ≡ codes "11155111"
unfolding decimal
decimal_test = refl

pad_start_test : pad_start 4 (decimal 42) ≡ codes "0042"
unfolding pad_start decimal
pad_start_test = refl
