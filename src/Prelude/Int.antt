-- ===== src/Prelude/Int.antt =====
-- Signed integers over the native numbers, and `BigInt` on a string.
use Prim.Native.Nat.{ℕ, zero, suc, ◌+◌, ◌-◌, ◌*◌}
use mathlib.Core.Path.{◌≡◌, refl}
use mathlib.Core.Bool.{◌&&◌, ◌||◌}
use mathlib.Core.Option
use mathlib.Core.Option.{Option, none, some}
use mathlib.Core.List.{[], ◌∷◌}
use lucky_scratch.Prelude.Tests.{ltb, leb, ◌==◌, if◌then◌else◌}
use lucky_scratch.Prelude.Texts.{Text, codes}

-- `negsuc n` is -(n + 1).
pub data ℤ : Type 0 where
  pos : ℕ → ℤ
  negsuc : ℕ → ℤ

abbrev pub negate : ℕ → ℤ
negate zero = pos 0
negate (suc n) = negsuc n

-- The digit that a code unit stands for, in bases up to 16.
digit : ℕ → Option ℕ
digit c =
    if leb 48 c && leb c 57
    then some (c - 48)
    else if leb 97 c && leb c 102
    then some (c - 87)
    else if leb 65 c && leb c 70
    then some (c - 55)
    else none

digits_in : ℕ → ℕ → Text → Option ℕ
unfolding digit
digits_in base acc [] = some acc
digits_in base acc (c ∷ s) = elim (digit c) [
  | none ↦ none
  | some d ↦ if ltb d base then digits_in base (acc * base + d) s else none
]

-- One digit or more.
digits_of : ℕ → Text → Option ℕ
unfolding digits_in
digits_of base [] = none
digits_of base (c ∷ s) = digits_in base 0 (c ∷ s)

unsigned : Text → Option ℤ
unfolding digits_of
unsigned s = Option.map pos (digits_of 10 s)

prefixed : ℕ → Text → Text → Option ℤ
unfolding digits_of unsigned
prefixed x s whole =
    if x == b'x' || x == b'X'
    then Option.map pos (digits_of 16 s)
    else if x == b'o' || x == b'O'
    then Option.map pos (digits_of 8 s)
    else if x == b'b' || x == b'B'
    then Option.map pos (digits_of 2 s)
    else unsigned whole

-- `BigInt(s)` on a trimmed text that is not empty; `none` where it throws a `SyntaxError`.
unfoldable pub big_int : Text → Option ℤ
unfolding prefixed
big_int [] = some (pos 0)
big_int (c ∷ []) = unsigned (c ∷ [])
big_int (c ∷ d ∷ s) =
    if c == b'-'
    then Option.map negate (digits_of 10 (d ∷ s))
    else if c == b'+'
    then unsigned (d ∷ s)
    else if c == b'0'
    then prefixed d s (c ∷ d ∷ s)
    else unsigned (c ∷ d ∷ s)

big_int_test : big_int (codes "0x1F") ≡ some (pos 31)
unfolding big_int
big_int_test = refl
