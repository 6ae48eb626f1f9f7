-- ===== src/Prelude/Texts/Split.antt =====
-- `s.split(c)` for one code unit.
use Prim.Native.Nat.{ℕ}
use mathlib.Core.List.{List, [], ◌∷◌, ◌++◌}
use mathlib.Core.Path.{◌≡◌, refl}
use mathlib.Core.Bool.{false}
use native.Mathlib.Omega.{arith}
use lucky_scratch.Prelude.Tests.{◌==◌, if◌then◌else◌}
use lucky_scratch.Prelude.Lists.{any}
use lucky_scratch.Prelude.Texts.{Text}

abbrev pub push_first : ℕ → List Text → List Text
push_first c [] = (c ∷ []) ∷ []
push_first c (part ∷ parts) = (c ∷ part) ∷ parts

abbrev pub split_on : ℕ → Text → List Text
split_on d [] = [] ∷ []
split_on d (c ∷ s) = if c == d then [] ∷ split_on d s else push_first c (split_on d s)

abbrev pub Avoids : ℕ → Text → Type 0
Avoids d s = any (λ c. c == d) s ≡ false

pub split_on-Avoids : (d : ℕ) (s : Text) → Avoids d s → split_on d s ≡ s ∷ []
split_on-Avoids d [] h = refl
split_on-Avoids d (c ∷ s) h =
    let other : (c == d) ≡ false = ground arith in
    rw (other, split_on-Avoids d s (ground arith)) refl

pub split_on-append : (d : ℕ) (s t : Text) → Avoids d s → split_on d (s ++ d ∷ t) ≡ s ∷ split_on d t
split_on-append d [] t h = ground arith
split_on-append d (c ∷ s) t h =
    let other : (c == d) ≡ false = ground arith in
    rw (other, split_on-append d s t (ground arith)) refl
