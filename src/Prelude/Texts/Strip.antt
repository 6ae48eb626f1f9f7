-- ===== src/Prelude/Texts/Strip.antt =====
-- Trimming twice is trimming once, and trimming one end keeps the other.
use mathlib.Core.Path.{◌≡◌, refl, sym, ap, ◌∙◌}
use mathlib.Core.Bool.{Bool, false}
use mathlib.Core.Logic.{inl, inr}
use mathlib.Core.List.{[], ◌∷◌, ◌++◌, reverse, reverse-append, reverse-reverse}
use Prim.Native.Nat.{ℕ}
use lucky_scratch.Prelude.Tests.{Bool-cases}
use lucky_scratch.Prelude.Texts.{Text, strip_start, strip_end, trim, is_space}

-- The first code unit, if there is one, is not of the kind.
abbrev pub NoHead : (ℕ → Bool) → Text → Type 0
NoHead p [] = Unit
NoHead p (c ∷ s) = p c ≡ false

abbrev pub NoEnd : (ℕ → Bool) → Text → Type 0
NoEnd p s = NoHead p (reverse s)

pub strip_start-NoHead : (p : ℕ → Bool) (s : Text) → NoHead p (strip_start p s)
unfolding strip_start
strip_start-NoHead p [] = tt
strip_start-NoHead p (c ∷ s) = elim (Bool-cases (p c)) [
  | inl here ↦ rw here (strip_start-NoHead p s)
  | inr stop ↦ rw stop stop
]

pub strip_start_of_NoHead : (p : ℕ → Bool) (s : Text) → NoHead p s → strip_start p s ≡ s
unfolding strip_start
strip_start_of_NoHead p [] h = refl
strip_start_of_NoHead p (c ∷ s) h = rw h

pub strip_end-NoEnd : (p : ℕ → Bool) (s : Text) → NoEnd p (strip_end p s)
unfolding strip_end
strip_end-NoEnd p s =
    rw (reverse-reverse (strip_start p (reverse s))) (strip_start-NoHead p (reverse s))

pub strip_end_of_NoEnd : (p : ℕ → Bool) (s : Text) → NoEnd p s → strip_end p s ≡ s
unfolding strip_end
strip_end_of_NoEnd p s h = ap reverse (strip_start_of_NoHead p (reverse s) h) ∙ reverse-reverse s

strip_start_suffix : (p : ℕ → Bool) (s : Text) → (a : Text) × (s ≡ a ++ strip_start p s)
unfolding strip_start
strip_start_suffix p [] = ([], refl)
strip_start_suffix p (c ∷ s) = elim (Bool-cases (p c)) [
  | inl here ↦ let (a, e) = strip_start_suffix p s in (c ∷ a, rw here (ap (λ t. c ∷ t) e))
  | inr stop ↦ ([], rw stop)
]

strip_end_prefix : (p : ℕ → Bool) (s : Text) → (a : Text) × (s ≡ strip_end p s ++ a)
unfolding strip_end
strip_end_prefix p s =
    let (a, e) = strip_start_suffix p (reverse s) in
    (
      reverse a,
      sym (reverse-reverse s) ∙ ap reverse e ∙ reverse-append a (strip_start p (reverse s)),
    )

NoHead-of_append : (p : ℕ → Bool) (s t : Text) → NoHead p (s ++ t) → NoHead p s
NoHead-of_append p [] t h = tt
NoHead-of_append p (c ∷ s) t h = h

pub strip_end-NoHead : (p q : ℕ → Bool) (s : Text) → NoHead q s → NoHead q (strip_end p s)
strip_end-NoHead p q s h =
    let (a, e) = strip_end_prefix p s in NoHead-of_append q (strip_end p s) a (rw e at h)

pub trim-NoHead : (s : Text) → NoHead is_space (trim s)
unfolding trim
trim-NoHead s = strip_end-NoHead is_space is_space _ (strip_start-NoHead is_space s)

pub trim_of_clean : (s : Text) → NoHead is_space s → NoEnd is_space s → trim s ≡ s
unfolding trim
trim_of_clean s h k =
    ap (strip_end is_space) (strip_start_of_NoHead is_space s h) ∙ strip_end_of_NoEnd is_space s k

pub trim-NoEnd : (s : Text) → NoEnd is_space (trim s)
unfolding trim
trim-NoEnd s = strip_end-NoEnd is_space (strip_start is_space s)

pub trim_idem : (s : Text) → trim (trim s) ≡ trim s
trim_idem s = trim_of_clean (trim s) (trim-NoHead s) (trim-NoEnd s)
