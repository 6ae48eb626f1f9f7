-- ===== src/Reveal/Batch/Marks.antt =====
-- The set of revealed indexes: how many they are, and what the effect adds.
use lucky_scratch.Prelude.{
  ℕ, zero, suc, ◌+◌, ◌≤◌, ◌<◌, ◌≡◌, refl, sym, ◌∙◌, ◌⊎◌, inl, inr, true, false, List, [], ◌∷◌,
  arith, ◌==◌, length, Bool-cases, if◌then◌else◌,
}
use lucky_scratch.Prelude.Texts.{Text}
use lucky_scratch.Scratch.{has_text}
use lucky_scratch.Reveal.Batch.{Props, has, add, mark}

-- Without repetition, and all below a bound: the indexes of tickets.
abbrev pub IsMarks : ℕ → List ℕ → Type 0
IsMarks n [] = Unit
IsMarks n (i ∷ s) = (i < n) × (has i s ≡ false) × IsMarks n s

pub add-IsMarks : (n i : ℕ) (s : List ℕ) → i < n → IsMarks n s → IsMarks n (add i s)
add-IsMarks n i s h k = elim (Bool-cases (has i s)) [
  | inl seen ↦ rw seen k
  | inr fresh ↦ rw fresh (h, fresh, k)
]

pub has-add_self : (i : ℕ) (s : List ℕ) → has i (add i s) ≡ true
has-add_self i s = elim (Bool-cases (has i s)) [
  | inl seen ↦ rw (seen, seen) refl
  | inr fresh ↦ rw fresh (ground arith)
]

pub has-add_keeps : (i j : ℕ) (s : List ℕ) → has i s ≡ true → has i (add j s) ≡ true
has-add_keeps i j s h = ground arith

pub has-add_inv : (i j : ℕ) (s : List ℕ) → has i (add j s) ≡ true → (i ≡ j) ⊎ (has i s ≡ true)
has-add_inv i j s h = ground arith

pub mark-IsMarks :
    (n : ℕ) (p : Props) (i : ℕ) (ids : List Text) (s : List ℕ)
    → i + length ids ≤ n
    → IsMarks n s
    → IsMarks n (mark p i ids s)
mark-IsMarks n p i [] s h k = k
mark-IsMarks n p i (id ∷ ids) s h k = elim (Bool-cases (has_text id p.scratchable_ticket_ids)) [
  | inl free ↦ rw free (mark-IsMarks n p (suc i) ids s (omega arith) k)
  | inr shut ↦
      rw shut
        (mark-IsMarks n p (suc i) ids (add i s) (omega arith) (add-IsMarks n i s (omega arith) k))
]

pub has-mark_keeps :
    (p : Props) (j i : ℕ) (ids : List Text) (s : List ℕ)
    → has j s ≡ true
    → has j (mark p i ids s) ≡ true
has-mark_keeps p j i [] s h = h
has-mark_keeps p j i (id ∷ ids) s h = elim (Bool-cases (has_text id p.scratchable_ticket_ids)) [
  | inl free ↦ rw free (has-mark_keeps p j (suc i) ids s h)
  | inr shut ↦ rw shut (has-mark_keeps p j (suc i) ids (add i s) (has-add_keeps j i s h))
]

-- The indexes of a set below a bound.
abbrev count : ℕ → List ℕ → ℕ
count zero s = 0
count (suc n) s = let rest = count n s in if has n s then suc rest else rest

count-nil : (n : ℕ) → count n [] ≡ 0
count-nil zero = refl
count-nil (suc n) = count-nil n

count-cons_above : (n i : ℕ) (s : List ℕ) → n ≤ i → count n (i ∷ s) ≡ count n s
count-cons_above zero i s h = refl
count-cons_above (suc n) i s h = ground (arith, count-cons_above n i s)

count-cons : (n i : ℕ) (s : List ℕ) → i < n → has i s ≡ false → count n (i ∷ s) ≡ suc (count n s)
count-cons zero i s h k = absurd (omega arith)
count-cons (suc n) i s h k = elim (Bool-cases (i == n)) [
  | inl last ↦ ground (arith, count-cons_above n i s)
  | inr other ↦ ground (arith, count-cons n i s)
]

count-le : (n : ℕ) (s : List ℕ) → count n s ≤ n
count-le zero s = omega arith
count-le (suc n) s = ground (arith, count-le n s)

count-IsMarks : (n : ℕ) (s : List ℕ) → IsMarks n s → count n s ≡ length s
count-IsMarks n [] k = count-nil n
count-IsMarks n (i ∷ s) (h, fresh, k) = omega (arith, count-cons n i s h fresh, count-IsMarks n s k)

count_full : (n i : ℕ) (s : List ℕ) → count n s ≡ n → i < n → has i s ≡ true
count_full zero i s h k = absurd (omega arith)
count_full (suc n) i s h k = elim (Bool-cases (has n s)) [
  | inl here ↦ ground (arith, count_full n i s)
  | inr gone ↦ absurd (ground (arith, count-le n s))
]

-- As many indexes without repetition as there are leave none out.
pub has-IsMarks : (n i : ℕ) (s : List ℕ) → IsMarks n s → length s ≡ n → i < n → has i s ≡ true
has-IsMarks n i s k h = count_full n i s (count-IsMarks n s k ∙ h)

pub length-IsMarks : (n : ℕ) (s : List ℕ) → IsMarks n s → length s ≤ n
length-IsMarks n s k = omega (arith, count-IsMarks n s k, count-le n s)

full_count : (n : ℕ) (s : List ℕ) → ((i : ℕ) → i < n → has i s ≡ true) → count n s ≡ n
full_count zero s h = refl
full_count (suc n) s h =
    ground (arith, h n (omega arith), full_count n s (λ i k. h i (omega arith)))

pub length-full :
    (n : ℕ) (s : List ℕ) → IsMarks n s → ((i : ℕ) → i < n → has i s ≡ true) → length s ≡ n
length-full n s k h = sym (count-IsMarks n s k) ∙ full_count n s h
