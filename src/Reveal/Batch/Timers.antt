-- ===== src/Reveal/Batch/Timers.antt =====
-- The timers that reveal tickets: every ticket is revealed, cannot be scratched, or has one.
use lucky_scratch.Prelude.{
  ℕ, zero, suc, ◌+◌, ◌≤◌, ◌<◌, ◌≡◌, refl, ◌⊎◌, inl, inr, Bool, true, false, not, ◌||◌, some, List,
  [], ◌∷◌, ◌++◌, arith, get_elem?, All, ◌==◌, any, length, Bool-cases,
}
use lucky_scratch.Prelude.Texts.{Text}
use lucky_scratch.Scratch.{has_text}
use lucky_scratch.Reveal.Batch.{
  Props, Timer, reveal, summary, has, add, mark, schedule, nth_removed,
}
use lucky_scratch.Reveal.Batch.Marks.{has-mark_keeps, has-add_self, has-add_keeps}

-- A timer for the index is set.
abbrev pub is_for : ℕ → Timer → Bool
is_for i (reveal j) = j == i
is_for i summary = false

abbrev pub awaits : ℕ → List Timer → Bool
awaits i = any (is_for i)

pub awaits-append :
    (i : ℕ) (ts us : List Timer) → awaits i (ts ++ us) ≡ (awaits i ts || awaits i us)
awaits-append i [] us = refl
awaits-append i (t ∷ ts) us = ground (arith, awaits-append i ts us)

-- The tickets from `i` on that cannot be scratched are in the set.
abbrev pub IsMarked : Props → ℕ → List Text → List ℕ → Type 0
IsMarked p i [] s = Unit
IsMarked p i (id ∷ ids) s =
    ((has_text id p.scratchable_ticket_ids ≡ true) ⊎ (has i s ≡ true)) × IsMarked p (suc i) ids s

pub mark-IsMarked :
    (p : Props) (i : ℕ) (ids : List Text) (s : List ℕ) → IsMarked p i ids (mark p i ids s)
mark-IsMarked p i [] s = tt
mark-IsMarked p i (id ∷ ids) s = elim (Bool-cases (has_text id p.scratchable_ticket_ids)) [
  | inl free ↦ rw free (inl refl, mark-IsMarked p (suc i) ids s)
  | inr shut ↦ rw shut (
    inr (has-mark_keeps p i (suc i) ids (add i s) (has-add_self i s)),
    mark-IsMarked p (suc i) ids (add i s),
  )
]

pub IsMarked-add :
    (p : Props) (i j : ℕ) (ids : List Text) (s : List ℕ)
    → IsMarked p i ids s
    → IsMarked p i ids (add j s)
IsMarked-add p i j [] s k = tt
IsMarked-add p i j (id ∷ ids) s (inl free, k) = (inl free, IsMarked-add p (suc i) j ids s k)
IsMarked-add p i j (id ∷ ids) s (inr seen, k) =
    (inr (has-add_keeps i j s seen), IsMarked-add p (suc i) j ids s k)

-- Every ticket from `i` on is in the set or has a timer.
pub schedule_covers :
    (p : Props) (i j : ℕ) (ids : List Text) (s : List ℕ)
    → IsMarked p i ids s
    → i ≤ j
    → j < i + length ids
    → (has j s ≡ true) ⊎ (awaits j (schedule p s i ids) ≡ true)
schedule_covers p i j [] s k h h' = absurd (omega arith)
schedule_covers p i j (id ∷ ids) s (m, k) h h' = elim (Bool-cases (i == j)) [
  | inl here ↦ ground arith
  | inr later ↦ ground (arith, schedule_covers p (suc i) j ids s k)
]

abbrev pub Covered : ℕ → List ℕ → List Timer → Type 0
Covered n s ts = (j : ℕ) → j < n → (has j s ≡ true) ⊎ (awaits j ts ≡ true)

abbrev pub Grows : List ℕ → List ℕ → Type 0
Grows s s' = (j : ℕ) → has j s ≡ true → has j s' ≡ true

pub Covered-Grows :
    (n : ℕ) (s s' : List ℕ) (ts : List Timer) → Grows s s' → Covered n s ts → Covered n s' ts
Covered-Grows n s s' ts g k j h = elim (k j h) [ inl seen ↦ inl (g j seen) | inr set ↦ inr set ]

pub Covered-left :
    (n : ℕ) (s : List ℕ) (ts us : List Timer) → Covered n s ts → Covered n s (ts ++ us)
Covered-left n s ts us k j h = ground (arith, k j h, awaits-append j ts us)

pub Covered-right :
    (n : ℕ) (s : List ℕ) (ts us : List Timer) → Covered n s us → Covered n s (ts ++ us)
Covered-right n s ts us k j h = ground (arith, k j h, awaits-append j ts us)

awaits-nth_removed :
    (j n i : ℕ) (ts : List Timer)
    → get_elem? ts n ≡ some (reveal i)
    → awaits j ts ≡ true
    → (j ≡ i) ⊎ (awaits j (nth_removed n ts) ≡ true)
awaits-nth_removed j n i [] e h = cc
awaits-nth_removed j zero i (t ∷ ts) e h = ground arith
awaits-nth_removed j (suc n) i (t ∷ ts) e h = ground (arith, awaits-nth_removed j n i ts e)

awaits-nth_summary :
    (j n : ℕ) (ts : List Timer)
    → get_elem? ts n ≡ some summary
    → awaits j ts ≡ true
    → awaits j (nth_removed n ts) ≡ true
awaits-nth_summary j n [] e h = cc
awaits-nth_summary j zero (t ∷ ts) e h = ground arith
awaits-nth_summary j (suc n) (t ∷ ts) e h = ground (arith, awaits-nth_summary j n ts e)

pub Covered-reveal :
    (n m i : ℕ) (s : List ℕ) (ts : List Timer)
    → get_elem? ts m ≡ some (reveal i)
    → Covered n s ts
    → Covered n (add i s) (nth_removed m ts)
Covered-reveal n m i s ts e k j h = elim (k j h) [
  | inl seen ↦ inl (has-add_keeps j i s seen)
  | inr set ↦ elim (awaits-nth_removed j m i ts e set) [
    | inl same ↦ inl (rw same (has-add_self i s))
    | inr left ↦ inr left
  ]
]

pub Covered-summary :
    (n m : ℕ) (s : List ℕ) (ts : List Timer)
    → get_elem? ts m ≡ some summary
    → Covered n s ts
    → Covered n s (nth_removed m ts)
Covered-summary n m s ts e k j h = elim (k j h) [
  | inl seen ↦ inl seen
  | inr set ↦ inr (awaits-nth_summary j m ts e set)
]

abbrev pub IsTimer : ℕ → Timer → Type 0
IsTimer n (reveal i) = i < n
IsTimer n summary = Unit

pub All-nth_removed :
    (n m : ℕ) (ts : List Timer) → All (IsTimer n) ts → All (IsTimer n) (nth_removed m ts)
All-nth_removed n m [] k = tt
All-nth_removed n zero (t ∷ ts) (h, k) = k
All-nth_removed n (suc m) (t ∷ ts) (h, k) = (h, All-nth_removed n m ts k)

pub All-get_elem? :
    (n m i : ℕ) (ts : List Timer) → get_elem? ts m ≡ some (reveal i) → All (IsTimer n) ts → i < n
All-get_elem? n m i [] e k = cc
All-get_elem? n zero i (reveal j ∷ ts) e (h, k) = ground arith
All-get_elem? n zero i (summary ∷ ts) e (h, k) = cc
All-get_elem? n (suc m) i (t ∷ ts) e (h, k) = All-get_elem? n m i ts e k

pub schedule-IsTimer :
    (n : ℕ) (p : Props) (s : List ℕ) (i : ℕ) (ids : List Text)
    → i + length ids ≤ n
    → All (IsTimer n) (schedule p s i ids)
schedule-IsTimer n p s i [] h = tt
schedule-IsTimer n p s i (id ∷ ids) h =
    elim (Bool-cases (not (has_text id p.scratchable_ticket_ids) || has i s)) [
      | inl skipped ↦ rw skipped (schedule-IsTimer n p s (suc i) ids (omega arith))
      | inr set ↦ rw set (omega arith, schedule-IsTimer n p s (suc i) ids (omega arith))
    ]
