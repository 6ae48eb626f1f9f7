-- ===== src/Purchase/Selection.antt =====
-- The manual selection of PurchasePage.tsx, and the indexes that it stands for.
use lucky_scratch.Prelude.{
  ℕ, ◌+◌, ◌≤◌, ◌≡◌, refl, sym, ap, ◌∙◌, Bool, true, false, not, ◌||◌, some, List, [], ◌∷◌, ◌++◌,
  map, arith, leb, ◌==◌, length, any, filter, All, Bool-cases, Option-cases, inl, inr,
  length-append, length-filter-le,
}
use lucky_scratch.Prelude.Texts.{Text, text_eq, text_eq→eq, text_eq_refl}
use lucky_scratch.Prelude.Decimal.{pad_start-decimal_injective}
use lucky_scratch.Purchase.{
  format_ticket_display_id, has_id, handle_select, handle_deselect, display_id_to_index, indexes_of,
}

pub data Pick : Type 0 where
  select deselect : Text → Pick

unfoldable pub pick_all : List Pick → List Text → List Text
pick_all [] ids = ids
pick_all (select id ∷ picks) ids = pick_all picks (handle_select id ids)
pick_all (deselect id ∷ picks) ids = pick_all picks (handle_deselect id ids)

abbrev pub NoRepeat : List Text → Type 0
NoRepeat [] = Unit
NoRepeat (id ∷ ids) = (has_id id ids ≡ false) × NoRepeat ids

has_id-append : (id : Text) (s t : List Text) → has_id id (s ++ t) ≡ (has_id id s || has_id id t)
has_id-append id [] t = refl
has_id-append id (x ∷ s) t = ground (arith, has_id-append id s t)

text_eq-sym_false : (s t : Text) → text_eq s t ≡ false → text_eq t s ≡ false
text_eq-sym_false s t h = elim (Bool-cases (text_eq t s)) [
  | inr other ↦ other
  | inl same ↦ absurd (cc (text_eq_refl s, rw (text_eq→eq t s same) at h))
]

append-NoRepeat :
    (id : Text) (s : List Text) → has_id id s ≡ false → NoRepeat s → NoRepeat (s ++ id ∷ [])
append-NoRepeat id [] h k = (refl, tt)
append-NoRepeat id (x ∷ s) h (fresh, k) =
    let apart : text_eq x id ≡ false = ground arith in
    (
      rw (has_id-append x s (id ∷ []), fresh, text_eq-sym_false x id apart) refl,
      append-NoRepeat id s (ground arith) k,
    )

has_id-filter :
    (p : Text → Bool) (id : Text) (s : List Text)
    → has_id id s ≡ false
    → has_id id (filter p s) ≡ false
has_id-filter p id [] h = refl
has_id-filter p id (x ∷ s) h = ground (arith, has_id-filter p id s)

filter-NoRepeat : (p : Text → Bool) (s : List Text) → NoRepeat s → NoRepeat (filter p s)
filter-NoRepeat p [] k = tt
filter-NoRepeat p (x ∷ s) (fresh, k) = elim (Bool-cases (p x)) [
  | inl kept ↦ rw kept (has_id-filter p x s fresh, filter-NoRepeat p s k)
  | inr dropped ↦ rw dropped (filter-NoRepeat p s k)
]

abbrev pub IsSelection : List Text → Type 0
IsSelection ids = (length ids ≤ 10) × NoRepeat ids

handle_select-IsSelection :
    (id : Text) (ids : List Text) → IsSelection ids → IsSelection (handle_select id ids)
unfolding handle_select
handle_select-IsSelection id ids (few, k) =
    elim (Bool-cases (leb 10 (length ids) || has_id id ids)) [
      | inl refused ↦ rw refused (few, k)
      | inr taken ↦
          rw taken
            (bound (length-append ids (id ∷ [])) taken, append-NoRepeat id ids (ground arith) k)
    ]
  where
    bound : {n : ℕ} → n ≡ length ids + 1 → (leb 10 (length ids) || has_id id ids) ≡ false → n ≤ 10
    bound e t = ground arith

-- From a selection of at most ten tickets without repetition, any sequence of selecting and
-- deselecting leads to such a selection again.
pub pick_all-IsSelection :
    (picks : List Pick) (ids : List Text) → IsSelection ids → IsSelection (pick_all picks ids)
unfolding pick_all handle_deselect
pick_all-IsSelection [] ids k = k
pick_all-IsSelection (select id ∷ picks) ids k =
    pick_all-IsSelection picks _ (handle_select-IsSelection id ids k)
pick_all-IsSelection (deselect id ∷ picks) ids (few, k) = pick_all-IsSelection picks _ (
  omega (arith, length-filter-le (λ x. not (text_eq x id)) ids),
  filter-NoRepeat (λ x. not (text_eq x id)) ids k,
)

abbrev pub has_index : ℕ → List ℕ → Bool
has_index n = any (λ m. m == n)

display_id_to_index_sound :
    (available : List ℕ) (id : Text) (n : ℕ)
    → display_id_to_index available id ≡ some n
    → (has_index n available ≡ true) × (format_ticket_display_id n ≡ id)
unfolding display_id_to_index
display_id_to_index_sound [] id n h = absurd (cc)
display_id_to_index_sound (i ∷ available) id n h =
    elim (Option-cases (display_id_to_index available id)) [
      | inr (m, found) ↦
          let same : m ≡ n = ground arith in
          let (inside, name) = display_id_to_index_sound available id n (found ∙ ap some same) in
          (ground arith, name)
      | inl missing ↦ elim (Bool-cases (text_eq (format_ticket_display_id i) id)) [
        | inl here ↦
            let same : i ≡ n = ground arith in
            (ground arith, ap format_ticket_display_id (sym same) ∙ text_eq→eq _ id here)
        | inr other ↦ absurd (ground arith)
      ]
    ]

-- Two ticket indexes that show the same number are the same index.
pub format_ticket_display_id_injective :
    (m n : ℕ) → format_ticket_display_id m ≡ format_ticket_display_id n → m ≡ n
unfolding format_ticket_display_id
format_ticket_display_id_injective m n e =
    let same = pad_start-decimal_injective 4 (m + 1) (n + 1) e in omega arith

-- Only indexes that are available are found, at most one for each number; if as many are found, they
-- are those of the numbers, in order.
indexes_of_sound :
    (available : List ℕ) (ids : List Text)
    → All (λ n. has_index n available ≡ true) (indexes_of available ids)
      × (length (indexes_of available ids) ≤ length ids)
      × (length (indexes_of available ids) ≡ length ids
          → map format_ticket_display_id (indexes_of available ids) ≡ ids)
unfolding indexes_of
indexes_of_sound available [] = (tt, ground arith, λ _. refl)
indexes_of_sound available (id ∷ ids) = elim (Option-cases (display_id_to_index available id)) [
  | inl missing ↦
      let (inside, few, order) = indexes_of_sound available ids in
      rw missing (inside, omega arith, λ e. absurd (omega arith))
  | inr (n, found) ↦
      let (inside, few, order) = indexes_of_sound available ids in
      let (here, name) = display_id_to_index_sound available id n found in
      rw found ((here, inside), omega arith, λ e. cc (name, order (omega arith)))
]

-- Where an index is found for each selected number, the indexes that are sent are all available,
-- and their numbers are the selected ones in order.
pub indexes_of-exact :
    (available : List ℕ) (ids : List Text)
    → length (indexes_of available ids) ≡ length ids
    → All (λ n. has_index n available ≡ true) (indexes_of available ids)
      × (map format_ticket_display_id (indexes_of available ids) ≡ ids)
indexes_of-exact available ids h =
    let (inside, few, order) = indexes_of_sound available ids in (inside, order h)
