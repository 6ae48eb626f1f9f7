-- ===== src/Prelude/Sorting.antt =====
-- `Array.prototype.sort`, which is stable, for a comparison that says whether one element may stand
-- before another.
use mathlib.Core.Path.{◌≡◌, refl, sym, ◌∙◌, ap}
use Prim.Native.Nat.{ℕ, min}
use mathlib.Core.Bool.{Bool, true, false, ◌&&◌, ◌||◌}
use mathlib.Core.Logic.{inl, inr}
use mathlib.Core.List.{List, [], ◌∷◌, ◌++◌}
use native.Mathlib.Omega.{arith}
use lucky_scratch.Prelude.Tests.{ltb, leb, ◌==◌, if◌then◌else◌, Bool-cases}
use lucky_scratch.Prelude.Lists.{
  count_by, count_by-true, length, take, drop, take-append-drop, length-take,
}

-- `right.key - left.key || right.other - left.other`, for the keys of the left and of the right.
abbrev pub by_keys : ℕ → ℕ → ℕ → ℕ → Bool
by_keys key1 other1 key2 other2 = ltb other1 key1 || (key1 == other1 && leb other2 key2)

module _ {ℓ} {A : Type ℓ} (before : A → A → Bool) where
  abbrev insert_sorted : A → List A → List A
  insert_sorted x [] = x ∷ []
  insert_sorted x (y ∷ ys) = if before x y then x ∷ y ∷ ys else y ∷ insert_sorted x ys

  unfoldable pub sort_by : List A → List A
  sort_by [] = []
  sort_by (x ∷ xs) = insert_sorted x (sort_by xs)

  -- An element may stand before the next one, if there is one.
  abbrev pub Leads : A → List A → Type 0
  Leads x [] = Unit
  Leads x (y ∷ ys) = before x y ≡ true

  abbrev pub IsSorted : List A → Type 0
  IsSorted [] = Unit
  IsSorted (x ∷ xs) = Leads x xs × IsSorted xs

  -- Of two elements one may stand before the other.
  abbrev pub IsTotal : Type ℓ
  IsTotal = (x y : A) → before x y ≡ false → before y x ≡ true

  insert-Leads :
      IsTotal
      → (x y : A) (ys : List A) → before x y ≡ false
      → Leads y ys
      → Leads y (insert_sorted x ys)
  insert-Leads total x y [] h k = total x y h
  insert-Leads total x y (z ∷ ys) h k = elim (Bool-cases (before x z)) [
    | inl here ↦ rw here (total x y h)
    | inr there ↦ rw there k
  ]

  insert-IsSorted : IsTotal → (x : A) (ys : List A) → IsSorted ys → IsSorted (insert_sorted x ys)
  insert-IsSorted total x [] k = (tt, tt)
  insert-IsSorted total x (y ∷ ys) (leads, k) = elim (Bool-cases (before x y)) [
    | inl here ↦ rw here (here, (leads, k))
    | inr there ↦ rw there (insert-Leads total x y ys there leads, insert-IsSorted total x ys k)
  ]

  pub sort_by-IsSorted : IsTotal → (xs : List A) → IsSorted (sort_by xs)
  unfolding sort_by
  sort_by-IsSorted total [] = tt
  sort_by-IsSorted total (x ∷ xs) = insert-IsSorted total x (sort_by xs) (sort_by-IsSorted total xs)

  count_by-insert :
      (p : A → Bool) (x : A) (ys : List A) → count_by p (insert_sorted x ys) ≡ count_by p (x ∷ ys)
  count_by-insert p x [] = refl
  count_by-insert p x (y ∷ ys) = elim (Bool-cases (before x y)) [
    | inl here ↦ rw here refl
    | inr there ↦ rw there (swap (count_by-insert p x ys))
  ]
    where
      swap :
          count_by p (insert_sorted x ys) ≡ count_by p (x ∷ ys)
          → count_by p (y ∷ insert_sorted x ys) ≡ count_by p (x ∷ y ∷ ys)
      swap h = ground arith

  -- A sort moves elements and neither adds nor drops any.
  pub count_by-sort_by : (p : A → Bool) (xs : List A) → count_by p (sort_by xs) ≡ count_by p xs
  unfolding sort_by
  count_by-sort_by p [] = refl
  count_by-sort_by p (x ∷ xs) = count_by-insert p x (sort_by xs) ∙ tail (count_by-sort_by p xs)
    where
      tail :
          count_by p (sort_by xs) ≡ count_by p xs
          → count_by p (x ∷ sort_by xs) ≡ count_by p (x ∷ xs)
      tail h = ground arith

  pub length-sort_by : (xs : List A) → length (sort_by xs) ≡ length xs
  length-sort_by xs =
      sym (count_by-true (sort_by xs)) ∙ count_by-sort_by (λ _. true) xs ∙ count_by-true xs

  -- The first elements of a sort: with some rest behind them they are sorted and are the given ones.
  abbrev pub AreFirst : ℕ → List A → List A → Type ℓ
  AreFirst n xs shown =
      (rest : List A) × IsSorted (shown ++ rest)
      × ((p : A → Bool) → count_by p (shown ++ rest) ≡ count_by p xs)
      × (length shown ≡ min n (length xs))

  pub take-sort_by : IsTotal → (n : ℕ) (xs : List A) → AreFirst n xs (take n (sort_by xs))
  take-sort_by total n xs =
      let sorted = sort_by xs in
      let whole : take n sorted ++ drop n sorted ≡ sorted = take-append-drop n sorted in
      (
        drop n sorted,
        rw whole (sort_by-IsSorted total xs),
        λ p. ap (count_by p) whole ∙ count_by-sort_by p xs,
        length-take n sorted ∙ ap (min n) (length-sort_by xs),
      )
