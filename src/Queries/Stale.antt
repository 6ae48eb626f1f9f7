-- ===== src/Queries/Stale.antt =====
-- Which queries of useLuckyScratchQueries.ts react-query takes for stale: those whose key starts with
-- an invalidated key.
use lucky_scratch.Prelude.{◌≡◌, refl, Bool, true, false, ◌&&◌, List, [], ◌∷◌, arith, ◌==◌, any}
use lucky_scratch.Prelude.Texts.{text_eq, text_eq_refl}
use lucky_scratch.Queries.{Part, text, number, undefined, Key, Query}

abbrev pub part_eq : Part → Part → Bool
part_eq (text s) (text t) = text_eq s t
part_eq (number m) (number n) = m == n
part_eq undefined undefined = true
part_eq _ _ = false

pub part_eq_refl : (p : Part) → part_eq p p ≡ true
part_eq_refl (text s) = text_eq_refl s
part_eq_refl (number n) = ground arith
part_eq_refl undefined = refl

-- `key` starts with `front`.
abbrev pub starts_with : Key → Key → Bool
starts_with key [] = true
starts_with [] (q ∷ front) = false
starts_with (p ∷ key) (q ∷ front) = part_eq p q && starts_with key front

abbrev pub is_stale : List Key → Query → Bool
is_stale keys query = any (starts_with query.key) keys
