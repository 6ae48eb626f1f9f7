-- ===== src/Scratch/Links.antt =====
-- The links to ScratchPage.tsx: `handleScratchNow` of PurchasePage.tsx and `openScratchFlow` of
-- MyTicketsVault.tsx name tickets that `parseTicketIds` reads back from the query.
use lucky_scratch.Prelude.{
  ℕ, ◌≡◌, refl, sym, ◌∙◌, ap, Bool, true, false, not, ◌&&◌, List, [], ◌∷◌, ◌++◌, map, filter, arith,
  ◌==◌, leb, any, all, All, All-append, Bool-cases, inl, inr, if◌then◌else◌,
}
use lucky_scratch.Prelude.Texts.{Text, codes, text_eq, text_eq_refl, text_eq→eq, trim, is_space}
use lucky_scratch.Prelude.Texts.Split.{split_on, Avoids, split_on-Avoids, split_on-append}
use lucky_scratch.Prelude.Texts.Strip.{NoHead, trim_of_clean}
use mathlib.Core.List.{reverse, reverse-append}
use lucky_scratch.Prelude.Decimal.{
  decimal, decimal_injective, IsDigit, decimal-All, is_empty-decimal,
}
use lucky_scratch.Scratch.Page.{join_commas}
use lucky_scratch.Scratch.{is_number, has_text, split_commas, unique_texts, parse_ticket_ids}

-- The path of a link.
unfoldable pub scratch_path : Text → List Text → Text
scratch_path pool_id ids = codes "/scratch/" ++ pool_id ++ codes "?tickets=" ++ join_commas ids

-- No number comes again.
abbrev pub is_fresh : List ℕ → List ℕ → Bool
is_fresh seen [] = true
is_fresh seen (n ∷ ns) = not (any (λ m. m == n) seen) && is_fresh (seen ++ n ∷ []) ns

Avoids-digits : (s : Text) → All IsDigit s → Avoids b',' s
Avoids-digits [] h = refl
Avoids-digits (c ∷ s) (d, h) = ground (arith, d, Avoids-digits s h)

split-join :
    (n : ℕ) (ns : List ℕ)
    → split_on b',' (join_commas (map decimal (n ∷ ns))) ≡ map decimal (n ∷ ns)
split-join n [] = split_on-Avoids b',' (decimal n) (Avoids-digits (decimal n) (decimal-All n))
split-join n (m ∷ ns) =
    split_on-append b',' (decimal n) _ (Avoids-digits (decimal n) (decimal-All n))
    ∙ ap (λ t. decimal n ∷ t) (split-join m ns)

NoHead-digits : (s : Text) → All IsDigit s → NoHead is_space s
unfolding is_space
NoHead-digits [] h = tt
NoHead-digits (c ∷ s) (d, h) = ground (arith, d)

All-reverse : (s : Text) → All IsDigit s → All IsDigit (reverse s)
All-reverse [] h = tt
All-reverse (c ∷ s) (d, h) =
    rw (reverse-append (c ∷ []) s)
      (All-append IsDigit (reverse s) (c ∷ []) (All-reverse s h) (d, tt))

trim-decimal : (n : ℕ) → trim (decimal n) ≡ decimal n
trim-decimal n =
    trim_of_clean (decimal n) (NoHead-digits (decimal n) (decimal-All n))
      (NoHead-digits (reverse (decimal n)) (All-reverse (decimal n) (decimal-All n)))

map-trim : (ns : List ℕ) → map trim (map decimal ns) ≡ map decimal ns
map-trim [] = refl
map-trim (n ∷ ns) = cc (trim-decimal n, map-trim ns)

all-digits : (s : Text) → All IsDigit s → all (λ c. leb 48 c && leb c 57) s ≡ true
all-digits [] h = refl
all-digits (c ∷ s) (d, h) = ground (arith, d, all-digits s h)

is_number-decimal : (n : ℕ) → is_number (decimal n) ≡ true
is_number-decimal n = ground (arith, is_empty-decimal n, all-digits (decimal n) (decimal-All n))

filter-number : (ns : List ℕ) → filter is_number (map decimal ns) ≡ map decimal ns
filter-number [] = refl
filter-number (n ∷ ns) = rw (is_number-decimal n, filter-number ns) refl

has_text-decimal :
    (n : ℕ) (seen : List ℕ) → has_text (decimal n) (map decimal seen) ≡ any (λ m. m == n) seen
has_text-decimal n [] = refl
has_text-decimal n (m ∷ seen) = elim (Bool-cases (text_eq (decimal m) (decimal n))) [
  | inl same ↦
      let eq : m ≡ n = decimal_injective m n (text_eq→eq (decimal m) (decimal n) same) in
      ground (arith, same, eq)
  | inr apart ↦ elim (Bool-cases (m == n)) [
    | inl here ↦
        let eq : m ≡ n = ground arith in absurd (cc (text_eq_refl (decimal n), rw eq at apart))
    | inr there ↦ ground (arith, apart, there, has_text-decimal n seen)
  ]
]

map-snoc :
    (seen : List ℕ) (n : ℕ) → map decimal (seen ++ n ∷ []) ≡ map decimal seen ++ decimal n ∷ []
map-snoc [] n = refl
map-snoc (m ∷ seen) n = cc (map-snoc seen n)

append_nil : (xs : List ℕ) → xs ++ [] ≡ xs
append_nil [] = refl
append_nil (x ∷ xs) = ap (λ l. x ∷ l) (append_nil xs)

append_cons : (xs : List ℕ) (n : ℕ) (ys : List ℕ) → (xs ++ n ∷ []) ++ ys ≡ xs ++ n ∷ ys
append_cons [] n ys = refl
append_cons (x ∷ xs) n ys = ap (λ l. x ∷ l) (append_cons xs n ys)

unique-new :
    (seen : List Text) (s : Text) (rest : List Text)
    → has_text s seen ≡ false
    → unique_texts seen (s ∷ rest) ≡ unique_texts (seen ++ s ∷ []) rest
unfolding unique_texts
unique-new seen s rest h = ap (λ b. unique_texts (if b then seen else seen ++ s ∷ []) rest) h

unique-fresh :
    (seen ns : List ℕ)
    → is_fresh seen ns ≡ true
    → unique_texts (map decimal seen) (map decimal ns) ≡ map decimal (seen ++ ns)
unfolding unique_texts
unique-fresh seen [] h = ap (map decimal) (sym (append_nil seen))
unique-fresh seen (n ∷ ns) h =
    let absent : has_text (decimal n) (map decimal seen) ≡ false =
      has_text-decimal n seen ∙ ground arith in
    unique-new (map decimal seen) (decimal n) (map decimal ns) absent
    ∙ ap (λ t. unique_texts t (map decimal ns)) (sym (map-snoc seen n))
    ∙ unique-fresh (seen ++ n ∷ []) ns (ground arith)
    ∙ ap (map decimal) (append_cons seen n ns)

-- The tickets that a link to the scratch page names, distinct numbers joined by commas as the
-- purchase page and the inventory write them, are read back by parseTicketIds as the same tickets
-- in the same order.
pub parse_ticket_ids-join_commas :
    (ids : List ℕ)
    → is_fresh [] ids ≡ true
    → parse_ticket_ids (join_commas (map decimal ids)) ≡ map decimal ids
unfolding parse_ticket_ids split_commas
parse_ticket_ids-join_commas [] h = refl
parse_ticket_ids-join_commas (n ∷ ns) h =
    ap (λ t. unique_texts [] (filter is_number (map trim t))) (split-join n ns)
    ∙ ap (λ t. unique_texts [] (filter is_number t)) (map-trim (n ∷ ns))
    ∙ ap (unique_texts []) (filter-number (n ∷ ns))
    ∙ unique-fresh [] (n ∷ ns) h
