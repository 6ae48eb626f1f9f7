-- ===== src/Api/Search/Laws.antt =====
-- A query string read back: cut at each `&`, and each piece at its first `=`.
use lucky_scratch.Prelude.{
  ℕ, zero, suc, ◌<◌, ◌≡◌, ◌⊎◌, inl, refl, ap, ◌∙◌, false, Option, none, some, [], ◌∷◌, ◌++◌, map,
  arith, ◌==◌, All, All-append, if◌then◌else◌,
}
use lucky_scratch.Prelude.Texts.{Text, codes}
use lucky_scratch.Prelude.Texts.Split.{split_on, Avoids, split_on-Avoids, split_on-append}
use lucky_scratch.Prelude.Decimal.{decimal, IsDigit, decimal-All}
use lucky_scratch.Api.Search.{
  TicketView, all, unrevealed, revealed, winning, to_claim, ListUserTicketsParams, Pairs,
  view_pairs, pool_pairs, ticket_pairs, search_text, number_or,
}

abbrev pair_of : Text → Text × Text
pair_of [] = ([], [])
pair_of (c ∷ s) = if c == b'=' then ([], s) else (c ∷ (pair_of s).0, (pair_of s).1)

unfoldable pub parse_search : Text → Pairs
parse_search s = map pair_of (split_on b'&' s)

pair_of-append : (k v : Text) → Avoids b'=' k → pair_of (k ++ b'=' ∷ v) ≡ (k, v)
pair_of-append [] v h = refl
pair_of-append (c ∷ k) v h =
    let other : (c == b'=') ≡ false = ground arith in
    rw (other, pair_of-append k v (ground arith)) refl

abbrev IsPlain : Text × Text → Type 0
IsPlain (k, v) = Avoids b'=' k × Avoids b'&' k × Avoids b'&' v

Avoids-append : (d : ℕ) (s t : Text) → Avoids d s → Avoids d t → Avoids d (s ++ t)
Avoids-append d [] t h k = k
Avoids-append d (c ∷ s) t h k = ground (arith, Avoids-append d s t)

parse_search-more :
    (k v t : Text)
    → Avoids b'=' k
    → Avoids b'&' k
    → Avoids b'&' v
    → parse_search (k ++ b'=' ∷ v ++ b'&' ∷ t) ≡ (k, v) ∷ parse_search t
unfolding parse_search
parse_search-more k v t a b c =
    rw
      (
        split_on-append b'&' (k ++ b'=' ∷ v) t (Avoids-append b'&' k (b'=' ∷ v) b c),
        pair_of-append k v a,
      )
      refl

parse_search-search_text :
    (k v : Text) (ps : Pairs)
    → All IsPlain ((k, v) ∷ ps)
    → parse_search (search_text ((k, v) ∷ ps)) ≡ (k, v) ∷ ps
unfolding parse_search search_text
parse_search-search_text k v [] ((a, b, c), h) =
    rw
      (
        split_on-Avoids b'&' (k ++ b'=' ∷ v) (Avoids-append b'&' k (b'=' ∷ v) b c),
        pair_of-append k v a,
      )
      refl
parse_search-search_text k v ((k', v') ∷ ps) ((a, b, c), h) =
    parse_search-more k v (search_text ((k', v') ∷ ps)) a b c
    ∙ ap (λ l. (k, v) ∷ l) (parse_search-search_text k' v' ps h)

digit-Avoids : (d : ℕ) (s : Text) → (d < 48) ⊎ (57 < d) → All IsDigit s → Avoids d s
digit-Avoids d [] h k = refl
digit-Avoids d (c ∷ s) h (x, k) = ground (arith, digit-Avoids d s h k)

view_pairs-IsPlain : (v : Option TicketView) → All IsPlain (view_pairs v)
view_pairs-IsPlain none = tt
view_pairs-IsPlain (some all) = tt
view_pairs-IsPlain (some unrevealed) = ((refl, refl, refl), tt)
view_pairs-IsPlain (some revealed) = ((refl, refl, refl), tt)
view_pairs-IsPlain (some winning) = ((refl, refl, refl), tt)
view_pairs-IsPlain (some to_claim) = ((refl, refl, refl), tt)

decimal-Avoids : (n : ℕ) → Avoids b'&' (decimal n)
decimal-Avoids n = digit-Avoids b'&' (decimal n) (inl (omega arith)) (decimal-All n)

pool_pairs-IsPlain : (p : Option ℕ) → All IsPlain (pool_pairs p)
pool_pairs-IsPlain none = tt
pool_pairs-IsPlain (some zero) = tt
pool_pairs-IsPlain (some (suc n)) = ((refl, refl, decimal-Avoids (suc n)), tt)

-- Whatever the limit, offset, view and pool, the query text that the client sends for a list of
-- tickets, split at its separators, is the list of parameters that was set.
pub parse_search-ticket_pairs :
    (p : ListUserTicketsParams) → parse_search (search_text (ticket_pairs p)) ≡ ticket_pairs p
unfolding ticket_pairs
parse_search-ticket_pairs p =
    parse_search-search_text (codes "limit") (decimal (number_or 50 p.limit)) _ (
      (refl, refl, decimal-Avoids (number_or 50 p.limit)),
      (
        (refl, refl, decimal-Avoids (number_or 0 p.offset)),
        All-append IsPlain (view_pairs p.view) (pool_pairs p.pool_id) (view_pairs-IsPlain p.view)
            (pool_pairs-IsPlain p.pool_id),
      ),
    )
