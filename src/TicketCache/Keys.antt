-- ===== src/TicketCache/Keys.antt =====
-- Which entries share a key of `cacheKey` in ticketCache.ts.
use lucky_scratch.Prelude.{
  ℕ, ◌≡◌, ◌≢◌, refl, sym, ap, ◌∙◌, Option, none, some, List, [], ◌∷◌, arith, ◌==◌, All,
  if◌then◌else◌,
}
use lucky_scratch.Prelude.Texts.{Text}
use lucky_scratch.Prelude.Decimal.{decimal, decimal-All, decimal_injective, IsDigit}
use lucky_scratch.TicketCache.{
  RewardCacheScope, truthy, scope_contract, scope_owner, colon, key_of, cache_key,
}

abbrev pub NoColon : Text → Type 0
NoColon = All (λ c. c ≢ b':')

abbrev push : ℕ → List Text → List Text
push c [] = (c ∷ []) ∷ []
push c (p ∷ ps) = (c ∷ p) ∷ ps

split : Text → List Text
split [] = [] ∷ []
split (c ∷ s) = if c == b':' then [] ∷ split s else push c (split s)

split-colon : (s t : Text) → NoColon s → split (colon s t) ≡ s ∷ split t
unfolding split
split-colon [] t h = refl
split-colon (c ∷ s) t h = ground (arith, split-colon s t h.1)

split-plain : (s : Text) → NoColon s → split s ≡ s ∷ []
unfolding split
split-plain [] h = refl
split-plain (c ∷ s) h = ground (arith, split-plain s h.1)

digits-NoColon : (s : Text) → All IsDigit s → NoColon s
digits-NoColon [] h = tt
digits-NoColon (c ∷ s) h = (omega arith, digits-NoColon s h.1)

decimal-NoColon : (n : ℕ) → NoColon (decimal n)
decimal-NoColon n = digits-NoColon (decimal n) (decimal-All n)

abbrev pub NoColon? : Option Text → Type 0
NoColon? none = Unit
NoColon? (some s) = NoColon s

-- The owner counts only beside a contract.
abbrev pub SameScope : Option Text → Option Text → Option Text → Option Text → Type 0
SameScope none o none o' = Unit
SameScope (some c) o (some c') o' = (c ≡ c') × (o ≡ o')
SameScope _ _ _ _ = ⊥

key_parts : Text → Text → Option Text → Option Text → List Text
key_parts chain ticket none owner = chain ∷ ticket ∷ []
key_parts chain ticket (some contract) none = chain ∷ contract ∷ ticket ∷ []
key_parts chain ticket (some contract) (some owner) = chain ∷ contract ∷ owner ∷ ticket ∷ []

split-key_of :
    (chain ticket : Text) (contract owner : Option Text)
    → NoColon chain
    → NoColon ticket
    → NoColon? contract
    → NoColon? owner
    → split (key_of chain ticket contract owner) ≡ key_parts chain ticket contract owner
unfolding key_parts
split-key_of chain ticket none owner h k p q =
    ground (arith, split-colon chain ticket h, split-plain ticket k)
split-key_of chain ticket (some c) none h k p q =
    ground
      (arith, split-colon chain (colon c ticket) h, split-colon c ticket p, split-plain ticket k)
split-key_of chain ticket (some c) (some o) h k p q = ground (
  arith,
  split-colon chain (colon c (colon o ticket)) h,
  split-colon c (colon o ticket) p,
  split-colon o ticket q,
  split-plain ticket k,
)

key_parts_injective :
    (chain ticket chain' ticket' : Text) (c o c' o' : Option Text)
    → key_parts chain ticket c o ≡ key_parts chain' ticket' c' o'
    → (chain ≡ chain') × (ticket ≡ ticket') × SameScope c o c' o'
unfolding key_parts
key_parts_injective chain ticket chain' ticket' none o none o' e = ground arith
key_parts_injective chain ticket chain' ticket' (some c) none (some c') none e = ground arith
key_parts_injective chain ticket chain' ticket' (some c) (some o) (some c') (some o') e =
    ground arith
key_parts_injective chain ticket chain' ticket' none o (some c') none e = absurd (ground arith)
key_parts_injective chain ticket chain' ticket' none o (some c') (some o') e = absurd (ground arith)
key_parts_injective chain ticket chain' ticket' (some c) none none o' e = absurd (ground arith)
key_parts_injective chain ticket chain' ticket' (some c) (some o) none o' e = absurd (ground arith)
key_parts_injective chain ticket chain' ticket' (some c) none (some c') (some o') e =
    absurd (ground arith)
key_parts_injective chain ticket chain' ticket' (some c) (some o) (some c') none e =
    absurd (ground arith)

-- What a scope says once it is normalised.
abbrev pub contract_of : Option RewardCacheScope → Option Text
contract_of scope = truthy (scope_contract scope)

abbrev pub owner_of : Option RewardCacheScope → Option Text
owner_of scope = truthy (scope_owner scope)

-- Where no contract or owner contains a colon, two cache keys are equal only for the same chain,
-- the same ticket, the same contract or none, and the same owner where there is a contract.
pub cache_key_injective :
    (chain ticket chain' ticket' : ℕ) (s s' : Option RewardCacheScope)
    → NoColon? (contract_of s)
    → NoColon? (owner_of s)
    → NoColon? (contract_of s')
    → NoColon? (owner_of s')
    → cache_key chain ticket s ≡ cache_key chain' ticket' s'
    → (chain ≡ chain')
      × (ticket ≡ ticket')
      × SameScope (contract_of s) (owner_of s) (contract_of s') (owner_of s')
unfolding cache_key
cache_key_injective chain ticket chain' ticket' s s' h1 h2 h3 h4 e =
    let parts =
      key_parts_injective (decimal chain) (decimal ticket) (decimal chain') (decimal ticket')
        (contract_of s) (owner_of s) (contract_of s') (owner_of s')
        (sym (
            split-key_of _ _ (contract_of s) (owner_of s) (decimal-NoColon chain)
              (decimal-NoColon ticket) h1 h2)
          ∙ ap split e
          ∙ split-key_of _ _ (contract_of s') (owner_of s') (decimal-NoColon chain')
              (decimal-NoColon ticket') h3 h4) in
    (decimal_injective chain chain' parts.0, decimal_injective ticket ticket' parts.1, parts.2)
