-- ===== src/Vault/Selection.antt =====
-- The selection of cards in MyTicketsVault.tsx, and which tickets a reveal is opened for. A `Set` is
-- the list of its members in the order of insertion.
use lucky_scratch.Prelude.{
  ℕ, ◌≡◌, refl, sym, ap, Bool, true, false, not, ◌&&◌, ◌||◌, List, [], ◌∷◌, ◌++◌, map, arith, ◌==◌,
  ltb, length, filter, any, all, if◌then◌else◌, All, Bool-cases, inl, inr,
}
use lucky_scratch.Types.{LuckyScratchTicket}

abbrev pub has : ℕ → List ℕ → Bool
has n = any (λ m. m == n)

abbrev pub add : ℕ → List ℕ → List ℕ
add n s = if has n s then s else s ++ n ∷ []

abbrev pub delete : ℕ → List ℕ → List ℕ
delete n = filter (λ m. not (m == n))

unfoldable pub toggle_ticket : ℕ → List ℕ → List ℕ
toggle_ticket id current = if has id current then delete id current else add id current

unfoldable pub set_all_filtered_selected : List LuckyScratchTicket → Bool → List ℕ → List ℕ
set_all_filtered_selected [] checked current = current
set_all_filtered_selected (t ∷ visible) checked current =
    set_all_filtered_selected visible checked
      (if checked then add t.ticket_id current else delete t.ticket_id current)

unfoldable pub selected_tickets : List LuckyScratchTicket → List ℕ → List LuckyScratchTicket
selected_tickets visible selected = filter (λ t. has t.ticket_id selected) visible

unfoldable pub all_filtered_selected : List LuckyScratchTicket → List ℕ → Bool
all_filtered_selected visible selected =
    ltb 0 (length visible) && all (λ t. has t.ticket_id selected) visible

-- `[...new Set(ids)]`
unfoldable pub unique : List ℕ → List ℕ → List ℕ
unique seen [] = seen
unique seen (n ∷ ns) = unique (add n seen) ns

pub data ScratchFlow : Type 0 where
  empty_message several_pools : ScratchFlow
  open_scratch : ℕ → List ℕ → ScratchFlow

abbrev flow : List ℕ → List ℕ → ScratchFlow
flow [] ids = empty_message
flow (pool ∷ []) ids = open_scratch pool ids
flow (pool ∷ other ∷ pools) ids = several_pools

unfoldable pub open_scratch_flow : List LuckyScratchTicket → ScratchFlow
unfolding unique
open_scratch_flow [] = empty_message
open_scratch_flow (t ∷ ts) =
    flow (unique [] (map LuckyScratchTicket.pool_id (t ∷ ts)))
      (map LuckyScratchTicket.ticket_id (t ∷ ts))

has-append : (n : ℕ) (s t : List ℕ) → has n (s ++ t) ≡ (has n s || has n t)
has-append n [] t = refl
has-append n (m ∷ s) t = ground (arith, has-append n s t)

has-delete : (n m : ℕ) (s : List ℕ) → has n (delete m s) ≡ (has n s && not (m == n))
has-delete n m [] = refl
has-delete n m (i ∷ s) = ground (arith, has-delete n m s)

pub has-add : (n m : ℕ) (s : List ℕ) → has n (add m s) ≡ (has n s || m == n)
has-add n m s = elim (Bool-cases (has m s)) [
  | inl there ↦ elim (Bool-cases (m == n)) [
    | inl same ↦
        let m_eq : m ≡ n = ground arith in
        let found : has n s ≡ true = rw (sym m_eq) there in ground arith
    | inr other ↦ ground arith
  ]
  | inr absent ↦ rw (absent, has-append n s (m ∷ [])) (ground arith)
]

-- A toggle changes whether its ticket is selected, and nothing about any other ticket.
pub has-toggle_ticket :
    (id other : ℕ) (s : List ℕ)
    → has other (toggle_ticket id s) ≡ (if id == other then not (has other s) else has other s)
unfolding toggle_ticket
has-toggle_ticket id other s = elim (Bool-cases (id == other)) [
  | inl same ↦
      let eq : id ≡ other = ground arith in
      rw eq (ground (arith, has-add other other s, has-delete other other s))
  | inr apart ↦ ground (arith, has-add other id s, has-delete other id s)
]

has-set_all :
    (n : ℕ) (visible : List LuckyScratchTicket) (checked : Bool) (s : List ℕ)
    → has n (set_all_filtered_selected visible checked s)
      ≡ (if any (λ t. t.ticket_id == n) visible then checked else has n s)
unfolding set_all_filtered_selected
has-set_all n [] checked s = refl
has-set_all n (t ∷ ts) true s =
    ground (arith, has-set_all n ts true (add t.ticket_id s), has-add n t.ticket_id s)
has-set_all n (t ∷ ts) false s =
    ground (arith, has-set_all n ts false (delete t.ticket_id s), has-delete n t.ticket_id s)

-- The cards that carry a number.
abbrev shown : ℕ → List LuckyScratchTicket → Bool
shown n = any (λ t. t.ticket_id == n)

shown_tail :
    (t : LuckyScratchTicket) (ts : List LuckyScratchTicket) (n : ℕ)
    → shown n ts ≡ true
    → shown n (t ∷ ts) ≡ true
shown_tail t ts n e = ground arith

shown_head :
    (t : LuckyScratchTicket) (ts : List LuckyScratchTicket) → shown t.ticket_id (t ∷ ts) ≡ true
shown_head t ts = ground arith

all_selected :
    (ts : List LuckyScratchTicket) (s : List ℕ)
    → ((n : ℕ) → shown n ts ≡ true → has n s ≡ true)
    → all (λ t. has t.ticket_id s) ts ≡ true
all_selected [] s h = refl
all_selected (t ∷ ts) s h =
    rw (h t.ticket_id (shown_head t ts)) (all_selected ts s (λ n e. h n (shown_tail t ts n e)))

none_selected :
    (ts : List LuckyScratchTicket) (s : List ℕ)
    → ((n : ℕ) → shown n ts ≡ true → has n s ≡ false)
    → filter (λ t. has t.ticket_id s) ts ≡ []
none_selected [] s h = refl
none_selected (t ∷ ts) s h =
    rw (h t.ticket_id (shown_head t ts)) (none_selected ts s (λ n e. h n (shown_tail t ts n e)))

-- Selecting all cards of the page makes the page count as selected where it has a card, and
-- unselecting them leaves none of them selected.
pub all_filtered_selected-set_all :
    (visible : List LuckyScratchTicket) (s : List ℕ)
    → (all_filtered_selected visible (set_all_filtered_selected visible true s)
        ≡ ltb 0 (length visible))
      × (selected_tickets visible (set_all_filtered_selected visible false s) ≡ [])
unfolding all_filtered_selected selected_tickets
all_filtered_selected-set_all visible s = (
  rw
      (all_selected visible (set_all_filtered_selected visible true s)
        (λ (n : ℕ) (e : shown n visible ≡ true). rw (has-set_all n visible true s, e) refl))
      (ground arith),
  none_selected visible (set_all_filtered_selected visible false s)
      (λ (n : ℕ) (e : shown n visible ≡ true). rw (has-set_all n visible false s, e) refl),
)

has-unique : (n : ℕ) (seen ns : List ℕ) → has n (unique seen ns) ≡ (has n seen || has n ns)
unfolding unique
has-unique n seen [] = ground arith
has-unique n seen (m ∷ ns) = ground (arith, has-unique n (add m seen) ns, has-add n m seen)

flow-eq-open :
    (pools ids : List ℕ) (pool : ℕ) (sent : List ℕ)
    → flow pools ids ≡ open_scratch pool sent
    → (pools ≡ pool ∷ []) × (sent ≡ ids)
flow-eq-open [] ids pool sent h = absurd (cc)
flow-eq-open (p ∷ []) ids pool sent h = (ground arith, ground arith)
flow-eq-open (p ∷ q ∷ ps) ids pool sent h = absurd (cc)

same_pool :
    (ts : List LuckyScratchTicket) (pool : ℕ)
    → ((n : ℕ) → has n (map LuckyScratchTicket.pool_id ts) ≡ true → n ≡ pool)
    → All (λ t. t.pool_id ≡ pool) ts
same_pool [] pool h = tt
same_pool (t ∷ ts) pool h =
    (h t.pool_id (ground arith), same_pool ts pool (λ n e. h n (ground arith)))

-- Where the scratch flow is opened, all the tickets are of its pool, and their numbers are passed
-- on in order.
pub open_scratch_flow_lem :
    (tickets : List LuckyScratchTicket) (pool : ℕ) (ids : List ℕ)
    → open_scratch_flow tickets ≡ open_scratch pool ids
    → All (λ t. t.pool_id ≡ pool) tickets × (ids ≡ map LuckyScratchTicket.ticket_id tickets)
unfolding open_scratch_flow
open_scratch_flow_lem [] pool ids h = absurd (cc)
open_scratch_flow_lem (t ∷ ts) pool ids h =
    let pools = map LuckyScratchTicket.pool_id (t ∷ ts) in
    let (one, sent) = flow-eq-open (unique [] pools) _ pool ids h in
    (same_pool (t ∷ ts) pool (λ n e. only n (ap (has n) one) (has-unique n [] pools) e), sent)
  where
    only : (n : ℕ) {u v : Bool} → u ≡ has n (pool ∷ []) → u ≡ (has n [] || v) → v ≡ true → n ≡ pool
    only n a b c = ground arith
