-- ===== src/CreatePool/Tiers.antt =====
-- Editing the form of CreatePoolPage.tsx: `updateTier`, `addTier`, `removeTier`, `handleFileChange`,
-- and the number fields. A field's text goes through `Number`, which a case of `Input` stands for.
use lucky_scratch.Prelude.{
  ℕ, ◌*◌, ◌≤◌, Bool, true, false, not, Option, none, some, List, [], ◌∷◌, ◌++◌, map, arith, ltb,
  max, All, All-append, filter, if◌then◌else◌,
}
use lucky_scratch.Prelude.Texts.{Text, text_eq}
use lucky_scratch.Money.{nano, nano_usdc}
use lucky_scratch.CreatePool.{RewardTierDraft, File}

-- `Number(event.target.value)`: not a number, a negative one, or one of 0 and more in billionths.
pub data Input : Type 0 where
  not_a_number negative : Input
  number : ℕ → Input

-- `Math.max(least, value || least)` for the counts, and `Math.max(least, value || 0)` in a tier:
-- the two agree, since both leave `least` for what is not a number.
abbrev pub clamp_input : ℕ → Input → ℕ
clamp_input least not_a_number = least
clamp_input least negative = least
clamp_input least (number n) = max least n

pub data TierField : Type 0 where
  amount_field quantity_field : TierField

abbrev set_field : TierField → Input → RewardTierDraft → RewardTierDraft
set_field amount_field v t = record t { amount_usdc = clamp_input 0 v }
set_field quantity_field v t = record t { quantity = clamp_input nano v }

unfoldable pub update_tier : Text → TierField → Input → List RewardTierDraft → List RewardTierDraft
update_tier id field v = map (λ t. if text_eq t.id id then set_field field v t else t)

-- The id is that of `createTierId`, a random text.
unfoldable pub add_tier : Text → List RewardTierDraft → List RewardTierDraft
add_tier id tiers =
    tiers ++ record { id = id; amount_usdc = 2 * nano_usdc; quantity = 5 * nano } ∷ []

unfoldable pub remove_tier : Text → List RewardTierDraft → List RewardTierDraft
remove_tier id = filter (λ t. not (text_eq t.id id))

abbrev pub max_image_upload_bytes : ℕ
max_image_upload_bytes = 10485760

-- The file that the form keeps, and whether the user is told that it is too large.
unfoldable pub handle_file_change : Option File → Option File × Bool
handle_file_change none = (none, false)
handle_file_change (some file) =
    if ltb max_image_upload_bytes file.size then (none, true) else (some file, false)

-- What the edits keep: the quantity of every tier is one or more.
abbrev pub IsCounted : List RewardTierDraft → Type 0
IsCounted = All (λ t. nano ≤ t.quantity)

pub update_tier-IsCounted :
    (id : Text) (field : TierField) (v : Input) (tiers : List RewardTierDraft)
    → IsCounted tiers
    → IsCounted (update_tier id field v tiers)
unfolding update_tier
update_tier-IsCounted id field v [] h = tt
update_tier-IsCounted id field v (t ∷ tiers) h =
    ground (arith, update_tier-IsCounted id field v tiers h.1)

filter-IsCounted :
    (p : RewardTierDraft → Bool) (tiers : List RewardTierDraft)
    → IsCounted tiers
    → IsCounted (filter p tiers)
filter-IsCounted p [] h = tt
filter-IsCounted p (t ∷ tiers) h = ground (arith, filter-IsCounted p tiers h.1)

-- One edit of the list of tiers.
pub data Edit : Type 0 where
  update : Text → TierField → Input → Edit
  add : Text → Edit
  remove : Text → Edit

unfoldable pub apply_edit : Edit → List RewardTierDraft → List RewardTierDraft
unfolding update_tier add_tier remove_tier
apply_edit (update id field v) = update_tier id field v
apply_edit (add id) = add_tier id
apply_edit (remove id) = remove_tier id

unfoldable pub apply_edits : List Edit → List RewardTierDraft → List RewardTierDraft
unfolding apply_edit
apply_edits [] tiers = tiers
apply_edits (e ∷ es) tiers = apply_edits es (apply_edit e tiers)

apply_edit-IsCounted :
    (e : Edit) (tiers : List RewardTierDraft) → IsCounted tiers → IsCounted (apply_edit e tiers)
unfolding apply_edit
apply_edit-IsCounted (update id field v) tiers h = update_tier-IsCounted id field v tiers h
apply_edit-IsCounted (add id) tiers h = All-append (λ t. nano ≤ t.quantity) tiers _ h (omega arith)
apply_edit-IsCounted (remove id) tiers h = filter-IsCounted _ tiers h

-- From tiers with a quantity of one or more each, any sequence of edits, additions and removals
-- leads to such tiers again, whatever is typed.
pub apply_edits-IsCounted :
    (es : List Edit) (tiers : List RewardTierDraft)
    → IsCounted tiers
    → IsCounted (apply_edits es tiers)
unfolding apply_edits
apply_edits-IsCounted [] tiers h = h
apply_edits-IsCounted (e ∷ es) tiers h =
    apply_edits-IsCounted es (apply_edit e tiers) (apply_edit-IsCounted e tiers h)
