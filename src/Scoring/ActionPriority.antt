-- ===== src/Scoring/ActionPriority.antt =====
-- `modules/scoring/action_priority.py`.
use btx_omni_prospect.Prelude.{
  ℕ, String, Bool, true, false, not, ◌&&◌, ◌+◌, Option, none, some, List, [], ◌∷◌, ◌==◌, string_eq,
  option_eq, nat_eq, elem, select, or_default, ltb, if◌then◌else◌,
}
use btx_omni_prospect.Prelude.Sorting.{sorted, text_le}

-- What the ranking reads of an item. A score is what `_number` makes of its value: none unless it is
-- a number between 0 and 100, and else in units of a common decimal fraction.
pub record Item : Type 0 where
  pub id : String
  -- none where the item has no such key, some none where the key holds None
  pub deduplication_key : Option (Option String)
  pub status : Option String
  -- the truth value of item.get('valid', True)
  pub valid : Bool
  -- item.get('confirmed_block') is True
  pub confirmed_block : Bool
  pub disposition : Option String
  pub score : Option ℕ
  pub score_ceiling : Option ℕ
  pub due_date : Option String
  pub created_at : Option String

pub record Ranked : Type 0 where
  pub item : Item
  pub priority_rank : ℕ
  pub priority_class : ℕ

-- EXCLUDED
abbrev pub excluded : List String
excluded = "COMPLETED" ∷ "CANCELED" ∷ "DISMISSED" ∷ "SNOOZED" ∷ "DUPLICATE" ∷ "INVALID" ∷ []

unfoldable pub priority_class : Bool → Option String → ℕ
priority_class confirmed_block disposition =
    if confirmed_block
    then 0
    else if disposition == some "ESCALATE_NOW"
    then 1
    else if disposition == some "VALIDATE_IMMEDIATELY"
    then 2
    else 3

abbrev pub class_of : Item → ℕ
class_of x = priority_class x.confirmed_block x.disposition

-- 0 if score is not None else 1
abbrev pub unscored : Item → ℕ
unscored x = elim x.score [ none ↦ 1 | some s ↦ 0 ]

-- The score, or its ceiling, or 100, which is `hundred` units; a larger one stands first.
abbrev pub merit : ℕ → Item → ℕ
merit hundred x = elim x.score [
  | some s ↦ s
  | none ↦ elim x.score_ceiling [ some c ↦ c | none ↦ hundred ]
]

abbrev pub by_then : (less same rest : Bool) → Bool
by_then less same rest = if less then true else if same then rest else false

-- Lexicographic order of `action_sort_key`.
unfoldable pub key_le : ℕ → Item → Item → Bool
key_le hundred x y = by_then (ltb (class_of x) (class_of y)) (class_of x == class_of y) (
    by_then (ltb (unscored x) (unscored y)) (unscored x == unscored y) (
      by_then (ltb (merit hundred y) (merit hundred x)) (merit hundred x == merit hundred y) (
        let due = λ (i : Item). or_default i.due_date "9999-12-31" in
        let made = λ (i : Item). or_default i.created_at "9999-12-31" in
        if due x == due y
        then if made x == made y then text_le x.id y.id else text_le (made x) (made y)
        else text_le (due x) (due y))))

abbrev pub excluded_status : Option String → Bool
excluded_status none = false
excluded_status (some s) = elem s excluded

unfoldable pub eligible : Item → Bool
eligible x = not (excluded_status x.status) && x.valid

-- item.get('deduplication_key', item['id'])
abbrev pub identity : Item → Option String
identity x = elim x.deduplication_key [ none ↦ some x.id | some k ↦ k ]

-- The loop over the sorted items, with the number of results so far and the identities seen.
unfoldable pub chosen : ℕ → List (Option String) → List Item → List Ranked
chosen n seen [] = []
chosen n seen (x ∷ xs) =
    let skipped = chosen n seen xs in
    let taken = chosen (n + 1) (identity x ∷ seen) xs in
    if elem (identity x) seen
    then skipped
    else record { item = x; priority_rank = n + 1; priority_class = class_of x } ∷ taken

unfoldable pub rank_actions : ℕ → List Item → List Ranked
rank_actions hundred xs = chosen 0 [] (sorted (key_le hundred) (select eligible xs))
