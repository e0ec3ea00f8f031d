-- ===== src/Scoring/Order.antt =====
-- In which order the queue shows them.
use btx_omni_prospect.Prelude.{
  ℕ, String, Bool, true, false, ◌+◌, List, [], ◌∷◌, ◌≡◌, ◌==◌, nat_eq, string_eq, option_eq, elem,
  All, ltb, leb, arith, inl, inr, Bool-cases, select, Option, none, some, ◌&&◌, ◌||◌, not,
  Option-cases, if◌then◌else◌,
}
use btx_omni_prospect.Prelude.Sorting.{sorted, Ordered, sorted-Ordered}
use btx_omni_prospect.Scoring.ActionPriority.{
  Item, Ranked, priority_class, class_of, unscored, merit, by_then, key_le, eligible, identity,
  chosen, rank_actions,
}

-- A lower class leads; within a class an item with a score; and then a higher score or ceiling.
abbrev pub leads : ℕ → Item → Item → Bool
leads hundred x y = by_then (ltb (class_of x) (class_of y)) (class_of x == class_of y) (
    by_then (ltb (unscored x) (unscored y)) (unscored x == unscored y)
      (leb (merit hundred y) (merit hundred x)))

-- What is queued is led by what stands before it, in the terms of the keys.
abbrev IsChosen : ℕ → List Ranked → Type 0
IsChosen hundred [] = Unit
IsChosen hundred (r ∷ rs) = All (λ s. leads hundred r.item s.item ≡ true) rs × IsChosen hundred rs

abbrev pub escalates : Item → Bool
escalates x = x.disposition == some "ESCALATE_NOW"

abbrev pub validates : Item → Bool
validates x = x.disposition == some "VALIDATE_IMMEDIATELY"

abbrev pub alike : Bool → Bool → Bool
alike true b = b
alike false b = not b

-- Two items that both have a confirmed block, or have none and the same urgent disposition, if any.
abbrev pub same_tier : Item → Item → Bool
same_tier x y =
    if x.confirmed_block || y.confirmed_block
    then x.confirmed_block && y.confirmed_block
    else alike (escalates x) (escalates y) && alike (validates x) (validates y)

abbrev pub ceiling : ℕ → Item → ℕ
ceiling hundred x = elim x.score_ceiling [ some c ↦ c | none ↦ hundred ]

-- The item x may stand before y.
pub record Precedes (hundred : ℕ) (x y : Item) : Type 0 where
  pub block : y.confirmed_block ≡ true → x.confirmed_block ≡ true
  pub escalation : x.confirmed_block ≡ false → escalates y ≡ true → escalates x ≡ true
  pub validation :
      x.confirmed_block ≡ false → escalates x ≡ false → validates y ≡ true → validates x ≡ true
  pub scored :
      same_tier x y ≡ true
      → (t : ℕ) → y.score ≡ some t
      → (s : ℕ) × (x.score ≡ some s) × (leb t s ≡ true)
  pub unscored :
      same_tier x y ≡ true → x.score ≡ none → leb (ceiling hundred y) (ceiling hundred x) ≡ true

abbrev pub IsQueued : ℕ → List Ranked → Type 0
IsQueued hundred [] = Unit
IsQueued hundred (r ∷ rs) = All (λ s. Precedes hundred r.item s.item) rs × IsQueued hundred rs

module _ (hundred : ℕ) where
  key_le-leads : (x y : Item) → key_le hundred x y ≡ true → leads hundred x y ≡ true
  unfolding key_le
  key_le-leads x y h = ground arith

  leads_back : (x y : Item) → key_le hundred x y ≡ false → leads hundred y x ≡ true
  unfolding key_le
  leads_back x y h = ground arith

  leads_trans :
      (x y z : Item)
      → leads hundred x y ≡ true
      → leads hundred y z ≡ true
      → leads hundred x z ≡ true
  leads_trans x y z h k = ground arith

  sorted-leads :
      (xs : List Item) → Ordered (λ x y. leads hundred x y ≡ true) (sorted (key_le hundred) xs)
  sorted-leads =
      sorted-Ordered (key_le hundred) (λ x y. leads hundred x y ≡ true) key_le-leads leads_back
        leads_trans

  All-chosen :
      (x : Item) (n : ℕ) (seen : List (Option String)) (ys : List Item)
      → All (λ y. leads hundred x y ≡ true) ys
      → All (λ s. leads hundred x s.item ≡ true) (chosen n seen ys)
  unfolding chosen
  All-chosen x n seen [] h = tt
  All-chosen x n seen (y ∷ ys) h = elim (Bool-cases (elem (identity y) seen)) [
    | inl e ↦ rw e (All-chosen x n seen ys h.1)
    | inr e ↦ rw e (h.0, All-chosen x (n + 1) (identity y ∷ seen) ys h.1)
  ]

  leads-Precedes : (x y : Item) → leads hundred x y ≡ true → Precedes hundred x y
  unfolding priority_class
  leads-Precedes x y h = record {
    block = λ b. ground arith;
    escalation = λ b e. ground arith;
    validation = λ b e v. ground arith;
    scored = λ same t q. elim (Option-cases x.score) [
      | inl g ↦ (0, ground arith, ground arith)
      | inr (s, g) ↦ (s, g, ground arith)
    ];
    unscored =
        λ same q. elim (Option-cases y.score) [ inl g ↦ ground arith | inr (t, g) ↦ ground arith ];
  }

  All-Precedes :
      (x : Item) (rs : List Ranked)
      → All (λ s. leads hundred x s.item ≡ true) rs
      → All (λ s. Precedes hundred x s.item) rs
  All-Precedes x [] h = tt
  All-Precedes x (r ∷ rs) h = (leads-Precedes x r.item h.0, All-Precedes x rs h.1)

  IsChosen-IsQueued : (rs : List Ranked) → IsChosen hundred rs → IsQueued hundred rs
  IsChosen-IsQueued [] h = tt
  IsChosen-IsQueued (r ∷ rs) h = (All-Precedes r.item rs h.0, IsChosen-IsQueued rs h.1)

  chosen-IsChosen :
      (n : ℕ) (seen : List (Option String)) (ys : List Item)
      → Ordered (λ x y. leads hundred x y ≡ true) ys
      → IsChosen hundred (chosen n seen ys)
  unfolding chosen
  chosen-IsChosen n seen [] h = tt
  chosen-IsChosen n seen (y ∷ ys) h = elim (Bool-cases (elem (identity y) seen)) [
    | inl e ↦ rw e (chosen-IsChosen n seen ys h.1)
    | inr e ↦
        let later = identity y ∷ seen in
        rw e (All-chosen y (n + 1) later ys h.0, chosen-IsChosen (n + 1) later ys h.1)
  ]

-- Of any two items that the queue shows, the first may stand before the second: it has a confirmed
-- block if the second has; without one, it is to be escalated if the second is; with neither, it is
-- to be validated if the second is. Of two in the same of these tiers, if the second has a score the
-- first has one that is not lower; if the first has none, its ceiling (100 by default) is not lower.
pub rank_actions-IsQueued :
    (hundred : ℕ) (xs : List Item) → IsQueued hundred (rank_actions hundred xs)
unfolding rank_actions
rank_actions-IsQueued hundred xs = IsChosen-IsQueued hundred (rank_actions hundred xs) (
    chosen-IsChosen hundred 0 [] (sorted (key_le hundred) (select eligible xs))
      (sorted-leads hundred (select eligible xs)))
