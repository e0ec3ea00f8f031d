-- ===== src/Scoring/Queue.antt =====
-- What the queue shows: every eligible identity, once, numbered from 1 on.
use btx_omni_prospect.Prelude.{
  ℕ, String, Bool, true, false, ◌&&◌, ◌+◌, List, [], ◌∷◌, ◌≡◌, refl, ◌∙◌, ◌==◌, string_eq,
  option_eq, elem, Option, any, any-select, select, arith, inl, inr, Bool-cases, beq_refl, ◌↔◌,
}
use btx_omni_prospect.Prelude.Sorting.{sorted, any-sorted}
use btx_omni_prospect.Scoring.ActionPriority.{
  Item, Ranked, key_le, eligible, identity, chosen, rank_actions,
}

abbrev pub shows : Option String → Ranked → Bool
shows k r = identity r.item == k

abbrev pub carries : Option String → Item → Bool
carries k x = identity x == k

-- No identity stands twice.
abbrev pub IsDistinct : List Ranked → Type 0
IsDistinct [] = Unit
IsDistinct (r ∷ rs) = (any (shows (identity r.item)) rs ≡ false) × IsDistinct rs

-- The ranks go up by one, after n.
abbrev pub IsNumbered : ℕ → List Ranked → Type 0
IsNumbered n [] = Unit
IsNumbered n (r ∷ rs) = (r.priority_rank ≡ n + 1) × IsNumbered (n + 1) rs

identity_eq : (x : Item) (k : Option String) → ((identity x == k) ≡ true) ↔ (identity x ≡ k)
identity_eq x k = option_eq.same_iff (identity x) k

seen_absent :
    (n : ℕ) (seen : List (Option String)) (xs : List Item) (k : Option String)
    → elem k seen ≡ true
    → any (shows k) (chosen n seen xs) ≡ false
unfolding chosen
seen_absent n seen [] k h = refl
seen_absent n seen (x ∷ xs) k h = elim (Bool-cases (elem (identity x) seen)) [
  | inl y ↦ ground (arith, seen_absent n seen xs k h)
  | inr m ↦ ground (arith, seen_absent (n + 1) (identity x ∷ seen) xs k, identity_eq x k)
]

unseen_shown :
    (n : ℕ) (seen : List (Option String)) (xs : List Item) (k : Option String)
    → elem k seen ≡ false
    → any (shows k) (chosen n seen xs) ≡ any (carries k) xs
unfolding chosen
unseen_shown n seen [] k h = refl
unseen_shown n seen (x ∷ xs) k h = elim (Bool-cases (elem (identity x) seen)) [
  | inl y ↦ ground (arith, unseen_shown n seen xs k h, identity_eq x k)
  | inr m ↦ ground (arith, unseen_shown (n + 1) (identity x ∷ seen) xs k, identity_eq x k)
]

chosen-IsDistinct :
    (n : ℕ) (seen : List (Option String)) (xs : List Item) → IsDistinct (chosen n seen xs)
unfolding chosen
chosen-IsDistinct n seen [] = tt
chosen-IsDistinct n seen (x ∷ xs) = ground (
  arith,
  chosen-IsDistinct n seen xs,
  chosen-IsDistinct (n + 1) (identity x ∷ seen) xs,
  seen_absent (n + 1) (identity x ∷ seen) xs (identity x),
  beq_refl (identity x),
)

chosen-IsNumbered :
    (n : ℕ) (seen : List (Option String)) (xs : List Item) → IsNumbered n (chosen n seen xs)
unfolding chosen
chosen-IsNumbered n seen [] = tt
chosen-IsNumbered n seen (x ∷ xs) =
    ground (arith, chosen-IsNumbered n seen xs, chosen-IsNumbered (n + 1) (identity x ∷ seen) xs)

-- The queue shows an identity exactly when an eligible item carries it, shows no identity twice, and
-- is ranked 1, 2, 3 and so on.
pub rank_actions_lem :
    (hundred : ℕ) (xs : List Item)
    → ((k : Option String)
        → any (shows k) (rank_actions hundred xs) ≡ any (λ x. eligible x && carries k x) xs)
      × IsDistinct (rank_actions hundred xs)
      × IsNumbered 0 (rank_actions hundred xs)
unfolding rank_actions
rank_actions_lem hundred xs =
    let ys = sorted (key_le hundred) (select eligible xs) in
    (
      λ k.
          unseen_shown 0 [] ys k refl
          ∙ any-sorted (key_le hundred) (carries k) (select eligible xs)
          ∙ any-select (carries k) eligible xs,
      chosen-IsDistinct 0 [] ys,
      chosen-IsNumbered 0 [] ys,
    )
