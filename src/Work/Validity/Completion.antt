-- ===== src/Work/Validity/Completion.antt =====
-- Completing an Action closes its subtasks, and only active work is canceled.
use btx_omni_prospect.Prelude.{
  String, Bool, true, false, not, ◌&&◌, Option, List, [], ◌∷◌, ◌≡◌, refl, map, any, select, elem,
  string_eq, arith, Bool-cases, inl, inr, All, beq_refl, subst, some,
}
use btx_omni_prospect.Work.Domain.{ActionStatus, Subtask, Action, allowed_transitions, status_eq}
use btx_omni_prospect.Work.Transition.{
  is_completed, is_canceled, is_open_subtask, child_ids, completed_children, complete_child,
}
use btx_omni_prospect.Work.Validity.Sound.{restorable}

pub allowed_active :
    (before after : ActionStatus) (previous : Option ActionStatus)
    → restorable previous ≡ true
    → elem after (allowed_transitions before previous) ≡ true
    → is_canceled after ≡ true
    → restorable (some before) ≡ true
unfolding allowed_transitions
allowed_active before after previous r h c = ground arith

-- Every open subtask is named.
abbrev IsCovered : List String → List Subtask → Type 0
IsCovered ids xs = All (λ c. is_open_subtask c ≡ true → elem c.id ids ≡ true) xs

IsCovered-cons :
    (id : String) (ids : List String) (xs : List Subtask)
    → IsCovered ids xs
    → IsCovered (id ∷ ids) xs
IsCovered-cons id ids [] h = tt
IsCovered-cons id ids (x ∷ xs) h = (λ o. ground (arith, h.0 o), IsCovered-cons id ids xs h.1)

IsCovered-child_ids : (xs : List Subtask) → IsCovered (child_ids (select is_open_subtask xs)) xs
IsCovered-child_ids [] = tt
IsCovered-child_ids (x ∷ xs) =
    let ids = child_ids (select is_open_subtask xs) in
    elim (Bool-cases (is_open_subtask x)) [
      | inl o ↦
          let named : x.id ∷ ids ≡ child_ids (select is_open_subtask (x ∷ xs)) = rw o in
          subst (λ l. IsCovered l (x ∷ xs)) named
            (
              λ _. ground (arith, beq_refl x.id),
              IsCovered-cons x.id ids xs (IsCovered-child_ids xs),
            )
      | inr o ↦
          let skipped : ids ≡ child_ids (select is_open_subtask (x ∷ xs)) = rw o in
          subst (λ l. IsCovered l (x ∷ xs)) skipped (λ o'. cc, IsCovered-child_ids xs)
    ]

any-complete_child :
    (ids : List String) (xs : List Subtask)
    → IsCovered ids xs
    → any is_open_subtask (map (complete_child ids) xs) ≡ false
unfolding complete_child
any-complete_child ids [] h = refl
any-complete_child ids (x ∷ xs) h = ground (arith, h.0, any-complete_child ids xs h.1)

pub complete_child-nil : (xs : List Subtask) → map (complete_child []) xs ≡ xs
unfolding complete_child
complete_child-nil [] = refl
complete_child-nil (x ∷ xs) = cc (complete_child-nil xs)

pub moved_closed :
    (a : Action) (status : ActionStatus) (complete_open : Bool)
    → is_completed status ≡ true
    → (any is_open_subtask a.subtasks && not complete_open) ≡ false
    → any is_open_subtask
        (map (complete_child (completed_children a status complete_open)) a.subtasks)
      ≡ false
unfolding completed_children
moved_closed a status true c g = rw c (
    any-complete_child (child_ids (select is_open_subtask a.subtasks)) a.subtasks
      (IsCovered-child_ids a.subtasks))
moved_closed a status false c g = rw (c, complete_child-nil a.subtasks) (ground arith)
