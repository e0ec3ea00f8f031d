-- ===== src/Work/Gates/Restoring.antt =====
-- Canceling active work and restoring it brings it back as it was.
use btx_omni_prospect.Prelude.{
  ◌+◌, String, true, false, none, some, [], ◌≡◌, ◌∙◌, ap, subst, DateTime, arith, string_eq,
  if◌then◌else◌,
}
use btx_omni_prospect.Prelude.Result.{ok}
use btx_omni_prospect.Work.Domain.{
  ActionStatus, canceled, Action, Principal, allowed_transitions, status_eq,
}
use btx_omni_prospect.Work.Repository.{Repository, get}
use btx_omni_prospect.Work.Policy.{may_manage}
use btx_omni_prospect.Work.Transition.{moved, completed_children, transition}
use btx_omni_prospect.Work.Approval.{is_closed}
use btx_omni_prospect.Work.Validity.{IsValid, stored, get-stored}
use btx_omni_prospect.Work.Validity.Plans.{transition_plan-Sound}
use btx_omni_prospect.Work.Validity.Steps.{OneStep-IsValid, mutate-OneStep}
use btx_omni_prospect.Work.Validity.Completion.{complete_child-nil}
use btx_omni_prospect.Work.Gates.{MayMove, transition_iff}

completed_children-false :
    (a : Action) (status : ActionStatus) → completed_children a status false ≡ []
unfolding completed_children
completed_children-false a status = ground arith

-- The Action two versions later, updated at the time of the second move, neither completed nor
-- canceled, and with the status that it was canceled from as its previous status.
abbrev pub restored : Action → DateTime → Action
restored a u = record a {
  version = a.version + 1 + 1;
  updated_at = u;
  completed_at = none;
  canceled_at = none;
  previous_status = some a.status;
}

moved_back :
    (a : Action) (t u : DateTime)
    → is_closed a.status ≡ false
    → moved (moved a canceled t false) a.status u false ≡ restored a u
unfolding moved
moved_back a t u active = ground (
  arith,
  complete_child-nil a.subtasks,
  completed_children-false a canceled,
  completed_children-false (moved a canceled t false) a.status,
)

module _ (r : Repository) (v : IsValid r) (id : String) (a : Action) (found : get id r ≡ some a)
    (p : Principal) (t u : DateTime) (managed : may_manage p a ≡ true)
    (active : is_closed a.status ≡ false) (aware_t : t.aware ≡ true)
    (aware_u : u.aware ≡ true) where
  may_cancel : MayMove a canceled p t none false
  unfolding allowed_transitions
  may_cancel = ground arith

  may_restore : MayMove (moved a canceled t false) a.status p u none false
  unfolding allowed_transitions moved may_manage
  may_restore = ground arith

  still-IsValid : IsValid (transition id canceled p t none false r).1
  unfolding transition
  still-IsValid =
      OneStep-IsValid v (mutate-OneStep _ (transition_plan-Sound canceled p t none false) id r v)

  own : (moved a canceled t false).id ≡ id
  unfolding moved
  own = v.own_id id a found

  -- Whoever may manage an open or running Action can cancel it and then move it back to the status
  -- that it had. Its version has then grown by two, its time of update is that of the second move,
  -- its previous status is the one that it was canceled from, and it has no time of completion or of
  -- cancelation; its other fields, the status among them, are as they were.
  pub cancel_restore :
      (transition id a.status p u none false (transition id canceled p t none false r).1).0
      ≡ ok (restored a u)
  cancel_restore =
      let (e, about, gone) = (transition_iff r v id a found canceled p t none false).0 may_cancel in
      let b = moved a canceled t false in
      let r' = stored r b e in
      let v' = subst (λ q. IsValid q.1) gone still-IsValid in
      let found' : get id r' ≡ some b =
        get-stored r b e id
        ∙ ap (λ x. if x then some b else get id r) ((string_eq.same_iff b.id id).1 own) in
      let (_, _, back) = (transition_iff r' v' id b found' a.status p u none false).0 may_restore in
      ap (λ q. (transition id a.status p u none false q.1).0) gone
      ∙ ap (λ q. q.0) back
      ∙ ap (λ x. ok x) (moved_back a t u active)
