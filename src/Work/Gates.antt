-- ===== src/Work/Gates.antt =====
-- Exactly when an Action moves, and exactly when its approval is decided.
pub mod Decisions
pub mod Restoring
use btx_omni_prospect.Prelude.{
  ℕ, ◌+◌, String, Bool, true, false, not, ◌&&◌, Option, none, some, List, ◌≡◌, ◌≢◌, ◌↔◌, refl, sym,
  ◌∙◌, ap, DateTime, arith, any, elem, nat_eq, string_eq, ◌==◌, is_empty, strip, or_default, inl,
  inr,
}
use btx_omni_prospect.Prelude.Result.{Result, ok, err, Result-cases}
use btx_omni_prospect.Work.Domain.{
  ActionStatus, ApprovalStatus, Action, Principal, WorkError, allowed_transitions, status_eq,
  make_action, is_manager,
}
use btx_omni_prospect.Work.Repository.{
  Repository, ActionAuditEvent, get, history, make_event, status_changed,
  transition as transition_metadata,
}
use btx_omni_prospect.Work.Policy.{may_manage, require_manage, require_manager, require_version}
use btx_omni_prospect.Work.Mutation.{Outcome, change, mutate, perform, Plan}
use btx_omni_prospect.Work.Transition.{
  is_completed, approval_cleared, is_open_subtask, moved, completed_children, transition_plan,
  transition,
}
use btx_omni_prospect.Work.Approval.{
  is_closed, awaits_decision, is_decision, needs_comment, requester, decided, decision_plan,
  decide_approval,
}
use btx_omni_prospect.Work.Validity.{IsValid, stored}
use btx_omni_prospect.Work.Validity.Sound.{IsSound}
use btx_omni_prospect.Work.Validity.Steps.{save-eq-ok, mutate-eq-perform}

-- No version is expected, or the Action's own.
abbrev pub version_fits : Option ℕ → Action → Bool
version_fits none a = true
version_fits (some v) a = a.version == v

pub record MayMove (a : Action) (status : ActionStatus) (p : Principal) (now : DateTime)
    (expected : Option ℕ) (complete_open : Bool) : Type 0 where
  pub managed : may_manage p a ≡ true
  pub fits : version_fits expected a ≡ true
  pub allowed : elem status (allowed_transitions a.status a.previous_status) ≡ true
  pub cleared : is_completed status ≡ true → approval_cleared a.approval_status ≡ true
  pub closed :
      is_completed status ≡ true → complete_open ≡ false → any is_open_subtask a.subtasks ≡ false
  pub aware : now.aware ≡ true

module _ (status : ActionStatus) (p : Principal) (now : DateTime) (expected : Option ℕ)
    (complete_open : Bool) (a : Action) (h : List ActionAuditEvent) where
  plan_admits :
      (o : Outcome)
      → transition_plan status p now expected complete_open a h ≡ ok o
      → MayMove a status p now expected complete_open
  unfolding transition_plan require_manage require_version make_event
  plan_admits o q = ground arith

  admits_plan :
      IsSound a
      → MayMove a status p now expected complete_open
      → (e : ActionAuditEvent) × (e.action_id ≡ a.id)
        × (transition_plan status p now expected complete_open a h
            ≡ ok (change (moved a status now complete_open) e))
  unfolding transition_plan require_manage require_version make_event make_action moved
  admits_plan s m = (
    record {
      id = none;
      action_id = a.id;
      actor_id = p.user_id;
      event = status_changed;
      occurred_at = now;
      metadata = transition_metadata a.status status (completed_children a status complete_open);
    },
    refl,
    ground arith,
  )

module _ (r : Repository) (v : IsValid r) (id : String) (a : Action)
    (found : get id r ≡ some a) where
  same_found : (u : Action) → u.id ≡ a.id → get u.id r ≡ some a
  same_found u same = ap (λ k. get k r) (same ∙ v.own_id id a found) ∙ found

  pub perform-ok :
      (plan : Plan) (u : Action) (e : ActionAuditEvent)
      → u.id ≡ a.id
      → plan a (history id r) ≡ ok (change u e)
      → mutate id plan r ≡ (ok u, stored r u e)
  perform-ok plan u e same planned =
      mutate-eq-perform id plan r a found
      ∙ ap (λ o. perform a o r) planned
      ∙ save-eq-ok u a e r (same_found u same)

  pub planned_of_ok :
      (plan : Plan) (u : Action)
      → (mutate id plan r).0 ≡ ok u
      → (o : Outcome) × (plan a (history id r) ≡ ok o)
  unfolding mutate
  planned_of_ok plan u h = elim (Result-cases (plan a (history id r))) [
    | inl (e, failed) ↦ absurd (ground (arith, found))
    | inr planned ↦ planned
  ]

  -- A stored Action moves to a status exactly when the principal may manage it, no other version
  -- is expected, the table allows the move, the clock is aware and, for completion, approval is
  -- granted or not required and no subtask is open unless the call completes them. The move then
  -- returns and stores the Action with that status, at the next version, and one event about it.
  pub transition_iff :
      (status : ActionStatus) (p : Principal) (now : DateTime) (expected : Option ℕ)
      (complete_open : Bool)
      → MayMove a status p now expected complete_open ↔ (
          (e : ActionAuditEvent) × (e.action_id ≡ a.id)
          × (transition id status p now expected complete_open r ≡ (
            ok (moved a status now complete_open),
            stored r (moved a status now complete_open) e,
          )))
  unfolding transition
  transition_iff status p now expected complete_open =
      let plan = transition_plan status p now expected complete_open in
      let u = moved a status now complete_open in
      (
        λ m.
            let (e, about, planned) =
              admits_plan status p now expected complete_open a (history id r) (v.sound id a found)
                m in
            (e, about, perform-ok plan u e (moved-id status now complete_open) planned),
        λ (e, _, returned).
            let (o, planned) = planned_of_ok plan u (ap (λ q. q.0) returned) in
            plan_admits status p now expected complete_open a (history id r) o planned,
      )
    where
      moved-id : (s : ActionStatus) (t : DateTime) (b : Bool) → (moved a s t b).id ≡ a.id
      moved-id s t b = unfold moved in refl
