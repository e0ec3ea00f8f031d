-- ===== src/Work/Validity/Plans.antt =====
-- Every planned change of a sound Action is the next sound version of that Action.
use btx_omni_prospect.Prelude.{
  ℕ, ◌+◌, ◌≤◌, String, Bool, true, false, Option, List, [], ◌∷◌, ◌≡◌, strip, is_empty, string_eq,
  DateTime, arith, inl, inr,
}
use btx_omni_prospect.Prelude.Result.{ok, Result-cases}
use btx_omni_prospect.Work.Domain.{
  ActionStatus, ApprovalStatus, Subtask, Action, Principal, make_action,
}
use btx_omni_prospect.Work.Repository.{ActionAuditEvent, FieldChange, make_event}
use btx_omni_prospect.Work.Policy.{Runtime}
use btx_omni_prospect.Work.Mutation.{Outcome, change, Plan}
use btx_omni_prospect.Work.Transition.{moved, transition_plan}
use btx_omni_prospect.Work.Approval.{decided, decision_plan, with_request, request_plan, is_closed}
use btx_omni_prospect.Work.Edit.{Changes, permitted, edited_action, save_edit, edit_plan}
use btx_omni_prospect.Work.Subtasks.{
  SubtaskChanges, subtask_fingerprint, save_child, find_child, changed_child, placed, with_subtasks,
  new_subtask_plan, subtask_plan,
}
use btx_omni_prospect.Work.Validity.Sound.{IsSound}
use btx_omni_prospect.Work.Validity.Completion.{allowed_active, moved_closed}

pub record IsStep (a u : Action) (e : ActionAuditEvent) : Type 0 where
  pub about : e.action_id ≡ a.id
  pub same_id : u.id ≡ a.id
  pub next : u.version ≡ a.version + 1
  pub is_sound : IsSound u

abbrev pub PlanSound : Plan → Type 0
PlanSound plan =
    (a : Action) (history : List ActionAuditEvent) (u : Action) (e : ActionAuditEvent)
    → IsSound a
    → plan a history ≡ ok (change u e)
    → IsStep a u e

pub make_action-eq-ok :
    (a b : Action)
    → make_action a ≡ ok b
    → (a ≡ b) × (is_empty (strip a.title) ≡ false) × (1 ≤ a.version) × (a.created_at.aware ≡ true)
unfolding make_action
make_action-eq-ok a b h = ground arith

pub transition_plan-Sound :
    (status : ActionStatus) (p : Principal) (now : DateTime) (expected : Option ℕ) (all : Bool)
    → PlanSound (transition_plan status p now expected all)
unfolding transition_plan moved make_event
transition_plan-Sound status p now expected all a history u e s h = ground (
  arith,
  make_action-eq-ok (moved a status now all) u,
  allowed_active a.status status a.previous_status,
  moved_closed a status all,
)

pub decision_plan-Sound :
    (decision : ApprovalStatus) (p : Principal) (now : DateTime) (expected : Option ℕ)
    (comment : Option String)
    → PlanSound (decision_plan decision p now expected comment)
unfolding decision_plan decided make_event
decision_plan-Sound decision p now expected comment a history u e s h =
    ground (arith, make_action-eq-ok (decided a decision now comment) u)

pub request_plan-Sound :
    (p : Principal) (now : DateTime) (expected : ℕ) → PlanSound (request_plan p now expected)
unfolding request_plan with_request make_event
request_plan-Sound p now expected a history u e s h =
    ground (arith, make_action-eq-ok (with_request a p now) u)

save_edit-Sound :
    (p : Principal) (now : DateTime) (expected : Option ℕ) (c : Changes) (a : Action)
    (fields : List FieldChange) (u : Action) (e : ActionAuditEvent)
    → IsSound a
    → save_edit p now expected c a fields ≡ ok (change u e)
    → IsStep a u e
unfolding save_edit edited_action make_event
save_edit-Sound p now expected c a [] u e s h = cc
save_edit-Sound p now expected c a (first ∷ rest) u e s h =
    ground (arith, make_action-eq-ok (edited_action a c now) u)

pub edit_plan-eq-ok :
    (p : Principal) (now : DateTime) (expected : Option ℕ) (c : Changes) (a : Action)
    (history : List ActionAuditEvent) (o : Outcome)
    → edit_plan p now expected c a history ≡ ok o
    → save_edit p now expected c a (permitted a c) ≡ ok o
unfolding edit_plan
edit_plan-eq-ok p now expected c a history o h = ground arith

pub edit_plan-Sound :
    (p : Principal) (now : DateTime) (expected : Option ℕ) (c : Changes)
    → PlanSound (edit_plan p now expected c)
edit_plan-Sound p now expected c a history u e s h =
    save_edit-Sound p now expected c a (permitted a c) u e s
      (edit_plan-eq-ok p now expected c a history (change u e) h)

save_child-Sound :
    (p : Principal) (now : DateTime) (key fingerprint : String) (a : Action)
    (original : Option Subtask) (child : Subtask) (u : Action) (e : ActionAuditEvent)
    → IsSound a
    → is_closed a.status ≡ false
    → save_child p now key fingerprint a original child ≡ ok (change u e)
    → IsStep a u e
unfolding save_child with_subtasks make_event
save_child-Sound p now key fingerprint a original child u e s active h =
    ground (arith, make_action-eq-ok (with_subtasks a (placed original child a.subtasks) now) u)

pub new_subtask_plan-eq-ok :
    (rt : Runtime) (id : Option String) (p : Principal) (now : DateTime) (expected : ℕ)
    (key : String) (c : SubtaskChanges) (a : Action) (original : Option Subtask) (o : Outcome)
    → new_subtask_plan rt id p now expected key c a original ≡ ok o
    → (is_closed a.status ≡ false)
      × (child : Subtask) × (save_child p now key (subtask_fingerprint rt id c) a original child
          ≡ ok o)
unfolding new_subtask_plan
new_subtask_plan-eq-ok rt id p now expected key c a original o h =
    elim (Result-cases (changed_child rt a.id p key original c)) [
      | inl (e, failed) ↦ absurd (ground arith)
      | inr (child, made) ↦ (ground arith, child, ground arith)
    ]

pub subtask_plan-Sound :
    (rt : Runtime) (id : Option String) (p : Principal) (now : DateTime) (expected : ℕ)
    (key : String) (c : SubtaskChanges)
    → PlanSound (subtask_plan rt id p now expected key c)
unfolding subtask_plan
subtask_plan-Sound rt id p now expected key c a history u e s h =
    let original = find_child id a.subtasks in
    let planned : new_subtask_plan rt id p now expected key c a original ≡ ok (change u e) =
      ground arith in
    let (active, child, saved) =
      new_subtask_plan-eq-ok rt id p now expected key c a original (change u e) planned in
    save_child-Sound p now key (subtask_fingerprint rt id c) a original child u e s active saved
