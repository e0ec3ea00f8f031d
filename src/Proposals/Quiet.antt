-- ===== src/Proposals/Quiet.antt =====
-- The requests of the Action workflow write no CRM event.
use btx_omni_prospect.Prelude.{
  ℕ, String, Bool, false, Option, none, some, List, [], ◌∷◌, ◌≡◌, refl, subst, DateTime, arith, inl,
  inr, Option-cases, Bool-cases,
}
use btx_omni_prospect.Prelude.Result.{Result, ok, err, Result-cases}
use btx_omni_prospect.Work.Domain.{
  ActionStatus, ApprovalStatus, Subtask, Action, Principal, WorkError,
}
use btx_omni_prospect.Work.Repository.{
  Repository, ActionAuditEvent, FieldChange, get, history, save, stale_save, make_event,
}
use btx_omni_prospect.Work.Policy.{Runtime, require_manager}
use btx_omni_prospect.Work.Mutation.{keep, change, Plan, mutate}
use btx_omni_prospect.Work.Create.{
  CreateArgs, create, create_keyed, store_new, creation_plan, suggested, require_owner, after_save,
  found_existing,
}
use btx_omni_prospect.Work.Edit.{Changes, edit, edit_plan, save_edit, permitted}
use btx_omni_prospect.Work.Transition.{transition, transition_plan}
use btx_omni_prospect.Work.Approval.{decide_approval, decision_plan, request_approval, request_plan}
use btx_omni_prospect.Work.Subtasks.{
  SubtaskChanges, change_subtask, subtask_plan, new_subtask_plan, save_child, find_child,
}
use btx_omni_prospect.Work.Commands.{
  Command, creates, edits, moves, decides, requests, changes_subtask, execute,
}
use btx_omni_prospect.Work.Validity.{stored}
use btx_omni_prospect.Work.Validity.Plans.{edit_plan-eq-ok}
use btx_omni_prospect.Proposals.Log.{is_crm}

-- Nothing is stored, or an Action with one event that is not of the CRM.
pub data IsQuiet (r : Repository) (s : Repository) : Type 0 where
  unchanged : s ≡ r → IsQuiet r s
  stores :
      (u : Action) (e : ActionAuditEvent) → s ≡ stored r u e → is_crm e.event ≡ false → IsQuiet r s

abbrev QuietPlan : Plan → Type 0
QuietPlan plan =
    (a : Action) (h : List ActionAuditEvent) (u : Action) (e : ActionAuditEvent)
    → plan a h ≡ ok (change u e)
    → is_crm e.event ≡ false

save_edit-quiet :
    (p : Principal) (now : DateTime) (expected : Option ℕ) (c : Changes) (a : Action)
    (fields : List FieldChange) (u : Action) (e : ActionAuditEvent)
    → save_edit p now expected c a fields ≡ ok (change u e)
    → is_crm e.event ≡ false
unfolding save_edit make_event
save_edit-quiet p now expected c a [] u e h = cc
save_edit-quiet p now expected c a (first ∷ rest) u e h = ground arith

edit_plan-QuietPlan :
    (p : Principal) (now : DateTime) (expected : Option ℕ) (c : Changes)
    → QuietPlan (edit_plan p now expected c)
edit_plan-QuietPlan p now expected c a h u e q =
    save_edit-quiet p now expected c a (permitted a c) u e
      (edit_plan-eq-ok p now expected c a h (change u e) q)

transition_plan-QuietPlan :
    (status : ActionStatus) (p : Principal) (now : DateTime) (expected : Option ℕ) (all : Bool)
    → QuietPlan (transition_plan status p now expected all)
unfolding transition_plan make_event
transition_plan-QuietPlan status p now expected all a h u e q = ground arith

decision_plan-QuietPlan :
    (decision : ApprovalStatus) (p : Principal) (now : DateTime) (expected : Option ℕ)
    (comment : Option String)
    → QuietPlan (decision_plan decision p now expected comment)
unfolding decision_plan make_event
decision_plan-QuietPlan decision p now expected comment a h u e q = ground arith

request_plan-QuietPlan :
    (p : Principal) (now : DateTime) (expected : ℕ) → QuietPlan (request_plan p now expected)
unfolding request_plan make_event
request_plan-QuietPlan p now expected a h u e q = ground arith

new_subtask_plan-quiet :
    (rt : Runtime) (id : Option String) (p : Principal) (now : DateTime) (expected : ℕ)
    (key : String) (c : SubtaskChanges) (a : Action) (original : Option Subtask) (u : Action)
    (e : ActionAuditEvent)
    → new_subtask_plan rt id p now expected key c a original ≡ ok (change u e)
    → is_crm e.event ≡ false
unfolding new_subtask_plan save_child make_event
new_subtask_plan-quiet rt id p now expected key c a original u e h = ground arith

subtask_plan-QuietPlan :
    (rt : Runtime) (id : Option String) (p : Principal) (now : DateTime) (expected : ℕ)
    (key : String) (c : SubtaskChanges)
    → QuietPlan (subtask_plan rt id p now expected key c)
unfolding subtask_plan
subtask_plan-QuietPlan rt id p now expected key c a h u e q =
    ground
      (arith, new_subtask_plan-quiet rt id p now expected key c a (find_child id a.subtasks) u e)

save-IsQuiet :
    (u : Action) (e : ActionAuditEvent) (expected : Option ℕ) (r : Repository)
    → is_crm e.event ≡ false
    → IsQuiet r (save u e expected r).1
unfolding save
save-IsQuiet u e expected r q = elim (Bool-cases (stale_save (get u.id r) expected)) [
  | inl y ↦ unchanged (ground arith)
  | inr n ↦ stores u e (ground arith) q
]

mutate-IsQuiet :
    (plan : Plan) (id : String) (r : Repository) → QuietPlan plan → IsQuiet r (mutate id plan r).1
unfolding mutate
mutate-IsQuiet plan id r quiet = elim (Option-cases (get id r)) [
  | inl absent ↦ unchanged (ground arith)
  | inr (a, found) ↦ elim (Result-cases (plan a (history id r))) [
    | inl (e, failed) ↦ unchanged (ground arith)
    | inr (keep, planned) ↦ unchanged (ground arith)
    | inr (change u e, planned) ↦
        subst (IsQuiet r) (ground arith)
          (save-IsQuiet u e (some a.version) r (quiet a (history id r) u e planned))
  ]
]

decide-IsQuiet :
    (id : String) (decision : ApprovalStatus) (p : Principal) (now : DateTime) (expected : Option ℕ)
    (comment : Option String) (r : Repository)
    → IsQuiet r (decide_approval id decision p now expected comment r).1
unfolding decide_approval
decide-IsQuiet id decision p now expected comment r = elim (Result-cases (require_manager p)) [
  | inl (e, refused) ↦ unchanged (ground arith)
  | inr (_, allowed) ↦ subst (IsQuiet r) (ground arith) (
      mutate-IsQuiet (decision_plan decision p now expected comment) id r
        (decision_plan-QuietPlan decision p now expected comment))
]

after_save-state :
    (rt : Runtime) (c : CreateArgs) (m : Result WorkError Action × Repository)
    → (after_save rt c m).1 ≡ m.1
after_save-state rt c (err e, r) = refl
after_save-state rt c (ok a, r) = ground arith

creation_plan-quiet :
    (rt : Runtime) (c : CreateArgs) (u : Action) (e : ActionAuditEvent)
    → creation_plan rt c ≡ ok (u, e)
    → is_crm e.event ≡ false
unfolding creation_plan make_event
creation_plan-quiet rt c u e h = ground arith

create-IsQuiet : (rt : Runtime) (c : CreateArgs) (r : Repository) → IsQuiet r (create rt c r).1
unfolding create create_keyed store_new
create-IsQuiet rt c r = elim (Result-cases (require_owner rt c)) [
  | inl (e, refused) ↦ unchanged (ground arith)
  | inr (_, allowed) ↦ elim (Option-cases (suggested c r)) [
    | inr (a, found) ↦ unchanged (ground arith)
    | inl absent ↦ elim (Option-cases (found_existing rt c r)) [
      | inr (a, found) ↦ unchanged (ground arith)
      | inl fresh ↦ elim (Result-cases (creation_plan rt c)) [
        | inl (e, failed) ↦ unchanged (ground arith)
        | inr ((u, e), planned) ↦
            subst (IsQuiet r) (ground (arith, after_save-state rt c (save u e none r)))
              (save-IsQuiet u e none r (creation_plan-quiet rt c u e planned))
      ]
    ]
  ]
]

pub execute-IsQuiet : (rt : Runtime) (c : Command) (r : Repository) → IsQuiet r (execute rt c r).1
unfolding execute edit transition request_approval change_subtask
execute-IsQuiet rt (creates c) r = create-IsQuiet rt c r
execute-IsQuiet rt (edits id p now expected c) r =
    mutate-IsQuiet (edit_plan p now expected c) id r (edit_plan-QuietPlan p now expected c)
execute-IsQuiet rt (moves id status p now expected all) r =
    mutate-IsQuiet _ id r (transition_plan-QuietPlan status p now expected all)
execute-IsQuiet rt (decides id decision p now expected comment) r =
    decide-IsQuiet id decision p now expected comment r
execute-IsQuiet rt (requests id p now expected) r =
    mutate-IsQuiet _ id r (request_plan-QuietPlan p now expected)
execute-IsQuiet rt (changes_subtask id child p now expected key c) r =
    mutate-IsQuiet _ id r (subtask_plan-QuietPlan rt child p now expected key c)
