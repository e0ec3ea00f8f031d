-- ===== src/Work/Transition.antt =====
-- `WorkService.transition`.
use btx_omni_prospect.Prelude.{
  ℕ, String, Bool, true, false, not, ◌&&◌, Option, none, some, List, [], ◌+◌, map, any, select,
  elem, string_eq, DateTime, if◌then◌else◌,
}
use btx_omni_prospect.Prelude.Result.{Result, ok, raise_if, ◌>>=◌, ◌>>◌}
use btx_omni_prospect.Prelude.Exec.{Exec}
use btx_omni_prospect.Work.Domain.{
  ActionStatus, completed, canceled, ApprovalStatus, not_required, approved, Subtask, Action,
  Principal, WorkError, cannot_transition, approval_required, open_subtasks_remain,
  allowed_transitions, make_action, status_eq,
}
use btx_omni_prospect.Work.Repository.{
  Repository, ActionAuditEvent, status_changed, transition as transition_metadata, make_event,
}
use btx_omni_prospect.Work.Policy.{require_manage, require_version}
use btx_omni_prospect.Work.Mutation.{Outcome, change, mutate}

-- `status is ActionStatus.COMPLETED`, `status is ActionStatus.CANCELED`
abbrev pub is_completed : ActionStatus → Bool
is_completed completed = true
is_completed _ = false

abbrev pub is_canceled : ActionStatus → Bool
is_canceled canceled = true
is_canceled _ = false

-- approval_status in {NOT_REQUIRED, APPROVED}
abbrev pub approval_cleared : ApprovalStatus → Bool
approval_cleared not_required = true
approval_cleared approved = true
approval_cleared _ = false

-- not child.done and not child.removed
abbrev pub is_open_subtask : Subtask → Bool
is_open_subtask child = not child.done && not child.removed

abbrev pub child_ids : List Subtask → List String
child_ids children = map (λ child. child.id) children

-- The identifiers of the subtasks that are completed with the Action.
unfoldable pub completed_children : Action → ActionStatus → Bool → List String
completed_children a status complete_open =
    if is_completed status && complete_open
    then child_ids (select is_open_subtask a.subtasks)
    else []

-- replace(child, done=True) if child.id in completed_children else child
unfoldable pub complete_child : List String → Subtask → Subtask
complete_child ids child = if elem child.id ids then record child { done = true } else child

unfoldable pub moved : Action → ActionStatus → DateTime → Bool → Action
moved a status now complete_open = record a {
  status = status;
  previous_status = if is_canceled status then some a.status else a.previous_status;
  subtasks = map (complete_child (completed_children a status complete_open)) a.subtasks;
  updated_at = now;
  completed_at = if is_completed status then some now else none;
  canceled_at = if is_canceled status then some now else none;
  version = a.version + 1;
}

unfoldable pub transition_plan :
    ActionStatus
    → Principal
    → DateTime
    → Option ℕ
    → Bool
    → Action
    → List ActionAuditEvent
    → Result WorkError Outcome
transition_plan status p now expected complete_open a history = do
  require_manage p a
  require_version a expected
  raise_if (not (elem status (allowed_transitions a.status a.previous_status))) cannot_transition
  raise_if (is_completed status && not (approval_cleared a.approval_status)) approval_required
  raise_if (is_completed status && (any is_open_subtask a.subtasks && not complete_open))
      open_subtasks_remain
  updated ← make_action (moved a status now complete_open)
  event ←
      make_event a.id p status_changed now
        (transition_metadata a.status status (completed_children a status complete_open))
  ok (change updated event)

unfoldable pub transition :
    String
    → ActionStatus
    → Principal
    → DateTime
    → Option ℕ
    → Bool
    → Exec Repository WorkError Action
transition id status p now expected complete_open =
    mutate id (transition_plan status p now expected complete_open)
