-- ===== src/Work/Approval.antt =====
-- `WorkService.decide_approval` and `WorkService.request_approval`.
use btx_omni_prospect.Prelude.{
  ℕ, String, Bool, true, false, not, ◌&&◌, ◌||◌, Option, none, some, List, ◌+◌, string_eq,
  option_eq, ◌==◌, strip, is_empty, or_default, DateTime, if◌then◌else◌,
}
use btx_omni_prospect.Prelude.Result.{Result, ok, err, raise_if, ◌>>=◌, ◌>>◌}
use btx_omni_prospect.Prelude.Exec.{Exec}
use btx_omni_prospect.Work.Domain.{
  ActionStatus, in_progress, completed, canceled, ApprovalStatus, approved, rejected, pending,
  requested, changes_requested, Action, Principal, WorkError, owner_required,
  requester_cannot_decide, reopen_before_approval, no_pending_approval, comment_required,
  cannot_request_approval, make_action,
}
use btx_omni_prospect.Work.Repository.{
  Repository, ActionAuditEvent, approval_decided, approval_requested, decision as decision_metadata,
  request as request_metadata, make_event,
}
use btx_omni_prospect.Work.Policy.{require_manager, require_version}
use btx_omni_prospect.Work.Mutation.{Outcome, change, mutate}

-- status in {COMPLETED, CANCELED}
abbrev pub is_closed : ActionStatus → Bool
is_closed completed = true
is_closed canceled = true
is_closed _ = false

abbrev pub awaits_decision : ApprovalStatus → Bool
awaits_decision pending = true
awaits_decision requested = true
awaits_decision _ = false

abbrev pub is_decision : ApprovalStatus → Bool
is_decision approved = true
is_decision rejected = true
is_decision changes_requested = true
is_decision _ = false

abbrev pub is_changes_requested : ApprovalStatus → Bool
is_changes_requested changes_requested = true
is_changes_requested _ = false

abbrev pub needs_comment : ApprovalStatus → Bool
needs_comment rejected = true
needs_comment changes_requested = true
needs_comment _ = false

abbrev pub is_requested : ApprovalStatus → Bool
is_requested requested = true
is_requested _ = false

-- action.approval_requested_by or action.created_by
abbrev pub requester : Action → String
requester a = or_default a.approval_requested_by a.created_by

-- (comment or "").strip() or None
unfoldable pub clean_comment : Option String → Option String
clean_comment comment =
    let text = strip (or_default comment "") in if is_empty text then none else some text

unfoldable pub decided : Action → ApprovalStatus → DateTime → Option String → Action
decided a decision now comment = record a {
  approval_status = decision;
  approval_comment = clean_comment comment;
  status = if is_changes_requested decision then in_progress else a.status;
  updated_at = now;
  version = a.version + 1;
}

unfoldable pub decision_plan :
    ApprovalStatus
    → Principal
    → DateTime
    → Option ℕ
    → Option String
    → Action
    → List ActionAuditEvent
    → Result WorkError Outcome
decision_plan decision p now expected comment a history = do
  require_version a expected
  raise_if (is_closed a.status) reopen_before_approval
  raise_if (p.user_id == requester a) requester_cannot_decide
  raise_if (not (awaits_decision a.approval_status && is_decision decision)) no_pending_approval
  raise_if (needs_comment decision && is_empty (strip (or_default comment ""))) comment_required
  updated ← make_action (decided a decision now comment)
  event ←
      make_event a.id p approval_decided now (
        decision_metadata a.approval_status decision (clean_comment comment) a.status
          updated.status)
  ok (change updated event)

-- The manager's role is tested before the Action is read.
unfoldable pub decide_approval :
    String
    → ApprovalStatus
    → Principal
    → DateTime
    → Option ℕ
    → Option String
    → Exec Repository WorkError Action
decide_approval id decision p now expected comment r = elim (require_manager p) [
  | err e ↦ (err e, r)
  | ok _ ↦ mutate id (decision_plan decision p now expected comment) r
]

unfoldable pub with_request : Action → Principal → DateTime → Action
with_request a p now = record a {
  approval_status = requested;
  approval_requested_by = some p.user_id;
  approval_comment = none;
  updated_at = now;
  version = a.version + 1;
}

unfoldable pub request_plan :
    Principal → DateTime → ℕ → Action → List ActionAuditEvent → Result WorkError Outcome
request_plan p now expected a history = do
  raise_if (not (a.owner_id == some p.user_id)) owner_required
  require_version a (some expected)
  raise_if (is_closed a.status || is_requested a.approval_status) cannot_request_approval
  updated ← make_action (with_request a p now)
  event ← make_event a.id p approval_requested now (request_metadata a.approval_status)
  ok (change updated event)

unfoldable pub request_approval :
    String → Principal → DateTime → ℕ → Exec Repository WorkError Action
request_approval id p now expected = mutate id (request_plan p now expected)
