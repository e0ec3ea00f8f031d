-- ===== src/Work/Repository.antt =====
-- `MemoryActionRepository` and the audit events that it keeps.
use btx_omni_prospect.Prelude.{
  ℕ, String, Bool, true, false, not, Option, none, some, List, [], ◌∷◌, ◌++◌, string_eq, nat_eq,
  ◌==◌, select, find, DateTime, if◌then◌else◌, elem, option_eq,
}
use btx_omni_prospect.Prelude.Dict
use btx_omni_prospect.Prelude.Result.{Result, ok, err}
use btx_omni_prospect.Prelude.Exec.{Exec}
use btx_omni_prospect.Work.Domain.{
  ActionStatus, ActionPriority, ApprovalStatus, Subtask, Action, WorkError, action_not_found,
  version_changed, Principal, require_aware,
}
use btx_omni_prospect.Work.CrmRecords.{Proposal, Decision, Attempt}

-- A field that an edit changed, with its value before and after.
pub data FieldChange : Type 0 where
  title_changed : (before after : String) → FieldChange
  description_changed owner_changed account_changed : (before after : Option String) → FieldChange
  priority_changed : (before after : ActionPriority) → FieldChange
  due_date_changed : (before after : Option ℕ) → FieldChange

pub data EventName : Type 0 where
  created edited status_changed approval_decided approval_requested subtask_changed : EventName
  crm_proposed crm_decided crm_sample_attempt : EventName
  other : String → EventName

-- The `metadata` of an event, a constructor for each kind that the workflow writes.
pub data Metadata : Type 0 where
  creation : (status : ActionStatus) (fingerprint : Option String) → Metadata
  changes : List FieldChange → Metadata
  transition : (before after : ActionStatus) (completed_subtasks : List String) → Metadata
  decision :
      (before after : ApprovalStatus) (comment : Option String)
      (work_before work_after : ActionStatus)
      → Metadata
  request : (before : ApprovalStatus) → Metadata
  subtask : (before : Option Subtask) (after : Subtask) (key fingerprint : String) → Metadata
  crm_proposal : Proposal → Metadata
  crm_decision : Decision → Metadata
  crm_attempt : Attempt → Metadata
  foreign : Metadata

pub record ActionAuditEvent : Type 0 where
  pub id : Option ℕ
  pub action_id : String
  pub actor_id : String
  pub event : EventName
  pub occurred_at : DateTime
  pub metadata : Metadata

pub record Repository : Type 0 where
  pub items : List (String × Action)
  pub events : List ActionAuditEvent
  pub dismissed : List String
  pub dismissed_actors : List (String × String)

abbrev pub empty_repository : Repository
empty_repository = record { items = []; events = []; dismissed = []; dismissed_actors = [] }

-- metadata.get("creation_fingerprint"), .get("idempotency_key"), .get("fingerprint")
abbrev pub creation_fingerprint? : Metadata → Option String
creation_fingerprint? (creation status fingerprint) = fingerprint
creation_fingerprint? _ = none

abbrev pub idempotency_key? : Metadata → Option String
idempotency_key? (subtask before after key fingerprint) = some key
idempotency_key? _ = none

abbrev pub fingerprint? : Metadata → Option String
fingerprint? (subtask before after key fingerprint) = some fingerprint
fingerprint? _ = none

abbrev pub is_created : EventName → Bool
is_created created = true
is_created _ = false

unfoldable pub get : String → Repository → Option Action
get id r = Dict.lookup id r.items

unfoldable pub by_suggestion : String → Repository → Option Action
by_suggestion id r = find (λ a. a.source_suggestion_id == some id) (Dict.values r.items)

abbrev pub list_items : Repository → List Action
list_items r = Dict.values r.items

unfoldable pub history : String → Repository → List ActionAuditEvent
history id r = select (λ e. e.action_id == id) r.events

-- `expected_version is not None and (not current or current.version != expected_version)`
abbrev pub stale_save : Option Action → Option ℕ → Bool
stale_save current none = false
stale_save none (some v) = true
stale_save (some a) (some v) = not (a.version == v)

unfoldable pub save : Action → ActionAuditEvent → Option ℕ → Exec Repository WorkError Action
save action event expected r =
    if stale_save (get action.id r) expected then (err version_changed, r) else (
      ok action,
      record r { items = Dict.insert action.id action r.items; events = r.events ++ event ∷ [] },
    )

-- `operation` returns the event to append, if any, and a result.
unfoldable pub transact_audit :
    {A : Type 0}
    → String
    → (Action → List ActionAuditEvent → Result WorkError (Option ActionAuditEvent × A))
    → Exec Repository WorkError A
transact_audit id operation r = elim (get id r) [
  | none ↦ (err action_not_found, r)
  | some action ↦ elim (operation action (history id r)) [
    | err e ↦ (err e, r)
    | ok (none, result) ↦ (ok result, r)
    | ok (some event, result) ↦ (ok result, record r { events = r.events ++ event ∷ [] })
  ]
]

unfoldable pub dismiss_suggestion : String → String → Repository → Repository
dismiss_suggestion suggestion actor r = record r {
  dismissed = if elem suggestion r.dismissed then r.dismissed else r.dismissed ++ suggestion ∷ [];
  dismissed_actors = Dict.insert suggestion actor r.dismissed_actors;
}

unfoldable pub dismissed_suggestions : Option String → Repository → List String
dismissed_suggestions none r = r.dismissed
dismissed_suggestions (some actor) r =
    select (λ s. Dict.lookup s r.dismissed_actors == some actor) r.dismissed

-- `WorkService._event`: an event without an id, which refuses a naive time.
unfoldable pub make_event :
    String → Principal → EventName → DateTime → Metadata → Result WorkError ActionAuditEvent
make_event id principal name now metadata = elim (require_aware now) [
  | err e ↦ err e
  | ok _ ↦ ok (record {
    id = none;
    action_id = id;
    actor_id = principal.user_id;
    event = name;
    occurred_at = now;
    metadata = metadata;
  })
]
