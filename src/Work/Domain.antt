-- ===== src/Work/Domain.antt =====
-- The values of the Action workflow: backend/src/btx_omni/domain/work.py and domain/common.py.
use btx_omni_prospect.Prelude.{
  ℕ, String, Bool, true, false, not, ◌&&◌, Option, none, some, List, [], ◌∷◌, nat_eq, ◌==◌, Eq, ◌≡◌,
  ◌↔◌, arith, ltb, strip, is_empty, DateTime,
}
use btx_omni_prospect.Prelude.Result.{Result, ok, raise_if, ◌>>◌}

pub data ActionStatus : Type 0 where
  open_ in_progress completed canceled : ActionStatus

pub data ActionPriority : Type 0 where
  high medium low : ActionPriority

pub data ApprovalStatus : Type 0 where
  not_required pending approved rejected requested changes_requested : ApprovalStatus

pub data PrincipalRole : Type 0 where
  salesperson manager : PrincipalRole

-- `ActionNotFoundError`, `ActionForbiddenError`, `ActionConflictError`, `ValueError` and `TypeError`,
-- a constructor for each message.
pub data WorkError : Type 0 where
  action_not_found subtask_not_found : WorkError
  outside_permitted_work manager_required owner_required requester_cannot_decide : WorkError
  version_changed cannot_transition approval_required open_subtasks_remain : WorkError
  reopen_before_approval no_pending_approval comment_required cannot_request_approval : WorkError
  reopen_before_subtasks retry_differs suggestion_of_other_account : WorkError
  naive_datetime title_required version_not_positive priority_required : WorkError
  subtask_title_required key_required only_one_level missing_argument title_is_none : WorkError
  live_crm_refused mapping_out_of_scope proposal_limit no_saved_proposal : WorkError
  proposal_outdated unsupported_decision decision_changed retry_key_required : WorkError
  retry_key_reused approval_missing attempt_limit confirmation_required : WorkError
  blocked_by : List String → WorkError

pub record Principal : Type 0 where
  pub user_id : String
  pub display_name : String
  pub role : PrincipalRole
  pub tenant_id : Option String

pub record Subtask : Type 0 where
  pub id : String
  pub parent_id : String
  pub title : String
  pub done : Bool
  pub due_date : Option ℕ
  pub owner_id : Option String
  pub removed : Bool

-- `allowed_transitions` is computed from the fields, below.
pub record Action : Type 0 where
  pub id : String
  pub account_id : Option String
  pub title : String
  pub description : Option String
  pub owner_id : Option String
  pub priority : ActionPriority
  pub due_date : Option ℕ
  pub status : ActionStatus
  pub approval_status : ApprovalStatus
  pub source_suggestion_id : Option String
  pub evidence_ids : List String
  pub created_by : String
  pub created_at : DateTime
  pub updated_at : DateTime
  pub completed_at : Option DateTime
  pub canceled_at : Option DateTime
  pub version : ℕ
  pub context_referents : List (String × String)
  pub previous_status : Option ActionStatus
  pub approval_requested_by : Option String
  pub approval_comment : Option String
  pub subtasks : List Subtask

-- The place of a status among the members of its enumeration.
abbrev pub status_index : ActionStatus → ℕ
status_index open_ = 0
status_index in_progress = 1
status_index completed = 2
status_index canceled = 3

pub status_index_iff : (a b : ActionStatus) → ((status_index a == status_index b) ≡ true) ↔ (a ≡ b)
status_index_iff a b = ground arith

instance abbrev pub status_eq : Eq ActionStatus
status_eq = record { same = λ a b. status_index a == status_index b; same_iff = status_index_iff }

abbrev pub approval_index : ApprovalStatus → ℕ
approval_index not_required = 0
approval_index pending = 1
approval_index approved = 2
approval_index rejected = 3
approval_index requested = 4
approval_index changes_requested = 5

pub approval_index_iff :
    (a b : ApprovalStatus) → ((approval_index a == approval_index b) ≡ true) ↔ (a ≡ b)
approval_index_iff a b = ground arith

instance abbrev pub approval_eq : Eq ApprovalStatus
approval_eq = record {
  same = λ a b. approval_index a == approval_index b;
  same_iff = approval_index_iff;
}

abbrev pub priority_index : ActionPriority → ℕ
priority_index high = 0
priority_index medium = 1
priority_index low = 2

pub priority_index_iff :
    (a b : ActionPriority) → ((priority_index a == priority_index b) ≡ true) ↔ (a ≡ b)
priority_index_iff a b = ground arith

instance abbrev pub priority_eq : Eq ActionPriority
priority_eq = record {
  same = λ a b. priority_index a == priority_index b;
  same_iff = priority_index_iff;
}

-- `value.value` of the enumerations.
abbrev pub status_value : ActionStatus → String
status_value open_ = "OPEN"
status_value in_progress = "IN_PROGRESS"
status_value completed = "COMPLETED"
status_value canceled = "CANCELED"

abbrev pub priority_value : ActionPriority → String
priority_value high = "HIGH"
priority_value medium = "MEDIUM"
priority_value low = "LOW"

-- `principal.role is PrincipalRole.MANAGER`.
abbrev pub is_manager : Principal → Bool
is_manager p = elim p.role [ manager ↦ true | salesperson ↦ false ]

-- The table of `Action.__post_init__`.
unfoldable pub allowed_transitions : ActionStatus → Option ActionStatus → List ActionStatus
allowed_transitions open_ previous = in_progress ∷ completed ∷ canceled ∷ []
allowed_transitions in_progress previous = completed ∷ canceled ∷ []
allowed_transitions completed previous = in_progress ∷ []
allowed_transitions canceled none = []
allowed_transitions canceled (some previous) = previous ∷ []

-- `require_aware`.
abbrev pub require_aware : DateTime → Result WorkError (Unit {0})
require_aware t = raise_if (not t.aware) naive_datetime

abbrev pub require_aware_if_set : Option DateTime → Result WorkError (Unit {0})
require_aware_if_set none = ok tt
require_aware_if_set (some t) = require_aware t

-- `Action.__post_init__`, which runs whenever an Action is built or replaced.
unfoldable pub make_action : Action → Result WorkError Action
make_action a = do
  require_aware a.created_at
  require_aware a.updated_at
  require_aware_if_set a.completed_at
  require_aware_if_set a.canceled_at
  raise_if (is_empty (strip a.title)) title_required
  raise_if (ltb a.version 1) version_not_positive
  ok a

-- `Subtask.__post_init__`.
unfoldable pub make_subtask : Subtask → Result WorkError Subtask
make_subtask s = do raise_if (is_empty (strip s.title)) subtask_title_required; ok s

-- `Action.is_overdue`.
unfoldable pub is_overdue : Action → ℕ → Bool
is_overdue a today = elim a.due_date [
  | none ↦ false
  | some due ↦ ltb due today && elim a.status [ open_ ↦ true | in_progress ↦ true | _ ↦ false ]
]
