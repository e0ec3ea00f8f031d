-- ===== src/Work/Create.antt =====
-- `WorkService.create`.
mod Fingerprints
unfoldable pub use Fingerprints.*
use Prim.Native.String.{◌++◌}
use btx_omni_prospect.Prelude.{
  ℕ, String, Bool, not, ◌&&◌, Option, none, some, List, [], ◌∷◌, map, find, select, string_eq,
  nat_eq, option_eq, ◌==◌, strip, some_truthy, or_default, or_else, DateTime, if◌then◌else◌,
}
use text.Mathlib.Text.{starts_with}
use btx_omni_prospect.Prelude.Result.{Result, ok, err, raise_if, ◌>>=◌, ◌>>◌}
use btx_omni_prospect.Prelude.Exec.{Exec}
use btx_omni_prospect.Prelude.Sorting.{sorted, text_le}
use btx_omni_prospect.Prelude.Json.{Json, bool, str, null, arr, items, option_str, strs}
use btx_omni_prospect.Work.Domain.{
  ActionPriority, priority_value, open_, pending, not_required, approval_eq, Action, Principal,
  salesperson, WorkError, retry_differs, suggestion_of_other_account, make_action,
}
use btx_omni_prospect.Work.Repository.{
  Repository, ActionAuditEvent, created, creation, creation_fingerprint?, is_created, get,
  by_suggestion, history, save, make_event,
}
use btx_omni_prospect.Work.Policy.{Runtime, short_id, require_manage, require_manager}

pub record CreateArgs : Type 0 where
  pub account_id : Option String
  pub occurred_at : DateTime
  pub title : Option String
  pub principal : Option Principal
  pub summary : Option String
  pub actor_id : Option String
  pub description : Option String
  pub owner_id : Option String
  pub priority : ActionPriority
  pub due_date : Option ℕ
  pub evidence_ids : List String
  pub context_referents : List (String × String)
  pub source_suggestion_id : Option String
  pub approval_required : Bool
  pub idempotency_key : Option String

-- The caller, or the server's default for a call without one (`server_principal`).
unfoldable pub caller : Runtime → CreateArgs → Principal
caller rt c = elim c.principal [
  | some p ↦ p
  | none ↦ record {
    user_id = or_default c.actor_id "seller-1";
    display_name = or_default c.actor_id "Salesperson";
    role = salesperson;
    tenant_id = rt.tenant_id;
  }
]

-- `title or summary or ""`
unfoldable pub given_title : CreateArgs → String
given_title c = or_default (or_else c.title c.summary) ""

-- The key of the first version of the identifier.
unfoldable pub creation_key : Runtime → CreateArgs → String
creation_key rt c = or_default c.idempotency_key (
    (caller rt c).user_id
    ++ ":"
    ++ elim c.account_id [ none ↦ "None" | some a ↦ a ]
    ++ ":"
    ++ given_title c
    ++ ":"
    ++ rt.datetime_isoformat c.occurred_at)

unfoldable pub plain_id : Runtime → CreateArgs → String
plain_id rt c = short_id rt "action-" (creation_key rt c)

-- The identifier under the caller's own key namespace.
unfoldable pub scoped_id : Runtime → CreateArgs → String
scoped_id rt c = short_id rt "action-" (
    rt.json_dumps (
      arr (
        items (
          str "action-create-v2"
          ∷ str (caller rt c).user_id
          ∷ option_str c.account_id
          ∷ str (creation_key rt c)
          ∷ []))))

abbrev pub has_key : CreateArgs → Bool
has_key c = some_truthy c.idempotency_key

unfoldable pub identifier : Runtime → CreateArgs → String
identifier rt c = if has_key c then scoped_id rt c else plain_id rt c

abbrev pub owner_or_caller : Runtime → CreateArgs → String
owner_or_caller rt c = or_default c.owner_id (caller rt c).user_id

unfoldable pub call_fingerprint : Runtime → CreateArgs → Option String
call_fingerprint rt c =
    if has_key c
    then some (
        creation_fingerprint rt c.account_id (strip (given_title c)) c.description
          (some (owner_or_caller rt c)) c.priority c.due_date c.evidence_ids c.context_referents
          c.source_suggestion_id c.approval_required)
    else none

-- An Action under the unscoped identifier serves its own creator's retry for the same account.
abbrev pub is_own_legacy : Runtime → CreateArgs → Action → Bool
is_own_legacy rt c legacy =
    legacy.created_by == (caller rt c).user_id && legacy.account_id == c.account_id

unfoldable pub found_legacy : Runtime → CreateArgs → Repository → Option Action
found_legacy rt c r =
    if has_key c
    then elim (get (plain_id rt c) r) [
      | none ↦ none
      | some legacy ↦ if is_own_legacy rt c legacy then some legacy else none
    ]
    else none

-- The Action of an earlier call with this key.
unfoldable pub found_existing : Runtime → CreateArgs → Repository → Option Action
found_existing rt c r = elim (found_legacy rt c r) [
  | some a ↦ some a
  | none ↦ get (identifier rt c) r
]

unfoldable pub new_action : Runtime → CreateArgs → Action
new_action rt c = record {
  id = identifier rt c;
  account_id = c.account_id;
  title = strip (given_title c);
  description = c.description;
  owner_id = some (owner_or_caller rt c);
  priority = c.priority;
  due_date = c.due_date;
  status = open_;
  approval_status = if c.approval_required then pending else not_required;
  source_suggestion_id = c.source_suggestion_id;
  evidence_ids = c.evidence_ids;
  created_by = (caller rt c).user_id;
  created_at = c.occurred_at;
  updated_at = c.occurred_at;
  completed_at = none;
  canceled_at = none;
  version = 1;
  context_referents = c.context_referents;
  previous_status = none;
  approval_requested_by = none;
  approval_comment = none;
  subtasks = [];
}

-- The new Action and its CREATED event.
unfoldable pub creation_plan : Runtime → CreateArgs → Result WorkError (Action × ActionAuditEvent)
creation_plan rt c = do
  action ← make_action (new_action rt c)
  event ←
      make_event action.id (caller rt c) created c.occurred_at
        (creation open_ (call_fingerprint rt c))
  ok (action, event)

-- A repository may return another creator's Action for the same key.
abbrev pub after_save :
    Runtime
    → CreateArgs
    → Result WorkError Action × Repository
    → Result WorkError Action × Repository
after_save rt c (err e, r) = (err e, r)
after_save rt c (ok saved, r) =
    if saved.account_id == c.account_id
    then (creation_replay rt saved (caller rt c) (call_fingerprint rt c) r, r)
    else (err suggestion_of_other_account, r)

unfoldable pub store_new : Runtime → CreateArgs → Exec Repository WorkError Action
store_new rt c r = elim (creation_plan rt c) [
  | err e ↦ (err e, r)
  | ok (action, event) ↦ after_save rt c (save action event none r)
]

unfoldable pub create_keyed : Runtime → CreateArgs → Exec Repository WorkError Action
create_keyed rt c r = elim (found_existing rt c r) [
  | some existing ↦ (creation_replay rt existing (caller rt c) (call_fingerprint rt c) r, r)
  | none ↦ store_new rt c r
]

-- The Action that a suggestion was turned into before.
unfoldable pub suggested : CreateArgs → Repository → Option Action
suggested c r = elim c.source_suggestion_id [
  | none ↦ none
  | some s ↦ if some_truthy (some s) then by_suggestion s r else none
]

unfoldable pub suggestion_replay : Principal → CreateArgs → Action → Result WorkError Action
suggestion_replay p c existing = do
  require_manage p existing
  raise_if (not (existing.account_id == c.account_id)) suggestion_of_other_account
  ok existing

-- Only a manager creates work for another owner.
unfoldable pub require_owner : Runtime → CreateArgs → Result WorkError (Unit {0})
require_owner rt c =
    if some_truthy c.owner_id && not (c.owner_id == some (caller rt c).user_id)
    then require_manager (caller rt c)
    else ok tt

unfoldable pub create : Runtime → CreateArgs → Exec Repository WorkError Action
create rt c r = elim (require_owner rt c) [
  | err e ↦ (err e, r)
  | ok _ ↦ elim (suggested c r) [
    | some existing ↦ (suggestion_replay (caller rt c) c existing, r)
    | none ↦ create_keyed rt c r
  ]
]
