-- ===== src/Work/Subtasks.antt =====
-- `WorkService.change_subtask`.
use Prim.Native.String.{◌++◌}
use btx_omni_prospect.Prelude.{
  ℕ, String, Bool, true, false, not, ◌&&◌, Option, none, some, List, [], ◌∷◌, ◌+◌, map, find,
  string_eq, option_eq, ◌==◌, strip, is_empty, some_truthy, DateTime, if◌then◌else◌,
}
use mathlib.Core.List.{◌++◌ as list_append}
use btx_omni_prospect.Prelude.Result.{Result, ok, err, raise_if, ◌>>=◌, ◌>>◌}
use btx_omni_prospect.Prelude.Exec.{Exec}
use btx_omni_prospect.Prelude.Json.{
  Json, bool, str, null, arr, obj, items, fields, option_str, given,
}
use btx_omni_prospect.Work.Domain.{
  Action, Principal, Subtask, WorkError, subtask_not_found, retry_differs, reopen_before_subtasks,
  key_required, only_one_level, missing_argument, title_is_none, make_subtask, make_action,
}
use btx_omni_prospect.Work.Repository.{
  Repository, ActionAuditEvent, idempotency_key?, fingerprint?, subtask_changed,
  subtask as subtask_metadata, make_event,
}
use btx_omni_prospect.Work.Policy.{
  Runtime, short_id, unowned_or_own, require_manage, require_manager, require_version,
}
use btx_omni_prospect.Work.Mutation.{Outcome, keep, change, mutate}
use btx_omni_prospect.Work.Approval.{is_closed}
use btx_omni_prospect.Work.Edit.{changed_to}

-- The keyword arguments of a call: an absent key is `none`. `unsupported` says that the call has
-- another key than these. A title, a date or an owner may be given as None.
pub record SubtaskChanges : Type 0 where
  pub title : Option (Option String)
  pub done : Option Bool
  pub due_date : Option (Option ℕ)
  pub owner_id : Option (Option String)
  pub removed : Option Bool
  pub unsupported : Bool

abbrev pub option_date : Runtime → Option ℕ → Json
option_date rt none = null
option_date rt (some d) = str (rt.date_isoformat d)

-- The digest of [subtask_id, changes], with the keys of `changes` in their order.
unfoldable pub subtask_fingerprint : Runtime → Option String → SubtaskChanges → String
subtask_fingerprint rt id c = rt.sha256_hexdigest (
    rt.json_dumps (
      arr (
        items (
          option_str id
          ∷ obj (
              fields (
                list_append (given "done" bool c.done) (
                  list_append (given "due_date" (option_date rt) c.due_date) (
                    list_append (given "owner_id" option_str c.owner_id) (
                      list_append (given "removed" bool c.removed)
                        (given "title" option_str c.title))))))
          ∷ []))))

-- The first event of this actor under this key.
unfoldable pub earlier_call : Principal → String → List ActionAuditEvent → Option ActionAuditEvent
earlier_call p key history =
    find (λ e. e.actor_id == p.user_id && idempotency_key? e.metadata == some key) history

unfoldable pub find_child : Option String → List Subtask → Option Subtask
find_child id children = find (λ child. some child.id == id) children

-- The title that is given, or the one that there is; None has no `strip`.
abbrev pub title_of : Option String → Option (Option String) → Result WorkError String
title_of none none = err missing_argument
title_of (some old) none = ok old
title_of _ (some none) = err title_is_none
title_of _ (some (some title)) = ok title

-- `replace(original, **changes)`, or a new Subtask, which needs a title.
unfoldable pub changed_child :
    Runtime
    → String
    → Principal
    → String
    → Option Subtask
    → SubtaskChanges
    → Result WorkError Subtask
changed_child rt action_id p key (some original) c = do
  title ← title_of (some original.title) c.title
  make_subtask (record original {
    title = title;
    done = changed_to original.done c.done;
    due_date = changed_to original.due_date c.due_date;
    owner_id = changed_to original.owner_id c.owner_id;
    removed = changed_to original.removed c.removed;
  })
changed_child rt action_id p key none c = do
  title ← title_of none c.title
  make_subtask (record {
    id = short_id rt "subtask-" (action_id ++ ":" ++ p.user_id ++ ":" ++ key);
    parent_id = action_id;
    title = title;
    done = changed_to false c.done;
    due_date = changed_to none c.due_date;
    owner_id = changed_to none c.owner_id;
    removed = changed_to false c.removed;
  })

unfoldable pub placed : Option Subtask → Subtask → List Subtask → List Subtask
placed none child children = list_append children (child ∷ [])
placed (some original) child children =
    map (λ current. if current.id == child.id then child else current) children

-- Another principal's subtask, or a change of its owner, wants a manager.
abbrev pub reassigns : Option Subtask → SubtaskChanges → Bool
reassigns none c = false
reassigns (some original) c = not (changed_to original.owner_id c.owner_id == original.owner_id)

unfoldable pub with_subtasks : Action → List Subtask → DateTime → Action
with_subtasks a children now = record a {
  subtasks = children;
  updated_at = now;
  version = a.version + 1;
}

abbrev pub is_some {ℓ} : {A : Type ℓ} → Option A → Bool
is_some none = false
is_some (some a) = true

unfoldable pub save_child :
    Principal
    → DateTime
    → String
    → String
    → Action
    → Option Subtask
    → Subtask
    → Result WorkError Outcome
save_child p now key fingerprint a original child = do
  updated ← make_action (with_subtasks a (placed original child a.subtasks) now)
  event ← make_event a.id p subtask_changed now (subtask_metadata original child key fingerprint)
  ok (change updated event)

-- What a new call does, given the subtask that it names.
unfoldable pub new_subtask_plan :
    Runtime
    → Option String
    → Principal
    → DateTime
    → ℕ
    → String
    → SubtaskChanges
    → Action
    → Option Subtask
    → Result WorkError Outcome
new_subtask_plan rt id p now expected key c a original = do
  require_version a (some expected)
  raise_if (is_closed a.status) reopen_before_subtasks
  if unowned_or_own p (changed_to none c.owner_id) then ok tt else require_manager p
  raise_if (some_truthy id && not (is_some original)) subtask_not_found
  if reassigns original c then require_manager p else ok tt
  child ← changed_child rt a.id p key original c
  save_child p now key (subtask_fingerprint rt id c) a original child

-- A key that this actor has used replays, or refuses, the call.
unfoldable pub subtask_plan :
    Runtime
    → Option String
    → Principal
    → DateTime
    → ℕ
    → String
    → SubtaskChanges
    → Action
    → List ActionAuditEvent
    → Result WorkError Outcome
subtask_plan rt id p now expected key c a history = do
  require_manage p a
  raise_if (is_empty (strip key)) key_required
  raise_if c.unsupported only_one_level
  elim (earlier_call p key history) [
    | some event ↦
        if fingerprint? event.metadata == some (subtask_fingerprint rt id c)
        then ok keep
        else err retry_differs
    | none ↦ new_subtask_plan rt id p now expected key c a (find_child id a.subtasks)
  ]

unfoldable pub change_subtask :
    Runtime
    → String
    → Option String
    → Principal
    → DateTime
    → ℕ
    → String
    → SubtaskChanges
    → Exec Repository WorkError Action
change_subtask rt id child p now expected key c =
    mutate id (subtask_plan rt child p now expected key c)
