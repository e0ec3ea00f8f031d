-- ===== src/Work/Edit.antt =====
-- `WorkService.edit`. Its keyword arguments are the fields of `Changes`: an absent key is `none`.
use btx_omni_prospect.Prelude.{
  ℕ, String, Bool, true, false, Option, none, some, List, [], ◌∷◌, ◌++◌, ◌+◌, Eq, ◌==◌, string_eq,
  nat_eq, option_eq, strip, is_empty, DateTime, if◌then◌else◌,
}
use btx_omni_prospect.Prelude.Result.{Result, ok, raise_if, ◌>>=◌, ◌>>◌}
use btx_omni_prospect.Prelude.Exec.{Exec}
use btx_omni_prospect.Work.Domain.{
  ActionPriority, Action, Principal, WorkError, title_required, priority_required, make_action,
  priority_eq,
}
use btx_omni_prospect.Work.Repository.{
  Repository, ActionAuditEvent, FieldChange, title_changed, description_changed, owner_changed,
  account_changed, priority_changed, due_date_changed, edited, changes as changes_metadata,
  make_event,
}
use btx_omni_prospect.Work.Policy.{require_manage, require_manager, require_version}
use btx_omni_prospect.Work.Mutation.{Outcome, keep, change, mutate}

-- The keys that the method honours; it ignores every other key.
pub record Changes : Type 0 where
  pub title : Option (Option String)
  pub description : Option (Option String)
  pub owner_id : Option (Option String)
  pub priority : Option (Option ActionPriority)
  pub due_date : Option (Option ℕ)
  pub account_id : Option (Option String)

-- changes.get(key, current)
abbrev pub changed_to {ℓ} : {A : Type ℓ} → A → Option A → A
changed_to current none = current
changed_to current (some value) = value

-- A given value that is not `None`.
abbrev pub flat {ℓ} : {A : Type ℓ} → Option (Option A) → Option A
flat none = none
flat (some value) = value

-- The title is given, and is no text or blank.
abbrev pub bad_title : Option (Option String) → Bool
bad_title none = false
bad_title (some none) = true
bad_title (some (some title)) = is_empty (strip title)

abbrev pub bad_priority : Option (Option ActionPriority) → Bool
bad_priority (some none) = true
bad_priority _ = false

abbrev pub field_change {ℓ} :
    {A : Type ℓ} ⦃e : Eq A⦄ → (A → A → FieldChange) → A → Option A → List FieldChange
field_change make current none = []
field_change make current (some value) = if value == current then [] else make current value ∷ []

-- The permitted changes that change something.
unfoldable pub permitted : Action → Changes → List FieldChange
permitted a c =
    field_change title_changed a.title (flat c.title)
    ++ field_change description_changed a.description c.description
    ++ field_change owner_changed a.owner_id c.owner_id
    ++ field_change priority_changed a.priority (flat c.priority)
    ++ field_change due_date_changed a.due_date c.due_date
    ++ field_change account_changed a.account_id c.account_id

unfoldable pub edited_action : Action → Changes → DateTime → Action
edited_action a c now = record a {
  title = changed_to a.title (flat c.title);
  description = changed_to a.description c.description;
  owner_id = changed_to a.owner_id c.owner_id;
  priority = changed_to a.priority (flat c.priority);
  due_date = changed_to a.due_date c.due_date;
  account_id = changed_to a.account_id c.account_id;
  updated_at = now;
  version = a.version + 1;
}

unfoldable pub save_edit :
    Principal → DateTime → Option ℕ → Changes → Action → List FieldChange → Result WorkError Outcome
save_edit p now expected c a [] = ok keep
save_edit p now expected c a (first ∷ rest) = do
  require_version a expected
  updated ← make_action (edited_action a c now)
  event ← make_event a.id p edited now (changes_metadata (first ∷ rest))
  ok (change updated event)

unfoldable pub edit_plan :
    Principal
    → DateTime
    → Option ℕ
    → Changes
    → Action
    → List ActionAuditEvent
    → Result WorkError Outcome
edit_plan p now expected c a history = do
  require_manage p a
  raise_if (bad_title c.title) title_required
  raise_if (bad_priority c.priority) priority_required
  if changed_to a.owner_id c.owner_id == a.owner_id then ok tt else require_manager p
  save_edit p now expected c a (permitted a c)

unfoldable pub edit :
    String → Principal → DateTime → Option ℕ → Changes → Exec Repository WorkError Action
edit id p now expected c = mutate id (edit_plan p now expected c)
