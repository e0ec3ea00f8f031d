-- ===== src/Work/Listing.antt =====
-- `WorkService.list`, its suggestions, and `ActionPolicy`'s scope of a salesperson.
use btx_omni_prospect.Prelude.{
  ℕ, Bool, true, false, Option, none, some, List, select, string_eq, nat_eq, ◌==◌, ltb,
  if◌then◌else◌, ◌||◌,
}
use btx_omni_prospect.Prelude.Sorting.{sorted, text_le}
use btx_omni_prospect.Work.Domain.{Action, Principal, is_manager}
use btx_omni_prospect.Work.Repository.{Repository, list_items}
use btx_omni_prospect.Work.Policy.{unowned_or_own}

-- Lexicographic: `less` and `same` decide, and `rest` is the order of the later keys.
abbrev pub by_then : (less same rest : Bool) → Bool
by_then less same rest = if less then true else if same then rest else false

-- Actions without a due date stand last.
abbrev pub due_le : Option ℕ → Option ℕ → Bool → Bool
due_le none none rest = rest
due_le none (some e) rest = false
due_le (some d) none rest = true
due_le (some d) (some e) rest = by_then (ltb d e) (d == e) rest

-- (due_date is None, due_date or date.max, created_at, id)
unfoldable pub action_le : Action → Action → Bool
action_le a b = due_le a.due_date b.due_date (
    by_then (ltb a.created_at.instant b.created_at.instant)
      (a.created_at.instant == b.created_at.instant) (text_le a.id b.id))

-- x.owner_id in {None, user_id} or x.created_by == user_id
unfoldable pub in_scope : Option Principal → Action → Bool
in_scope none a = true
in_scope (some p) a = is_manager p || (unowned_or_own p a.owner_id || a.created_by == p.user_id)

unfoldable pub list_actions : Option Principal → Repository → List Action
unfolding in_scope action_le
list_actions p r = sorted action_le (select (in_scope p) (list_items r))
