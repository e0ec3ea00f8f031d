-- ===== src/Work/Policy.antt =====
-- `ActionPolicy`, the version test, and the calls of other code's functions: rendering and hashing.
use btx_omni_prospect.Prelude.{
  ℕ, String, Bool, not, Option, none, some, string_eq, nat_eq, option_eq, ◌==◌, ◌||◌, DateTime,
}
use Prim.Native.String.{slice, ◌++◌}
use btx_omni_prospect.Prelude.Result.{Result, ok, raise_if}
use btx_omni_prospect.Prelude.Json.{Json}
use btx_omni_prospect.Work.Domain.{
  Principal, Action, WorkError, outside_permitted_work, manager_required, version_changed,
  is_manager,
}

-- Rendering and hashing by Python's library, and the tenant of the server's settings.
pub record Runtime : Type 0 where
  pub sha256_hexdigest : String → String
  pub json_dumps : Json → String
  pub json_dumps_compact : Json → String
  pub datetime_isoformat : DateTime → String
  pub date_isoformat : ℕ → String
  pub tenant_id : Option String

-- f"{prefix}{sha256(text.encode()).hexdigest()[:20]}"
abbrev pub short_id : Runtime → String → String → String
short_id rt prefix text = prefix ++ slice (rt.sha256_hexdigest text) 0 20

-- owner_id in {None, user_id}
abbrev pub unowned_or_own : Principal → Option String → Bool
unowned_or_own p owner = owner == none || owner == some p.user_id

-- The Actions that a principal may read and change.
unfoldable pub may_manage : Principal → Action → Bool
may_manage p a = is_manager p || (unowned_or_own p a.owner_id || a.created_by == p.user_id)

unfoldable pub require_manage : Principal → Action → Result WorkError (Unit {0})
unfolding may_manage
require_manage p a = raise_if (not (may_manage p a)) outside_permitted_work

unfoldable pub require_manager : Principal → Result WorkError (Unit {0})
require_manager p = raise_if (not (is_manager p)) manager_required

-- `_require_version`
unfoldable pub require_version : Action → Option ℕ → Result WorkError (Unit {0})
require_version a none = ok tt
require_version a (some v) = raise_if (not (a.version == v)) version_changed
