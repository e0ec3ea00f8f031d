-- ===== src/Work/Create/Fingerprints.antt =====
-- `_creation_fingerprint` and `_creation_replay` of `WorkService`.
use btx_omni_prospect.Prelude.{
  ℕ, String, Bool, not, ◌&&◌, Option, none, some, List, [], ◌∷◌, map, find, select, string_eq,
  nat_eq, option_eq, ◌==◌, some_truthy, if◌then◌else◌,
}
use text.Mathlib.Text.{starts_with}
use btx_omni_prospect.Prelude.Result.{Result, ok, raise_if, ◌>>◌}
use btx_omni_prospect.Prelude.Sorting.{sorted, text_le}
use btx_omni_prospect.Prelude.Json.{Json, bool, str, null, arr, items, option_str, strs}
use btx_omni_prospect.Work.Domain.{
  ActionPriority, priority_value, pending, approval_eq, Action, Principal, WorkError, retry_differs,
}
use btx_omni_prospect.Work.Repository.{
  Repository, ActionAuditEvent, creation_fingerprint?, is_created, history,
}
use btx_omni_prospect.Work.Policy.{Runtime, require_manage}

abbrev pub pair_le : String × String → String × String → Bool
pair_le (a, b) (c, d) = if a == c then text_le b d else text_le a c

-- Referents other than those whose kind begins with `source_`, sorted, as lists of two.
abbrev pub referents_json : List (String × String) → List Json
referents_json refs =
    map (λ (kind, value). arr (items (str kind ∷ str value ∷ [])))
      (sorted pair_le (select (λ (kind, value). not (starts_with kind "source_")) refs))

unfoldable pub creation_fingerprint :
    Runtime
    → Option String
    → String
    → Option String
    → Option String
    → ActionPriority
    → Option ℕ
    → List String
    → List (String × String)
    → Option String
    → Bool
    → String
creation_fingerprint rt account title description owner priority due evidence refs suggestion
      approval =
    rt.sha256_hexdigest (
      rt.json_dumps_compact (
        arr (
          items (
            option_str account
            ∷ str title
            ∷ option_str description
            ∷ option_str owner
            ∷ str (priority_value priority)
            ∷ elim due [ none ↦ null | some d ↦ str (rt.date_isoformat d) ]
            ∷ arr (items (strs (sorted text_le evidence)))
            ∷ arr (items (referents_json refs))
            ∷ option_str suggestion
            ∷ bool approval
            ∷ []))))

-- The fingerprint of the stored Action itself, for one that was never changed.
unfoldable pub stored_fingerprint : Runtime → Action → String
stored_fingerprint rt a =
    creation_fingerprint rt a.account_id a.title a.description a.owner_id a.priority a.due_date
      a.evidence_ids a.context_referents a.source_suggestion_id (a.approval_status == pending)

-- The fingerprint in the first CREATED event.
unfoldable pub recorded_fingerprint : List ActionAuditEvent → Option String
recorded_fingerprint events = elim (find (λ e. is_created e.event) events) [
  | none ↦ none
  | some e ↦ creation_fingerprint? e.metadata
]

unfoldable pub original_fingerprint : Runtime → Action → List ActionAuditEvent → Option String
original_fingerprint rt a events = elim (recorded_fingerprint events) [
  | some f ↦ some f
  | none ↦ if a.version == 1 then some (stored_fingerprint rt a) else none
]

-- `_creation_replay`: the Action, if the principal may have it and the retry is the same proposal.
unfoldable pub creation_replay :
    Runtime → Action → Principal → Option String → Repository → Result WorkError Action
creation_replay rt a p fingerprint r = do
  require_manage p a
  raise_if
      (some_truthy fingerprint && not (original_fingerprint rt a (history a.id r) == fingerprint))
      retry_differs
  ok a
