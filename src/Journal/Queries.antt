-- ===== src/Journal/Queries.antt =====
-- `get` and `latest_for_source`.
use btx_omni_prospect.Prelude.{
  ℕ, String, Bool, ◌&&◌, ◌||◌, ◌≤◌, Option, none, some, List, [], ◌∷◌, select, ◌==◌, string_eq,
  nat_eq, ltb, if◌then◌else◌,
}
use btx_omni_prospect.Prelude.Dict.{lookup}
use btx_omni_prospect.Prelude.Sorting.{text_le}
use btx_omni_prospect.Journal.Records.{RunStatus, Step, Entry, Journal, is_completed, is_paused}

-- What a reader gets: the row without the lease, with its steps and the version of the contract.
pub record Report : Type 0 where
  pub id : String
  pub event_reference : String
  pub source_revision : String
  pub status : RunStatus
  pub created_at : ℕ
  pub updated_at : ℕ
  pub completed_steps : ℕ
  pub attempt_count : ℕ
  pub result : Option String
  pub steps : List Step
  pub contract_version : String

unfoldable pub report : String → Entry → Report
report id e = record {
  id = id;
  event_reference = e.run.event_reference;
  source_revision = e.run.source_revision;
  status = e.run.status;
  created_at = e.run.created_at;
  updated_at = e.run.updated_at;
  completed_steps = e.run.completed_steps;
  attempt_count = e.run.attempt_count;
  result = e.run.result;
  steps = e.steps;
  contract_version = "BTX_MONITOR_RESEARCH_JOURNAL_1";
}

unfoldable pub get : String → Journal → Option Report
get id j = elim (lookup id j) [ none ↦ none | some e ↦ some (report id e) ]

-- The runs that may supply context for a source.
abbrev pub concerns : String → String → String × Entry → Bool
concerns event_ revision (id, e) =
    e.run.event_reference == event_
    && e.run.source_revision == revision
    && (is_completed e.run.status || is_paused e.run.status)

-- order by updated_at desc, id
abbrev pub precedes : String × Entry → String × Entry → Bool
precedes (i, e) (j, f) =
    ltb f.run.updated_at e.run.updated_at || f.run.updated_at == e.run.updated_at && text_le i j

abbrev pub preferred : String × Entry → Option (String × Entry) → String × Entry
preferred x none = x
preferred x (some y) = if precedes x y then x else y

-- The first row in that order.
unfoldable pub first_row : List (String × Entry) → Option (String × Entry)
first_row [] = none
first_row (x ∷ xs) = some (preferred x (first_row xs))

unfoldable pub latest_run : String → String → Journal → Option (String × Entry)
latest_run event_ revision j = first_row (select (concerns event_ revision) j)

unfoldable pub latest_for_source : String → String → Journal → Option Report
latest_for_source event_ revision j = elim (latest_run event_ revision j) [
  | none ↦ none
  | some (id, e) ↦ get id j
]

abbrev pub NoLater : ℕ → String × Entry → Type 0
NoLater t (id, e) = e.run.updated_at ≤ t
