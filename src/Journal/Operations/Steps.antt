-- ===== src/Journal/Operations/Steps.antt =====
-- The methods of `MonitorResearchJournal` on a run that is acquired, and `record_publication`.
use Prim.Native.String.{count as char_count}
use Prim.Native.Nat.{max}
use btx_omni_prospect.Prelude.{
  ℕ, ◌+◌, String, Bool, true, false, not, ◌&&◌, ◌||◌, Option, none, some, List, [], ◌∷◌, ◌++◌, map,
  any, find, length, string_eq, nat_eq, option_eq, ◌==◌, ltb, leb, is_empty, DateTime,
  if◌then◌else◌,
}
use btx_omni_prospect.Prelude.Dict.{lookup, insert}
use btx_omni_prospect.Prelude.Result.{Result, ok, err, raise_if, ◌>>=◌, ◌>>◌}
use btx_omni_prospect.Journal.Records.{
  RunStatus, paused, StepStatus, started, failed, interrupted_unknown, Run, Step, Entry, Journal,
  JournalError, lease_lost, step_budget_exhausted, invalid_step_bounds, naive_clock,
  step_in_progress, unknown_step, completed_step_immutable, outcome_unknown, not_completed,
  is_started, is_running, is_completed,
}
use btx_omni_prospect.Journal.Operations.Acquire.{Library, bounded, between, lease_active}

-- `_owned`
unfoldable pub owns : Run → String → ℕ → Bool
owns run token now =
    is_running run.status
    && not (is_empty token)
    && run.lease_token == some token
    && lease_active run.lease_until now

-- A transaction on the rows of one run that its caller owns.
unfoldable pub on_owned :
    {A : Type 0}
    → String
    → String
    → ℕ
    → (Entry → Result JournalError (A × Entry))
    → Journal
    → Result JournalError (A × Journal)
on_owned id token now f j = elim (lookup id j) [
  | none ↦ err lease_lost
  | some e ↦
      if owns e.run token now
      then elim (f e) [ err x ↦ err x | ok (a, e') ↦ ok (a, insert id e' j) ]
      else err lease_lost
]

-- max((row.number for row in rows), default=0)
unfoldable pub last_number : List Step → ℕ
last_number [] = 0
last_number (s ∷ ss) = max s.number (last_number ss)

unfoldable pub start_entry : String → String → ℕ → ℕ → Entry → Result JournalError (ℕ × Entry)
start_entry tool hash now max_steps e = do
  raise_if (any (λ s. is_started s.status) e.steps) step_in_progress
  raise_if (leb max_steps (length e.steps)) step_budget_exhausted
  ok (
    last_number e.steps + 1,
    record e {
      steps =
          e.steps
          ++ record {
            number = last_number e.steps + 1;
            tool = tool;
            arguments_hash = hash;
            status = started;
            started_at = now;
            completed_at = none;
            result = none;
          }
            ∷ [];
    },
  )

unfoldable pub start_step :
    Library
    → String
    → String
    → (tool arguments : String) → DateTime
    → (max_steps : ℕ) → Journal
    → Result JournalError (ℕ × Journal)
start_step l id token tool arguments now max_steps j = do
  raise_if
      (is_empty tool || ltb 80 (char_count tool) || not (between 1 max_steps 12) || not now.aware)
      invalid_step_bounds
  text ← bounded arguments 8000
  on_owned id token now.instant (start_entry tool (l.sha256_hexdigest text) now.instant max_steps) j

-- The status of a step that ended.
abbrev pub ended : Bool → StepStatus
ended true = failed
ended false = StepStatus.completed

abbrev pub step_status_index : StepStatus → ℕ
step_status_index started = 0
step_status_index StepStatus.completed = 1
step_status_index failed = 2
step_status_index interrupted_unknown = 3

abbrev pub same_step_status : StepStatus → StepStatus → Bool
same_step_status a b = step_status_index a == step_status_index b

unfoldable pub finished_step : Bool → ℕ → String → ℕ → Step → Step
finished_step failure number encoded now s =
    if s.number == number
    then record s { status = ended failure; completed_at = some now; result = some encoded }
    else s

unfoldable pub find_step : ℕ → List Step → Option Step
find_step number steps = find (λ s. s.number == number) steps

-- What `complete_step` does with the row that it finds.
unfoldable pub complete_found :
    Bool → ℕ → String → ℕ → Entry → Step → Result JournalError (Unit {0} × Entry)
complete_found failure number encoded now e s =
    if ltb now s.started_at
    then err unknown_step
    else if is_started s.status
    then ok (
      tt,
      record {
        run = record e.run {
          updated_at = now;
          completed_steps = e.run.completed_steps + (if failure then 0 else 1);
        };
        steps = map (finished_step failure number encoded now) e.steps;
      },
    )
    else if same_step_status s.status (ended failure) && s.result == some encoded
    then ok (tt, e)
    else err completed_step_immutable

unfoldable pub complete_entry :
    Bool → ℕ → String → ℕ → Entry → Result JournalError (Unit {0} × Entry)
complete_entry failure number encoded now e = elim (find_step number e.steps) [
  | none ↦ err unknown_step
  | some s ↦ complete_found failure number encoded now e s
]

unfoldable pub complete_step :
    String
    → String
    → ℕ
    → (result : String) → DateTime
    → (failure : Bool) → Journal
    → Result JournalError (Unit {0} × Journal)
complete_step id token number result now failure j = do
  encoded ← bounded result 120000
  raise_if (not now.aware) naive_clock
  on_owned id token now.instant (complete_entry failure number encoded now.instant) j

unfoldable pub finish_entry : String → ℕ → Bool → Entry → Result JournalError (Unit {0} × Entry)
finish_entry encoded now complete e = do
  raise_if (any (λ s. is_started s.status) e.steps) outcome_unknown
  ok (
    tt,
    record e {
      run = record e.run {
        status = if complete then RunStatus.completed else paused;
        result = some encoded;
        updated_at = now;
        lease_token = none;
        lease_until = none;
      };
    },
  )

unfoldable pub finish :
    String
    → String
    → (result : String) → DateTime
    → (complete : Bool) → Journal
    → Result JournalError (Unit {0} × Journal)
finish id token result now complete j = do
  raise_if (not now.aware) naive_clock
  encoded ← bounded result 160000
  on_owned id token now.instant (finish_entry encoded now.instant complete) j

-- `row['status'] != 'COMPLETED' or not row['result']`
abbrev pub publishable : Run → Bool
publishable run =
    is_completed run.status && elim run.result [ none ↦ false | some t ↦ not (is_empty t) ]

abbrev pub result_text : Option String → String
result_text none = ""
result_text (some t) = t

unfoldable pub publish_entry : Library → String → ℕ → Entry → Result JournalError (Unit {0} × Entry)
publish_entry l outcome now e = do
  raise_if (not (publishable e.run)) not_completed
  recorded ← bounded (l.recorded_outcome (result_text e.run.result)) 16000
  if recorded == outcome then ok (tt, e) else do
    text ← bounded (l.with_outcome (result_text e.run.result) outcome) 160000
    ok (tt, record e { run = record e.run { result = some text; updated_at = now } })

unfoldable pub record_publication :
    Library
    → String
    → (outcome : String) → DateTime
    → Journal
    → Result JournalError (Unit {0} × Journal)
record_publication l id outcome now j = do
  raise_if (not now.aware) naive_clock
  text ← bounded outcome 16000
  elim (lookup id j) [
    | none ↦ err not_completed
    | some e ↦ elim (publish_entry l text now.instant e) [
      | err x ↦ err x
      | ok (u, e') ↦ ok (u, insert id e' j)
    ]
  ]
