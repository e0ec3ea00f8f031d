-- ===== src/Journal/Records.antt =====
-- The rows of the two tables. The rows of `monitor_research_steps` are grouped by their `run_id`,
-- which is a foreign key, and stand in the order in which they were inserted.
use btx_omni_prospect.Prelude.{
  ℕ, suc, String, Bool, true, false, Option, List, [], ◌∷◌, if◌then◌else◌,
}

pub data RunStatus : Type 0 where
  pending running completed paused : RunStatus

pub data StepStatus : Type 0 where
  started completed failed interrupted_unknown : StepStatus

-- Times are instants in microseconds (`_time` reads a stored one as UTC).
pub record Run : Type 0 where
  pub event_reference : String
  pub source_revision : String
  pub status : RunStatus
  pub created_at : ℕ
  pub updated_at : ℕ
  pub lease_token : Option String
  pub lease_until : Option ℕ
  pub completed_steps : ℕ
  pub attempt_count : ℕ
  pub result : Option String

pub record Step : Type 0 where
  pub number : ℕ
  pub tool : String
  pub arguments_hash : String
  pub status : StepStatus
  pub started_at : ℕ
  pub completed_at : Option ℕ
  pub result : Option String

pub record Entry : Type 0 where
  pub run : Run
  pub steps : List Step

abbrev pub Journal : Type 0
Journal = List (String × Entry)

-- `ResearchLeaseUnavailable`, `ResearchBudgetExhausted` and `ValueError`, by message.
pub data JournalError : Type 0 where
  active_worker attempts_exhausted cooling_down lease_lost : JournalError
  step_budget_exhausted : JournalError
  invalid_run_bounds invalid_step_bounds record_too_large naive_clock : JournalError
  step_in_progress unknown_step completed_step_immutable outcome_unknown not_completed :
      JournalError

abbrev pub is_started : StepStatus → Bool
is_started started = true
is_started _ = false

abbrev pub is_completed_step : StepStatus → Bool
is_completed_step completed = true
is_completed_step _ = false

abbrev pub is_running : RunStatus → Bool
is_running running = true
is_running _ = false

abbrev pub is_completed : RunStatus → Bool
is_completed completed = true
is_completed _ = false

abbrev pub is_paused : RunStatus → Bool
is_paused paused = true
is_paused _ = false

-- How many steps have a status that passes the test.
abbrev pub count : (StepStatus → Bool) → List Step → ℕ
count p [] = 0
count p (s ∷ ss) = let rest = count p ss in if p s.status then suc rest else rest
