-- ===== src/Work/Commands.antt =====
-- The operations that change Actions, as requests, and a sequence of requests to the service.
use btx_omni_prospect.Prelude.{ℕ, String, Bool, Option, none, some, List, [], ◌∷◌, DateTime}
use btx_omni_prospect.Prelude.Exec.{Exec}
use btx_omni_prospect.Work.Domain.{ActionStatus, ApprovalStatus, Action, Principal, WorkError}
use btx_omni_prospect.Work.Repository.{Repository}
use btx_omni_prospect.Work.Policy.{Runtime}
use btx_omni_prospect.Work.Create.{CreateArgs, create}
use btx_omni_prospect.Work.Edit.{Changes, edit}
use btx_omni_prospect.Work.Transition.{transition}
use btx_omni_prospect.Work.Approval.{decide_approval, request_approval}
use btx_omni_prospect.Work.Subtasks.{SubtaskChanges, change_subtask}

pub data Command : Type 0 where
  creates : CreateArgs → Command
  edits : (id : String) → Principal → DateTime → (expected : Option ℕ) → Changes → Command
  moves :
      (id : String)
      → ActionStatus
      → Principal
      → DateTime
      → (expected : Option ℕ) → (complete_open : Bool) → Command
  decides :
      (id : String)
      → ApprovalStatus
      → Principal
      → DateTime
      → (expected : Option ℕ) → (comment : Option String) → Command
  requests : (id : String) → Principal → DateTime → (expected : ℕ) → Command
  changes_subtask :
      (id : String)
      → (child : Option String) → Principal
      → DateTime
      → (expected : ℕ) → (key : String) → SubtaskChanges
      → Command

unfoldable pub execute : Runtime → Command → Exec Repository WorkError Action
execute rt (creates c) = create rt c
execute rt (edits id p now expected c) = edit id p now expected c
execute rt (moves id status p now expected all) = transition id status p now expected all
execute rt (decides id decision p now expected comment) =
    decide_approval id decision p now expected comment
execute rt (requests id p now expected) = request_approval id p now expected
execute rt (changes_subtask id child p now expected key c) =
    change_subtask rt id child p now expected key c

-- A request that raises ends itself only.
unfoldable pub run : Runtime → List Command → Repository → Repository
run rt [] r = r
run rt (c ∷ rest) r = run rt rest (execute rt c r).1

-- The Action that a request names, and the version that its writer has read.
abbrev pub target : Command → String
target (creates c) = ""
target (edits id p now expected c) = id
target (moves id status p now expected all) = id
target (decides id decision p now expected comment) = id
target (requests id p now expected) = id
target (changes_subtask id child p now expected key c) = id

abbrev pub expected_version : Command → Option ℕ
expected_version (creates c) = none
expected_version (edits id p now expected c) = expected
expected_version (moves id status p now expected all) = expected
expected_version (decides id decision p now expected comment) = expected
expected_version (requests id p now expected) = some expected
expected_version (changes_subtask id child p now expected key c) = some expected
