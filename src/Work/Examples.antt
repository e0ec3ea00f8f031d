-- ===== src/Work/Examples.antt =====
-- Small runs of the Action workflow, and each theorem at a concrete input.
use btx_omni_prospect.Prelude.{
  any, ◌&&◌, ℕ, String, Bool, true, false, none, some, List, [], ◌∷◌, ◌++◌, ◌≡◌, ◌⊎◌, ◌↔◌, refl,
  DateTime, strip, string_eq,
}
use btx_omni_prospect.Prelude.Dict.{insert, lookup}
use btx_omni_prospect.Prelude.Result.{Result, ok, err}
use btx_omni_prospect.Work.Domain.{
  open_, in_progress, completed, canceled, approved, medium, salesperson, manager, Action,
  Principal, WorkError, approval_required, make_action, make_subtask, allowed_transitions,
}
use btx_omni_prospect.Work.Repository.{
  list_items, Repository, ActionAuditEvent, empty_repository, get, by_suggestion, history, save,
  make_event,
}
use btx_omni_prospect.Work.Policy.{
  Runtime, require_manage, require_manager, require_version, may_manage,
}
use btx_omni_prospect.Work.Mutation.{mutate}
use btx_omni_prospect.Work.Transition.{
  transition, transition_plan, moved, completed_children, complete_child,
}
use btx_omni_prospect.Work.Approval.{decide_approval, decision_plan, decided, clean_comment}
use btx_omni_prospect.Work.Subtasks.{
  SubtaskChanges, change_subtask, subtask_plan, new_subtask_plan, save_child, changed_child, placed,
  with_subtasks, find_child, earlier_call, subtask_fingerprint,
}
use btx_omni_prospect.Work.Create.{
  CreateArgs, create, create_keyed, store_new, creation_plan, new_action, identifier, plain_id,
  scoped_id, creation_key, caller, given_title, call_fingerprint, creation_fingerprint,
  found_existing, found_legacy, suggested, suggestion_replay, require_owner, creation_replay,
  original_fingerprint, recorded_fingerprint,
}
use btx_omni_prospect.Work.Commands.{
  Command, creates, moves, decides, changes_subtask, execute, run,
}
use btx_omni_prospect.Work.Validity.{IsValid, IsValid-empty, stored}
use btx_omni_prospect.Work.Validity.Steps.{OneStep}
use btx_omni_prospect.Work.Validity.Runs.{execute-OneStep, run-IsValid, events-run}
use btx_omni_prospect.Work.Concurrency.{no_lost_update}
use btx_omni_prospect.Work.Gates.{MayMove, transition_iff}
use btx_omni_prospect.Work.Gates.Decisions.{MayDecide, IsDecided, decision_event, decide_iff}
use btx_omni_prospect.Work.Gates.Restoring.{restored, cancel_restore}
use btx_omni_prospect.Work.Listing.{list_actions}
use btx_omni_prospect.Work.Listed.{Precedes, permits, list_actions-IsListed}
use btx_omni_prospect.Prelude.Sorting.{Ordered}
use btx_omni_prospect.Work.Retries.{create_retry}
use btx_omni_prospect.Work.Retries.Subtasks.{subtask_retry}

abbrev runtime : Runtime
runtime = record {
  sha256_hexdigest = λ s. s;
  json_dumps = λ j. "payload";
  json_dumps_compact = λ j. "proposal";
  datetime_isoformat = λ t. "now";
  date_isoformat = λ d. "day";
  tenant_id = none;
}

abbrev at_time : ℕ → DateTime
at_time n = record { instant = n; aware = true }

abbrev ann : Principal
ann = record { user_id = "ann"; display_name = "Ann"; role = salesperson; tenant_id = none }

abbrev max_ : Principal
max_ = record { user_id = "max"; display_name = "Max"; role = manager; tenant_id = none }

abbrev proposal : CreateArgs
proposal = record {
  account_id = some "acme";
  occurred_at = at_time 10;
  title = some " Call Acme ";
  principal = some ann;
  summary = none;
  actor_id = none;
  description = none;
  owner_id = none;
  priority = medium;
  due_date = none;
  evidence_ids = [];
  context_referents = [];
  source_suggestion_id = none;
  approval_required = true;
  idempotency_key = some "k1";
}

abbrev call_ann : SubtaskChanges
call_ann = record {
  title = some (some "Find the number");
  done = none;
  due_date = none;
  owner_id = none;
  removed = none;
  unsupported = false;
}

program : Unit {0}
unfolding run execute create create_keyed store_new creation_plan new_action identifier plain_id
    scoped_id creation_key caller given_title call_fingerprint creation_fingerprint found_existing
    found_legacy suggested suggestion_replay require_owner creation_replay original_fingerprint
    recorded_fingerprint get by_suggestion history save make_event insert lookup strip make_action
    make_subtask require_manage require_manager require_version may_manage mutate transition
    transition_plan moved completed_children complete_child allowed_transitions decide_approval
    decision_plan decided clean_comment change_subtask subtask_plan new_subtask_plan save_child
    changed_child placed with_subtasks find_child earlier_call subtask_fingerprint
program = tt

abbrev task_id : String
task_id = "action-payload"

-- One Action that awaits approval.
abbrev one_task : Repository
one_task = run runtime (creates proposal ∷ []) empty_repository

abbrev task : Action
task = new_action runtime proposal

one_task-IsValid : IsValid one_task
one_task-IsValid = run-IsValid runtime (creates proposal ∷ [])

created_task : (create runtime proposal empty_repository).0 ≡ ok task
unfolding program
created_task = refl

found_task : get task_id one_task ≡ some task
unfolding program
found_task = refl

abbrev finish : Command
finish = moves task_id completed ann (at_time 20) (some 1) false

finish_refused : (execute runtime finish one_task).0 ≡ err approval_required
unfolding program
finish_refused = refl

abbrev script : List Command
script =
    creates proposal
    ∷ finish
    ∷ decides task_id approved max_ (at_time 30) (some 1) none
    ∷ changes_subtask task_id none ann (at_time 35) 2 "s1" call_ann
    ∷ moves task_id completed ann (at_time 40) (some 3) true
    ∷ []

run-IsValid_example : IsValid (run runtime script empty_repository)
run-IsValid_example = run-IsValid runtime script

execute-OneStep_example : OneStep one_task (execute runtime finish one_task)
execute-OneStep_example = execute-OneStep runtime finish one_task one_task-IsValid

events-run_example :
    (more : List ActionAuditEvent) × ((run runtime script one_task).events
      ≡ one_task.events ++ more)
events-run_example = events-run runtime script one_task one_task-IsValid

abbrev start : Command
start = moves task_id in_progress ann (at_time 20) (some 1) false

abbrev cancel : Command
cancel = moves task_id canceled max_ (at_time 21) (some 1) false

no_lost_update_example :
    ((execute runtime start one_task).1 ≡ one_task)
    ⊎ ((execute runtime cancel (execute runtime start one_task).1).1
        ≡ (execute runtime start one_task).1)
no_lost_update_example =
    no_lost_update runtime start cancel one_task 1 one_task-IsValid refl refl refl

transition_iff_example : MayMove task in_progress ann (at_time 20) none false ↔ (
    (e : ActionAuditEvent) × (e.action_id ≡ task.id)
    × (transition task_id in_progress ann (at_time 20) none false one_task ≡ (
      ok (moved task in_progress (at_time 20) false),
      stored one_task (moved task in_progress (at_time 20) false) e,
    )))
transition_iff_example =
    transition_iff one_task one_task-IsValid task_id task found_task in_progress ann (at_time 20)
      none false

decide_iff_example : MayDecide task approved max_ (at_time 20) (some 1) none ↔ (
    (u : Action) × IsDecided task approved (at_time 20) none u
    × (decide_approval task_id approved max_ (at_time 20) (some 1) none one_task ≡ (
      ok u,
      stored one_task u (
          decision_event approved max_
            (at_time 20)
            (some 1)
            none
            task
            (history task_id one_task)
            u),
    )))
decide_iff_example =
    decide_iff one_task one_task-IsValid task_id task found_task approved max_ (at_time 20) (some 1)
      none

managed_task : may_manage ann task ≡ true
unfolding program
managed_task = refl

cancel_restore_example :
    (transition task_id open_ ann
      (at_time 21)
      none
      false
      (transition task_id canceled ann (at_time 20) none false one_task).1).0
    ≡ ok (restored task (at_time 21))
unfolding program
cancel_restore_example =
    cancel_restore one_task one_task-IsValid task_id task found_task ann (at_time 20) (at_time 21)
      managed_task refl refl refl

create_retry_example :
    create runtime proposal (create runtime proposal empty_repository).1
    ≡ (ok task, (create runtime proposal empty_repository).1)
create_retry_example =
    create_retry runtime proposal empty_repository task IsValid-empty created_task

abbrev with_child : Result WorkError Action × Repository
with_child = change_subtask runtime task_id none ann (at_time 20) 1 "s1" call_ann one_task

abbrev grown : Action
grown =
    with_subtasks task
      (record {
        id = "subtask-action-payload:ann:s";
        parent_id = task_id;
        title = "Find the number";
        done = false;
        due_date = none;
        owner_id = none;
        removed = false;
      }
        ∷ [])
      (at_time 20)

added_child : with_child.0 ≡ ok grown
unfolding program
added_child = refl

subtask_retry_example :
    change_subtask runtime task_id none ann (at_time 90) 1 "s1" call_ann with_child.1
    ≡ (ok grown, with_child.1)
subtask_retry_example =
    subtask_retry runtime task_id none ann "s1" call_ann one_task one_task-IsValid (at_time 20)
      (at_time 90) 1 1 grown added_child

abbrev urgent_task : Action
urgent_task = record task { id = "t2"; due_date = some 7 }

-- A second Action, which is due.
abbrev two_tasks : Repository
two_tasks = record one_task { items = ("t1", task) ∷ ("t2", urgent_task) ∷ [] }

list_actions-IsListed_example :
    Ordered Precedes (list_actions (some ann) two_tasks)
    × ((q : Action → Bool)
        → any q (list_actions (some ann) two_tasks)
          ≡ any (λ a. permits (some ann) a && q a) (list_items two_tasks))
list_actions-IsListed_example = list_actions-IsListed (some ann) two_tasks
