-- ===== src/Proposals/Examples.antt =====
-- A follow-up that is proposed, approved and run once, and each theorem at it.
use btx_omni_prospect.Prelude.{true, false, none, some, List, [], ◌∷◌, ◌≡◌, refl, arith, string_eq}
use btx_omni_prospect.Prelude.Dict.{lookup}
use btx_omni_prospect.Prelude.Result.{ok, err}
use btx_omni_prospect.Work.Domain.{approval_missing, manager_required}
use btx_omni_prospect.Work.CrmRecords.{Proposal, Decision, Receipt}
use btx_omni_prospect.Work.Policy.{require_manage, require_manager, may_manage}
use btx_omni_prospect.Work.Repository.{Repository, get, history, make_event, transact_audit}
use btx_omni_prospect.Proposals.Adapter.{account_company, preview_action, execute_action}
use btx_omni_prospect.Proposals.Log.{proposals, decisions, attempts, saved_proposal, decisions_on}
use btx_omni_prospect.Proposals.Snapshot.{
  hash, mapping, payload_of, blockers_of, snapshot_json, proposal_for, snapshot,
}
use btx_omni_prospect.Proposals.Decisions.{
  saved_preview, preview_operation, current_proposal, decision_identifier, new_decision,
  decide_operation, preview, decide,
}
use btx_omni_prospect.Proposals.Sampling.{
  all_key_chars, text_length, is_retry_key, key_hash, request_fingerprint_of, new_attempt, executed,
  first_attempt, execute_operation, execute_sample,
}
use btx_omni_prospect.Proposals.Inspecting.{inspect_operation, inspect}
use btx_omni_prospect.Proposals.Calls.{Call, previews, decides_on, executes, call, calls}
use btx_omni_prospect.Proposals.Runs.{IsLogged, calls-IsLogged}
use btx_omni_prospect.Proposals.Completion.{IsReady, execute_sample_ready}
use btx_omni_prospect.Proposals.Repetition.{execution_again}
use btx_omni_prospect.Proposals.Scenario.{
  clockwork, company, flow, at, task, boss, seller, store, plan_id, decision_id, reviewed, receipt,
  finished,
}

proposals_program : Unit {0}
unfolding calls call preview decide execute_sample transact_audit get history lookup make_event
    preview_operation saved_preview decide_operation execute_operation first_attempt
    current_proposal snapshot proposal_for snapshot_json hash mapping payload_of blockers_of
    account_company preview_action execute_action executed new_decision decision_identifier
    new_attempt key_hash request_fingerprint_of is_retry_key all_key_chars text_length
    saved_proposal proposals decisions attempts decisions_on require_manage require_manager
    may_manage inspect inspect_operation
proposals_program = tt

it_runs_once :
    execute_sample flow "t1" plan_id (some decision_id) "key-0001" boss (at 4) reviewed
    ≡ (ok (receipt, false), finished)
unfolding proposals_program
it_runs_once = refl

-- Before the approval it does not run, and a salesperson never runs it.
needs_approval :
    (execute_sample flow "t1" plan_id
      (some decision_id)
      "key-0001"
      boss
      (at 4)
      (calls clockwork (previews flow "t1" 1 seller (at 2) ∷ []) store)).0
    ≡ err approval_missing
unfolding proposals_program
needs_approval = refl

needs_manager :
    (execute_sample flow "t1" plan_id (some decision_id) "key-0001" seller (at 4) reviewed).0
    ≡ err manager_required
unfolding proposals_program
needs_manager = refl

store-IsLogged : IsLogged store
unfolding get history lookup proposals decisions attempts
store-IsLogged = record {
  own_id = λ id a found. ground (arith, string_eq.same_iff "t1" id);
  logs = λ id. record {
    few_proposals = ground arith;
    few_attempts = ground arith;
    saved_once = λ k. ground arith;
    completed_once = λ k. ground arith;
    approved = refl;
    about_saved = refl;
  };
}

abbrev course : List Call
course =
    previews flow "t1" 1 seller (at 2)
    ∷ decides_on flow "t1" plan_id "APPROVED" none boss (at 3)
    ∷ executes flow "t1" plan_id (some decision_id) "key-0001" boss (at 4)
    ∷ []

reviewed-IsLogged : IsLogged reviewed
reviewed-IsLogged =
    calls-IsLogged clockwork
      (previews flow "t1" 1 seller (at 2)
        ∷ decides_on flow "t1" plan_id "APPROVED" none boss (at 3)
        ∷ [])
      store store-IsLogged

calls-IsLogged_example : IsLogged (calls clockwork course store)
calls-IsLogged_example = calls-IsLogged clockwork course store store-IsLogged

execution_again_example :
    execute_sample flow "t1" plan_id (some decision_id) "key-0001" boss (at 9) finished
    ≡ (ok (receipt, true), finished)
execution_again_example =
    execution_again flow "t1" plan_id (some decision_id) "key-0001" boss (at 4) (at 9) reviewed
      finished receipt false reviewed-IsLogged it_runs_once

abbrev proposed : Proposal
proposed = proposal_for flow task (some company)

abbrev approval : Decision
approval = new_decision flow plan_id boss "APPROVED" none (at 3)

reviewed-IsReady : IsReady flow reviewed "t1" plan_id "key-0001" boss (at 4) approval
unfolding proposals_program
reviewed-IsReady = record {
  contexts = ("acc", some company) ∷ [];
  available = refl;
  usable_key = refl;
  by_manager = refl;
  timed = refl;
  action = task;
  found = refl;
  proposal = proposed;
  saved = refl;
  unblocked = refl;
  fresh = proposed;
  taken = refl;
  current = refl;
  latest = refl;
  granted = refl;
  new_key = refl;
  not_completed = refl;
  room = refl;
}

execute_sample_ready_example :
    (receipt : Receipt) × (s : Repository) × (execute_sample flow "t1" plan_id
        (some approval.decision_id)
        "key-0001"
        boss
        (at 4)
        reviewed
      ≡ (ok (receipt, false), s))
    × (receipt.status ≡ "SAMPLE_COMPLETED")
execute_sample_ready_example =
    execute_sample_ready flow reviewed "t1" plan_id "key-0001" boss (at 4) approval reviewed-IsReady
