-- ===== src/Proposals/Execution.antt =====
-- What an execution needs, and what its repetition returns.
use btx_omni_prospect.Prelude.{
  String, Bool, true, Option, none, some, List, [], ◌≡◌, find, DateTime, arith, inl, inr,
  Option-cases, Bool-cases,
}
use btx_omni_prospect.Prelude.Result.{Result, ok, Result-cases}
use btx_omni_prospect.Work.Domain.{Action, Principal, WorkError, is_manager}
use btx_omni_prospect.Work.CrmRecords.{Proposal, Decision, Receipt}
use btx_omni_prospect.Work.Repository.{
  Repository, ActionAuditEvent, get, history, transact_audit, crm_sample_attempt, crm_attempt,
}
use btx_omni_prospect.Proposals.Adapter.{CrmActionPreview}
use btx_omni_prospect.Proposals.Log.{attempts, saved_proposal, decisions_on, last, completes}
use btx_omni_prospect.Proposals.Snapshot.{CrmProposalWorkflow, snapshot}
use btx_omni_prospect.Proposals.Sampling.{
  execute_operation, execute_sample, new_attempt, executed, is_retry_key,
}
use btx_omni_prospect.Proposals.Sound.{event_of}
use btx_omni_prospect.Proposals.Runs.{logged}

-- The Action that an execution is about, its proposal, its decision and what the adapter answered.
pub record IsExecution (x : CrmProposalWorkflow) (r : Repository) (action_id id : String)
    (expected : Option String) (key : String) (p : Principal) (now : DateTime) (receipt : Receipt)
    (s : Repository) : Type 0 where
  pub action : Action
  pub found : get action_id r ≡ some action
  pub by_manager : is_manager p ≡ true
  pub proposal : Proposal
  pub saved : saved_proposal (history action_id r) id ≡ some proposal
  pub unblocked : proposal.blockers ≡ []
  pub fresh : Proposal
  pub taken : snapshot x action ≡ ok fresh
  pub current : fresh.proposal_id ≡ id
  pub decision : Decision
  pub latest : last (decisions_on (history action_id r) id) ≡ some decision
  pub granted : decision.decision ≡ "APPROVED"
  pub named : expected ≡ some decision.decision_id
  pub not_completed : find (completes id) (attempts (history action_id r)) ≡ none
  pub result : CrmActionPreview
  pub answered : executed x action proposal ≡ ok result
  pub receipt_of : (new_attempt x id expected key p now action result).receipt ≡ receipt
  pub recorded :
      logged r (
        event_of action.id p crm_sample_attempt now
          (crm_attempt (new_attempt x id expected key p now action result)))
      ≡ s

pub transact-eq-ok :
    {A : Type 0}
    (op : Action → List ActionAuditEvent → Result WorkError (Option ActionAuditEvent × A))
    (id : String) (r s : Repository) (x : A)
    → transact_audit id op r ≡ (ok x, s)
    → (a : Action) × (get id r ≡ some a)
      × (o : Option ActionAuditEvent) × (op a (history id r) ≡ ok (o, x))
      × (elim o [ none ↦ r | some e ↦ logged r e ] ≡ s)
unfolding transact_audit
transact-eq-ok op id r s x h = elim (Option-cases (get id r)) [
  | inl absent ↦ ground arith
  | inr (a, found) ↦ elim (Result-cases (op a (history id r))) [
    | inl (f, failed) ↦ ground arith
    | inr ((none, y), returned) ↦ (a, found, none, ground arith, ground arith)
    | inr ((some e, y), returned) ↦ (a, found, some e, ground arith, ground arith)
  ]
]

-- A call that was admitted ran its operation.
pub executes-eq-ok :
    (x : CrmProposalWorkflow) (action_id id : String) (expected : Option String) (key : String)
    (p : Principal) (now : DateTime) (r s : Repository) (out : Receipt × Bool)
    → execute_sample x action_id id expected key p now r ≡ (ok out, s)
    → (is_retry_key key ≡ true)
      × (transact_audit action_id (execute_operation x id expected key p now) r ≡ (ok out, s))
unfolding execute_sample
executes-eq-ok x action_id id expected key p now r s out h = elim (Bool-cases (is_retry_key key)) [
  | inl y ↦ (y, ground arith)
  | inr n ↦ ground arith
]
