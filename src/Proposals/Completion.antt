-- ===== src/Proposals/Completion.antt =====
-- When an execution goes through.
use btx_omni_prospect.Prelude.{
  String, true, false, Option, none, some, List, [], ◌≡◌, refl, find, length, DateTime, arith, ◌==◌,
  string_eq, option_eq, beq_refl, leb,
}
use btx_omni_prospect.Prelude.Result.{ok}
use btx_omni_prospect.Work.Domain.{Action, Principal, is_manager}
use btx_omni_prospect.Work.CrmRecords.{Proposal, Decision, Receipt, Attempt}
use btx_omni_prospect.Work.Policy.{require_manage, require_manager, may_manage}
use btx_omni_prospect.Work.Repository.{
  Repository, get, history, transact_audit, make_event, crm_sample_attempt, crm_attempt,
}
use btx_omni_prospect.Proposals.Adapter.{
  CrmCompany, sample, CrmActionPreview, preview_action, execute_action,
}
use btx_omni_prospect.Proposals.Log.{attempts, saved_proposal, decisions_on, last, completes}
use btx_omni_prospect.Proposals.Snapshot.{CrmProposalWorkflow, snapshot}
use btx_omni_prospect.Proposals.Decisions.{current_proposal}
use btx_omni_prospect.Proposals.Sampling.{
  first_attempt, execute_operation, execute_sample, new_attempt, executed, key_hash, is_retry_key,
}
use btx_omni_prospect.Proposals.Sound.{event_of}
use btx_omni_prospect.Proposals.Runs.{logged}

-- A saved proposal that is current, unblocked, approved and not yet completed, an adapter that is
-- available, and a manager's call with an unused key.
pub record IsReady (x : CrmProposalWorkflow) (r : Repository) (action_id id key : String)
    (p : Principal) (now : DateTime) (d : Decision) : Type 0 where
  pub contexts : List (String × Option CrmCompany)
  pub available : x.adapter ≡ sample contexts true
  pub usable_key : is_retry_key key ≡ true
  pub by_manager : is_manager p ≡ true
  pub timed : now.aware ≡ true
  pub action : Action
  pub found : get action_id r ≡ some action
  pub proposal : Proposal
  pub saved : saved_proposal (history action_id r) id ≡ some proposal
  pub unblocked : proposal.blockers ≡ []
  pub fresh : Proposal
  pub taken : snapshot x action ≡ ok fresh
  pub current : fresh.proposal_id ≡ id
  pub latest : last (decisions_on (history action_id r) id) ≡ some d
  pub granted : d.decision ≡ "APPROVED"
  pub new_key :
      find (λ t. t.request_key_hash == key_hash x p key) (attempts (history action_id r)) ≡ none
  pub not_completed : find (completes id) (attempts (history action_id r)) ≡ none
  pub room : leb 50 (length (attempts (history action_id r))) ≡ false

module _ (x : CrmProposalWorkflow) (r : Repository) (action_id id key : String) (p : Principal)
    (now : DateTime) (d : Decision) (v : IsReady x r action_id id key p now d) where
  abbrev answer : CrmActionPreview
  answer =
      record (preview_action v.action.id v.action.account_id v.proposal.operation
        v.proposal.payload) { confirmed = true; executed = true }

  executed-eq : executed x v.action v.proposal ≡ ok answer
  unfolding executed execute_action preview_action
  executed-eq = ground (arith, v.available)

  current-eq : current_proposal x v.action (history action_id r) id ≡ ok v.proposal
  unfolding current_proposal
  current-eq =
      ground
        (arith, v.saved, v.unblocked, v.taken, v.current, string_eq.same_iff v.fresh.proposal_id id)

  abbrev completed : Attempt
  completed = new_attempt x id (some d.decision_id) key p now v.action answer

  first_attempt-eq :
      first_attempt x id (some d.decision_id) key p now v.action (history action_id r)
      ≡ ok (
        some (event_of v.action.id p crm_sample_attempt now (crm_attempt completed)),
        (completed.receipt, false),
      )
  unfolding first_attempt make_event
  first_attempt-eq = ground (
    arith,
    current-eq,
    executed-eq,
    v.latest,
    v.granted,
    v.not_completed,
    v.room,
    v.timed,
    beq_refl d.decision_id,
    string_eq.same_iff d.decision "APPROVED",
  )

  completed-status : completed.receipt.status ≡ "SAMPLE_COMPLETED"
  unfolding new_attempt preview_action
  completed-status = refl

-- What is ready is completed: the call of a manager, with an unused key, for a current, unblocked and
-- approved proposal that was not completed returns a new receipt with status SAMPLE_COMPLETED, if the
-- adapter is available and fewer than 50 attempts were recorded.
pub execute_sample_ready :
    (x : CrmProposalWorkflow) (r : Repository) (action_id id key : String) (p : Principal)
    (now : DateTime) (d : Decision)
    → IsReady x r action_id id key p now d
    → (receipt : Receipt) × (s : Repository) × (execute_sample x action_id id
          (some d.decision_id)
          key
          p
          now
          r
        ≡ (ok (receipt, false), s))
      × (receipt.status ≡ "SAMPLE_COMPLETED")
unfolding execute_sample transact_audit execute_operation require_manager require_manage may_manage
execute_sample_ready x r action_id id key p now d v =
    let t = completed x r action_id id key p now d v in
    (
      t.receipt,
      logged r (event_of v.action.id p crm_sample_attempt now (crm_attempt t)),
      ground (
        arith,
        v.usable_key,
        v.found,
        v.by_manager,
        v.new_key,
        first_attempt-eq x r action_id id key p now d v,
      ),
      completed-status x r action_id id key p now d v,
    )
