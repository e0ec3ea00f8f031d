-- ===== src/Proposals/Inspecting.antt =====
-- `CrmProposalWorkflow.inspect`.
use btx_omni_prospect.Prelude.{
  ℕ, ◌-◌, String, none, List, [], ◌∷◌, length, select, nat_eq, string_eq, option_eq, if◌then◌else◌,
  leb,
}
use btx_omni_prospect.Prelude.Result.{ok, ◌>>=◌, ◌>>◌}
use btx_omni_prospect.Prelude.Exec.{Exec}
use btx_omni_prospect.Work.Domain.{Principal, WorkError}
use btx_omni_prospect.Work.Policy.{require_manage}
use btx_omni_prospect.Work.Repository.{Repository, ActionAuditEvent, transact_audit}
use btx_omni_prospect.Proposals.Snapshot.{CrmProposalWorkflow, snapshot}
use btx_omni_prospect.Proposals.Log.{is_crm}
use btx_omni_prospect.Proposals.Decisions.{Operation}

abbrev pub keep_last {ℓ} : {A : Type ℓ} → ℕ → List A → List A
keep_last n [] = []
keep_last n (x ∷ xs) = let rest = keep_last n xs in if leb (length (x ∷ xs)) n then x ∷ xs else rest

-- The CRM events that are shown; the keys `request_` of their metadata are left out there.
pub record Inspection : Type 0 where
  pub action_version : ℕ
  pub current_proposal_id : String
  pub events : List ActionAuditEvent
  pub earlier_event_count : ℕ

unfoldable pub inspect_operation : CrmProposalWorkflow → Principal → Operation Inspection
inspect_operation x p a history = do
  require_manage p a
  current ← snapshot x a
  let events : List ActionAuditEvent = select (λ e. is_crm e.event) history
  ok (
    none,
    record {
      action_version = a.version;
      current_proposal_id = current.proposal_id;
      events = keep_last 100 events;
      earlier_event_count = length events - 100;
    },
  )

unfoldable pub inspect :
    CrmProposalWorkflow → String → Principal → Exec Repository WorkError Inspection
inspect x action_id p = transact_audit action_id (inspect_operation x p)
