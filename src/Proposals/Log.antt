-- ===== src/Proposals/Log.antt =====
-- The CRM events in the audit log of an Action.
use btx_omni_prospect.Prelude.{
  true, false, String, Bool, ◌&&◌, Option, none, some, List, [], ◌∷◌, find, select, ◌==◌, string_eq,
}
use btx_omni_prospect.Work.CrmRecords.{Proposal, Decision, Attempt}
use btx_omni_prospect.Work.Repository.{
  ActionAuditEvent, EventName, crm_proposed, crm_decided, crm_sample_attempt, Metadata,
  crm_proposal, crm_decision, crm_attempt,
}

-- event == 'CRM_PROPOSED', with its metadata
abbrev pub proposal_of : EventName → Metadata → Option Proposal
proposal_of crm_proposed (crm_proposal p) = some p
proposal_of crm_proposed _ = none
proposal_of _ m = none

abbrev pub decision_of : EventName → Metadata → Option Decision
decision_of crm_decided (crm_decision d) = some d
decision_of crm_decided _ = none
decision_of _ m = none

abbrev pub attempt_of : EventName → Metadata → Option Attempt
attempt_of crm_sample_attempt (crm_attempt a) = some a
attempt_of crm_sample_attempt _ = none
attempt_of _ m = none

abbrev pub consed {ℓ} : {A : Type ℓ} → Option A → List A → List A
consed none xs = xs
consed (some x) xs = x ∷ xs

-- [event.metadata for event in history if event.event == …]
abbrev pub gather {ℓ} :
    {A : Type ℓ} → (EventName → Metadata → Option A) → List ActionAuditEvent → List A
gather f [] = []
gather f (e ∷ es) = consed (f e.event e.metadata) (gather f es)

unfoldable pub proposals : List ActionAuditEvent → List Proposal
proposals es = gather proposal_of es

unfoldable pub decisions : List ActionAuditEvent → List Decision
decisions es = gather decision_of es

unfoldable pub attempts : List ActionAuditEvent → List Attempt
attempts es = gather attempt_of es

-- `_proposal`
unfoldable pub saved_proposal : List ActionAuditEvent → String → Option Proposal
saved_proposal es id = find (λ p. p.proposal_id == id) (proposals es)

abbrev pub decides_on : String → Decision → Bool
decides_on id d = d.proposal_id == id

unfoldable pub decisions_on : List ActionAuditEvent → String → List Decision
decisions_on es id = select (decides_on id) (decisions es)

-- xs[-1] if xs else None
abbrev pub last {ℓ} : {A : Type ℓ} → List A → Option A
last [] = none
last (x ∷ xs) = let rest = last xs in elim rest [ none ↦ some x | some y ↦ some y ]

abbrev pub completes : String → Attempt → Bool
completes id a = a.receipt.proposal_id == id && a.receipt.status == "SAMPLE_COMPLETED"

abbrev pub is_crm : EventName → Bool
is_crm crm_proposed = true
is_crm crm_decided = true
is_crm crm_sample_attempt = true
is_crm _ = false
