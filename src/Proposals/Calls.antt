-- ===== src/Proposals/Calls.antt =====
-- Calls of the Action workflow and of the CRM proposals, in any order.
use btx_omni_prospect.Prelude.{ℕ, String, Option, List, [], ◌∷◌, DateTime}
use btx_omni_prospect.Work.Domain.{Principal}
use btx_omni_prospect.Work.Policy.{Runtime}
use btx_omni_prospect.Work.Repository.{Repository}
use btx_omni_prospect.Work.Commands.{Command, execute}
use btx_omni_prospect.Proposals.Snapshot.{CrmProposalWorkflow}
use btx_omni_prospect.Proposals.Decisions.{preview, decide}
use btx_omni_prospect.Proposals.Sampling.{execute_sample}
use btx_omni_prospect.Proposals.Inspecting.{inspect}

-- Each CRM call has the workflow object of its own request.
pub data Call : Type 0 where
  works : Command → Call
  previews : CrmProposalWorkflow → (action : String) → ℕ → Principal → DateTime → Call
  decides_on :
      CrmProposalWorkflow
      → (action proposal decision : String) → (expected : Option String) → Principal
      → DateTime
      → Call
  executes :
      CrmProposalWorkflow
      → (action proposal : String) → (expected : Option String) → (key : String) → Principal
      → DateTime
      → Call
  inspects : CrmProposalWorkflow → (action : String) → Principal → Call

unfoldable pub call : Runtime → Call → Repository → Repository
call rt (works c) r = (execute rt c r).1
call rt (previews x a expected p now) r = (preview x a expected p now r).1
call rt (decides_on x a id decision expected p now) r = (decide x a id decision expected p now r).1
call rt (executes x a id expected key p now) r = (execute_sample x a id expected key p now r).1
call rt (inspects x a p) r = (inspect x a p r).1

-- A call that raises ends itself only.
unfoldable pub calls : Runtime → List Call → Repository → Repository
calls rt [] r = r
calls rt (c ∷ rest) r = calls rt rest (call rt c r)
