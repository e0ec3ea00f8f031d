-- ===== src/Proposals/Decisions.antt =====
-- `CrmProposalWorkflow.preview`, `_current` and `decide`.
use Prim.Native.String.{◌++◌ as text_append}
use btx_omni_prospect.Prelude.{
  ℕ, String, Bool, true, false, not, ◌||◌, Option, none, some, List, [], ◌∷◌, length, find, ◌==◌,
  nat_eq, string_eq, option_eq, if◌then◌else◌, leb, DateTime,
}
use btx_omni_prospect.Prelude.Json.{str, arr, items, option_str}
use btx_omni_prospect.Prelude.Result.{Result, ok, err, raise_if, ◌>>=◌, ◌>>◌}
use btx_omni_prospect.Prelude.Exec.{Exec}
use btx_omni_prospect.Work.Domain.{
  Action, Principal, WorkError, version_changed, proposal_limit, no_saved_proposal,
  proposal_outdated, blocked_by, unsupported_decision, decision_changed,
}
use btx_omni_prospect.Work.CrmRecords.{Proposal, Decision}
use btx_omni_prospect.Work.Policy.{require_manage, require_manager}
use btx_omni_prospect.Work.Repository.{
  Repository, ActionAuditEvent, crm_proposed, crm_decided, crm_proposal, crm_decision, make_event,
  transact_audit,
}
use btx_omni_prospect.Proposals.Snapshot.{CrmProposalWorkflow, hash, snapshot}
use btx_omni_prospect.Proposals.Log.{proposals, saved_proposal, decisions_on, last}

-- What an operation of `transact_audit` returns: an event to append, if any, and a result.
abbrev pub Operation : Type 0 → Type 0
Operation A = Action → List ActionAuditEvent → Result WorkError (Option ActionAuditEvent × A)

unfoldable pub saved_preview : Principal → DateTime → Proposal → Operation Proposal
saved_preview p now proposal a history = elim (saved_proposal history proposal.proposal_id) [
  | some earlier ↦ ok (none, proposal)
  | none ↦ do
    raise_if (leb 50 (length (proposals history))) proposal_limit
    event ← make_event a.id p crm_proposed now (crm_proposal proposal)
    ok (some event, proposal)
]

unfoldable pub preview_operation :
    CrmProposalWorkflow → ℕ → Principal → DateTime → Operation Proposal
preview_operation x expected p now a history = do
  require_manage p a
  raise_if (not (a.version == expected)) version_changed
  proposal ← snapshot x a
  saved_preview p now proposal a history

abbrev pub is_blocked : List String → Bool
is_blocked [] = false
is_blocked (b ∷ bs) = true

-- `_current`
unfoldable pub current_proposal :
    CrmProposalWorkflow → Action → List ActionAuditEvent → String → Result WorkError Proposal
current_proposal x a history id = elim (saved_proposal history id) [
  | none ↦ err no_saved_proposal
  | some proposal ↦ do
    now_proposed ← snapshot x a
    raise_if (not (now_proposed.proposal_id == id)) proposal_outdated
    raise_if (is_blocked proposal.blockers) (blocked_by proposal.blockers)
    ok proposal
]

abbrev pub decision_id? : Option Decision → Option String
decision_id? none = none
decision_id? (some d) = some d.decision_id

unfoldable pub decision_identifier :
    CrmProposalWorkflow → String → Principal → String → Option String → String
decision_identifier x id p decision expected =
    text_append "crm-decision-"
      (hash x (arr (items (str id ∷ str p.user_id ∷ str decision ∷ option_str expected ∷ []))))

unfoldable pub new_decision :
    CrmProposalWorkflow → String → Principal → String → Option String → DateTime → Decision
new_decision x id p decision expected now = record {
  proposal_id = id;
  decision_id = decision_identifier x id p decision expected;
  decision = decision;
  actor_id = p.user_id;
  decided_at = x.runtime.datetime_isoformat now;
}

-- A decision and whether it is the current one.
unfoldable pub decide_operation :
    CrmProposalWorkflow
    → String
    → String
    → Option String
    → Principal
    → DateTime
    → Operation (Decision × Bool)
decide_operation x id decision expected p now a history = do
  require_manager p
  require_manage p a
  current_proposal x a history id
  let earlier = decisions_on history id
  let prior = decision_id? (last earlier)
  let identifier = decision_identifier x id p decision expected
  elim (find (λ d. d.decision_id == identifier) earlier) [
    | some replay ↦ ok (none, (replay, prior == some identifier))
    | none ↦ do
      raise_if (not (expected == prior)) decision_changed
      event ←
          make_event a.id p crm_decided now
            (crm_decision (new_decision x id p decision expected now))
      ok (some event, (new_decision x id p decision expected now, true))
  ]

unfoldable pub preview :
    CrmProposalWorkflow → String → ℕ → Principal → DateTime → Exec Repository WorkError Proposal
preview x action_id expected p now = transact_audit action_id (preview_operation x expected p now)

abbrev pub is_decision : String → Bool
is_decision d = d == "APPROVED" || d == "REJECTED"

unfoldable pub decide :
    CrmProposalWorkflow
    → String
    → String
    → String
    → Option String
    → Principal
    → DateTime
    → Exec Repository WorkError (Decision × Bool)
decide x action_id id decision expected p now r =
    if is_decision decision
    then transact_audit action_id (decide_operation x id decision expected p now) r
    else (err unsupported_decision, r)
