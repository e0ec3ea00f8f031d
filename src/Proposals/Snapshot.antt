-- ===== src/Proposals/Snapshot.antt =====
-- The fields of `CrmProposalWorkflow` and `_snapshot`.
use Prim.Native.String.{◌++◌ as text_append}
use btx_omni_prospect.Prelude.{
  ℕ, String, Bool, true, false, not, Option, none, some, List, [], ◌∷◌, ◌++◌, ◌==◌, nat_eq,
  string_eq, option_eq, some_truthy,
}
use btx_omni_prospect.Prelude.Json.{
  Json, null, bool, num, str, arr, obj, items, fields, strs, option_str,
}
use btx_omni_prospect.Prelude.Result.{Result, ok, err, raise_if, ◌>>◌}
use btx_omni_prospect.Work.Domain.{
  Action, ActionStatus, open_, in_progress, ApprovalStatus, pending, rejected, WorkError,
  live_crm_refused, mapping_out_of_scope,
}
use btx_omni_prospect.Work.CrmRecords.{Proposal}
use btx_omni_prospect.Work.Policy.{Runtime}
use btx_omni_prospect.Proposals.Adapter.{CrmCompany, Adapter, sample, other_port, account_company}

-- The adapter, the commercial revision, and what Python's library renders: `json.dumps` with sorted
-- keys and `default=str`, and `asdict` of an Action.
pub record CrmProposalWorkflow : Type 0 where
  pub runtime : Runtime
  pub adapter : Adapter
  pub commercial_revision : String
  pub dumps : Json → String
  pub asdict : Action → Json

-- `_hash`
unfoldable pub hash : CrmProposalWorkflow → Json → String
hash x value = x.runtime.sha256_hexdigest (x.dumps value)

abbrev pub company_id : Option CrmCompany → Option String
company_id none = none
company_id (some c) = some c.id

abbrev pub company_owner : Option CrmCompany → Option String
company_owner none = none
company_owner (some c) = c.owner_id

abbrev pub company_properties : Option CrmCompany → Json
company_properties none = null
company_properties (some c) = elim c.properties [ none ↦ null | some p ↦ p ]

unfoldable pub mapping : Action → Option CrmCompany → Json
mapping a company = obj (
    fields (
      ("company_id", option_str (company_id company))
      ∷ ("crm_owner_id", option_str (company_owner company))
      ∷ ("account_id", option_str a.account_id)
      ∷ ("truth_class", str "INTERNAL_SCENARIO_MAPPING")
      ∷ ("portal_id", null)
      ∷ ("source_mapping", company_properties company)
      ∷ []))

abbrev pub due_text : Runtime → Option ℕ → Json
due_text rt none = null
due_text rt (some d) = str (rt.date_isoformat d)

unfoldable pub payload_of : Runtime → Action → Option CrmCompany → Json
payload_of rt a company = obj (
    fields (
      ("title", str a.title)
      ∷ ("description", option_str a.description)
      ∷ ("local_owner_id", option_str a.owner_id)
      ∷ ("crm_owner_id", option_str (company_owner company))
      ∷ ("due_date", due_text rt a.due_date)
      ∷ ("evidence_ids", arr (items (strs a.evidence_ids)))
      ∷ ("company_id", option_str (company_id company))
      ∷ []))

abbrev pub is_active : ActionStatus → Bool
is_active open_ = true
is_active in_progress = true
is_active _ = false

abbrev pub is_unapproved : ApprovalStatus → Bool
is_unapproved pending = true
is_unapproved rejected = true
is_unapproved _ = false

abbrev pub blocker : Bool → String → List String
blocker true text = text ∷ []
blocker false text = []

unfoldable pub blockers_of : Action → Option CrmCompany → List String
blockers_of a company =
    blocker (not (is_active a.status)) "Action is closed; no new follow-up execution is permitted."
    ++ (blocker (not (some_truthy a.owner_id)) "Assign a local Action owner before proceeding."
        ++ (blocker (is_unapproved a.approval_status)
              "The existing Action approval must be approved before proposal execution review."
            ++ blocker (not (some_truthy (company_owner company)))
                "A scoped CRM company and owner mapping are required."))

unfoldable pub snapshot_json : CrmProposalWorkflow → Action → Option CrmCompany → Json
snapshot_json x a company = obj (
    fields (
      ("schema_version", str "BTX_CRM_PROPOSAL_1")
      ∷ ("action_id", str a.id)
      ∷ ("action_version", num a.version)
      ∷ ("account_id", option_str a.account_id)
      ∷ ("commercial_revision", str x.commercial_revision)
      ∷ ("action_fingerprint", str (hash x (x.asdict a)))
      ∷ ("mapping", mapping a company)
      ∷ ("mapping_revision", str (hash x (mapping a company)))
      ∷ ("operation", str "CREATE_FOLLOW_UP")
      ∷ ("payload", payload_of x.runtime a company)
      ∷ ("blockers", arr (items (strs (blockers_of a company))))
      ∷ ("destination", str "LOCAL_SAMPLE_ONLY")
      ∷ ("external_write", bool false)
      ∷ (
        "destination_label",
        str "Local HubSpot workflow demonstration — no HubSpot account will be changed",
      )
      ∷ []))

unfoldable pub proposal_for : CrmProposalWorkflow → Action → Option CrmCompany → Proposal
proposal_for x a company =
    let snapshot = snapshot_json x a company in
    record {
      proposal_id = text_append "crm-proposal-" (hash x snapshot);
      snapshot = snapshot;
      operation = "CREATE_FOLLOW_UP";
      payload = payload_of x.runtime a company;
      blockers = blockers_of a company;
    }

abbrev pub is_outside : Option CrmCompany → Action → Bool
is_outside none a = false
is_outside (some c) a = not (some c.account_id == a.account_id)

-- `_snapshot`
unfoldable pub snapshot : CrmProposalWorkflow → Action → Result WorkError Proposal
snapshot x a = elim x.adapter [
  | other_port ↦ err live_crm_refused
  | sample contexts available ↦ do
    raise_if (is_outside (account_company contexts available a.account_id) a) mapping_out_of_scope
    ok (proposal_for x a (account_company contexts available a.account_id))
]
