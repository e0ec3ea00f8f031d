-- ===== src/Proposals/Scenario.antt =====
-- A follow-up that is proposed, approved and run once: the data of the tests.
use btx_omni_prospect.Prelude.{ℕ, String, true, none, some, [], ◌∷◌, DateTime, string_eq}
use btx_omni_prospect.Prelude.Json.{null}
use btx_omni_prospect.Work.Domain.{
  Action, Principal, open_, medium, not_required, manager, salesperson,
}
use btx_omni_prospect.Work.CrmRecords.{Receipt}
use btx_omni_prospect.Work.Policy.{Runtime}
use btx_omni_prospect.Work.Repository.{Repository, crm_sample_attempt, crm_attempt}
use btx_omni_prospect.Proposals.Adapter.{CrmCompany, sample, CrmActionPreview, preview_action}
use btx_omni_prospect.Proposals.Snapshot.{CrmProposalWorkflow, payload_of}
use btx_omni_prospect.Proposals.Sampling.{new_attempt}
use btx_omni_prospect.Proposals.Calls.{previews, decides_on, calls}
use btx_omni_prospect.Proposals.Sound.{event_of}
use btx_omni_prospect.Proposals.Runs.{logged}

abbrev pub clockwork : Runtime
clockwork = record {
  sha256_hexdigest = λ s. s;
  json_dumps = λ j. "payload";
  json_dumps_compact = λ j. "proposal";
  datetime_isoformat = λ t. "now";
  date_isoformat = λ d. "day";
  tenant_id = none;
}

abbrev pub company : CrmCompany
company = record { id = "c1"; account_id = "acc"; owner_id = some "crm-owner"; properties = none }

abbrev pub flow : CrmProposalWorkflow
flow = record {
  runtime = clockwork;
  adapter = sample (("acc", some company) ∷ []) true;
  commercial_revision = "r1";
  dumps = λ j. "digest";
  asdict = λ a. null;
}

abbrev pub at : ℕ → DateTime
at n = record { instant = n; aware = true }

abbrev pub task : Action
task = record {
  id = "t1";
  account_id = some "acc";
  title = "Call the buyer";
  description = none;
  owner_id = some "ann";
  priority = medium;
  due_date = none;
  status = open_;
  approval_status = not_required;
  source_suggestion_id = none;
  evidence_ids = [];
  created_by = "ann";
  created_at = at 1;
  updated_at = at 1;
  completed_at = none;
  canceled_at = none;
  version = 1;
  context_referents = [];
  previous_status = none;
  approval_requested_by = none;
  approval_comment = none;
  subtasks = [];
}

abbrev pub boss : Principal
boss = record { user_id = "max"; display_name = "Max"; role = manager; tenant_id = none }

abbrev pub seller : Principal
seller = record boss { user_id = "ann"; role = salesperson }

abbrev pub store : Repository
store = record { items = ("t1", task) ∷ []; events = []; dismissed = []; dismissed_actors = [] }

abbrev pub plan_id : String
plan_id = "crm-proposal-digest"

abbrev pub decision_id : String
decision_id = "crm-decision-digest"

abbrev pub reviewed : Repository
reviewed =
    calls clockwork
      (previews flow "t1" 1 seller (at 2)
        ∷ decides_on flow "t1" plan_id "APPROVED" none boss (at 3)
        ∷ [])
      store

abbrev pub reply : CrmActionPreview
reply =
    record (preview_action "t1" (some "acc") "CREATE_FOLLOW_UP"
      (payload_of clockwork task (some company))) { confirmed = true; executed = true }

abbrev pub receipt : Receipt
receipt = record {
  proposal_id = plan_id;
  attempt_id = "crm-attempt-digest";
  decision_id = decision_id;
  actor_id = "max";
  attempted_at = "now";
  status = "SAMPLE_COMPLETED";
  detail = "Local sample attempt recorded. No HubSpot record was created or updated.";
}

abbrev pub finished : Repository
finished = logged reviewed (
    event_of "t1" boss crm_sample_attempt (at 4)
      (crm_attempt (new_attempt flow plan_id (some decision_id) "key-0001" boss (at 4) task reply)))
