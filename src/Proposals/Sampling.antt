-- ===== src/Proposals/Sampling.antt =====
-- `CrmProposalWorkflow.execute_sample`.
use Prim.Native.Char.{Char, code}
use Prim.Native.String.{◌++◌ as text_append}
use btx_omni_prospect.Prelude.{
  ℕ, suc, String, Bool, true, false, not, ◌&&◌, ◌||◌, Option, none, some, [], ◌∷◌, length, find,
  ◌==◌, nat_eq, string_eq, option_eq, if◌then◌else◌, leb, some_truthy, or_default, DateTime,
}
use btx_omni_prospect.Prelude.Json.{str, arr, items, option_str}
use btx_omni_prospect.Prelude.Result.{Result, ok, err, raise_if, ◌>>=◌, ◌>>◌}
use btx_omni_prospect.Prelude.Exec.{Exec}
use btx_omni_prospect.Work.Domain.{
  Action, Principal, WorkError, live_crm_refused, retry_key_required, retry_key_reused,
  approval_missing, attempt_limit,
}
use btx_omni_prospect.Work.CrmRecords.{Proposal, Decision, Receipt, Attempt}
use btx_omni_prospect.Work.Policy.{require_manage, require_manager}
use btx_omni_prospect.Work.Repository.{
  Repository, crm_sample_attempt, crm_attempt, make_event, transact_audit,
}
use btx_omni_prospect.Proposals.Adapter.{
  sample, other_port, CrmActionPreview, preview_action, execute_action,
}
use btx_omni_prospect.Proposals.Snapshot.{CrmProposalWorkflow, hash}
use btx_omni_prospect.Proposals.Log.{attempts, decisions_on, last, completes}
use btx_omni_prospect.Proposals.Decisions.{Operation, current_proposal}

-- re.fullmatch(r'[A-Za-z0-9._-]{8,64}', key)
abbrev pub is_key_char : Char → Bool
is_key_char c =
    let n = code c in
    leb 65 n && leb n 90
    || leb 97 n && leb n 122
    || leb 48 n && leb n 57
    || n == 46
    || n == 95
    || n == 45

unfoldable pub all_key_chars : String → Bool
all_key_chars String.[] = true
all_key_chars (String.◌∷◌ c s) = is_key_char c && all_key_chars s

unfoldable pub text_length : String → ℕ
text_length String.[] = 0
text_length (String.◌∷◌ c s) = suc (text_length s)

unfoldable pub is_retry_key : String → Bool
is_retry_key key = all_key_chars key && leb 8 (text_length key) && leb (text_length key) 64

unfoldable pub key_hash : CrmProposalWorkflow → Principal → String → String
key_hash x p key = hash x (arr (items (str p.user_id ∷ str key ∷ [])))

unfoldable pub request_fingerprint_of : CrmProposalWorkflow → String → Option String → String
request_fingerprint_of x id expected =
    hash x (arr (items (str id ∷ option_str expected ∷ str "LOCAL_SAMPLE_ONLY" ∷ [])))

abbrev pub is_approval : Option String → Option Decision → Bool
is_approval expected none = false
is_approval expected (some d) = d.decision == "APPROVED" && some d.decision_id == expected

abbrev pub status_text : CrmActionPreview → String
status_text r =
    if r.executed && not (some_truthy r.unavailable_reason)
    then "SAMPLE_COMPLETED"
    else "SAMPLE_FAILED"

abbrev pub detail_text : CrmActionPreview → String
detail_text r =
    or_default r.unavailable_reason
      "Local sample attempt recorded. No HubSpot record was created or updated."

-- An attempt is made only with the identifier of a decision.
abbrev pub text_of : Option String → String
text_of none = ""
text_of (some s) = s

unfoldable pub new_attempt :
    CrmProposalWorkflow
    → String
    → Option String
    → String
    → Principal
    → DateTime
    → Action
    → CrmActionPreview
    → Attempt
new_attempt x id expected key p now a result = record {
  receipt = record {
    proposal_id = id;
    attempt_id =
        text_append "crm-attempt-" (hash x (arr (items (str a.id ∷ str (key_hash x p key) ∷ []))));
    decision_id = text_of expected;
    actor_id = p.user_id;
    attempted_at = x.runtime.datetime_isoformat now;
    status = status_text result;
    detail = detail_text result;
  };
  request_key_hash = key_hash x p key;
  request_fingerprint = request_fingerprint_of x id expected;
}

-- The two calls of the adapter, of a proposal that was approved; `snapshot` refuses another port first.
unfoldable pub executed :
    CrmProposalWorkflow → Action → Proposal → Result WorkError CrmActionPreview
executed x a proposal = elim x.adapter [
  | other_port ↦ err live_crm_refused
  | sample contexts available ↦
      execute_action available
        (record (preview_action a.id a.account_id proposal.operation proposal.payload) {
          confirmed = true;
        })
]

-- A receipt and whether it is that of an earlier attempt.
unfoldable pub first_attempt :
    CrmProposalWorkflow
    → String
    → Option String
    → String
    → Principal
    → DateTime
    → Operation (Receipt × Bool)
first_attempt x id expected key p now a history = do
  proposal ← current_proposal x a history id
  raise_if (not (is_approval expected (last (decisions_on history id)))) approval_missing
  elim (find (completes id) (attempts history)) [
    | some successful ↦ ok (none, (successful.receipt, true))
    | none ↦ do
      raise_if (leb 50 (length (attempts history))) attempt_limit
      result ← executed x a proposal
      event ←
          make_event a.id p crm_sample_attempt now
            (crm_attempt (new_attempt x id expected key p now a result))
      ok (some event, ((new_attempt x id expected key p now a result).receipt, false))
  ]

unfoldable pub execute_operation :
    CrmProposalWorkflow
    → String
    → Option String
    → String
    → Principal
    → DateTime
    → Operation (Receipt × Bool)
execute_operation x id expected key p now a history = do
  require_manager p
  require_manage p a
  elim (find (λ t. t.request_key_hash == key_hash x p key) (attempts history)) [
    | some replay ↦ do
      raise_if (not (replay.request_fingerprint == request_fingerprint_of x id expected))
          retry_key_reused
      ok (none, (replay.receipt, true))
    | none ↦ first_attempt x id expected key p now a history
  ]

unfoldable pub execute_sample :
    CrmProposalWorkflow
    → String
    → String
    → Option String
    → String
    → Principal
    → DateTime
    → Exec Repository WorkError (Receipt × Bool)
execute_sample x action_id id expected key p now r =
    if is_retry_key key
    then transact_audit action_id (execute_operation x id expected key p now) r
    else (err retry_key_required, r)
