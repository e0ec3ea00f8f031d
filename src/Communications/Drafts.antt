-- ===== src/Communications/Drafts.antt =====
-- `domain/communications.py`, and the errors of the service and of its repository.
use btx_omni_prospect.Prelude.{
  ℕ, String, Bool, true, false, not, ◌||◌, Option, none, some, List, DateTime, is_empty, strip, ltb,
  if◌then◌else◌,
}
use btx_omni_prospect.Prelude.Json.{Json}
use btx_omni_prospect.Prelude.Result.{Result, ok, err, raise_if, ◌>>◌}
use btx_omni_prospect.Work.Domain.{ApprovalStatus}

pub data CommunicationStatus : Type 0 where
  draft ready sent canceled : CommunicationStatus

-- The channel is always EMAIL.
pub record CommunicationDraft : Type 0 where
  pub id : String
  pub account_id : String
  pub subject : String
  pub body : String
  pub recipients : List String
  pub created_by : String
  pub created_at : DateTime
  pub updated_at : DateTime
  pub approval_status : ApprovalStatus
  pub status : CommunicationStatus
  pub trigger : Option String
  pub evidence_ids : List String
  pub idempotency_key : Option String
  pub sent_at : Option DateTime
  pub version : ℕ

-- The event and its metadata; `append_audit` adds the draft's version to the latter.
pub data EventKind : Type 0 where
  created : (creation_fingerprint : String) → EventKind
  edited : EventKind
  ai_revised : (metadata : List (String × Json)) → EventKind
  decided : (approval_status : ApprovalStatus) → (reviewed_version : ℕ) → EventKind
  delivery_previewed : (available : Bool) → (provider : String) → (draft_version : ℕ) → EventKind
  delivery_blocked : (draft_version : ℕ) → EventKind
  delivered : (receipt : String) → EventKind

pub record CommunicationAuditEvent : Type 0 where
  pub communication_id : String
  pub actor_id : String
  pub event : EventKind
  pub occurred_at : DateTime

pub data CommunicationError : Type 0 where
  not_found forbidden manager_required changed : CommunicationError
  bad_retry_key not_current_user retry_differs : CommunicationError
  not_editable not_reviewable bad_decision : CommunicationError
  unconfirmed approval_required no_recipient delivery_failed : CommunicationError
  version_required stale_version stale_preview conflicting_identity : CommunicationError
  bad_version naive_clock subject_and_body_required : CommunicationError

-- status in {DRAFT, READY}
abbrev pub is_unsent : CommunicationStatus → Bool
is_unsent draft = true
is_unsent ready = true
is_unsent _ = false

abbrev pub is_sent : CommunicationStatus → Bool
is_sent sent = true
is_sent _ = false

abbrev pub aware_if_set : Option DateTime → Bool
aware_if_set none = true
aware_if_set (some t) = t.aware

-- `CommunicationDraft.__post_init__`
unfoldable pub make_draft : CommunicationDraft → Result CommunicationError CommunicationDraft
make_draft d = do
  raise_if (ltb d.version 1) bad_version
  raise_if (not d.created_at.aware) naive_clock
  raise_if (not d.updated_at.aware) naive_clock
  raise_if (not (aware_if_set d.sent_at)) naive_clock
  raise_if (is_empty (strip d.subject) || is_empty (strip d.body)) subject_and_body_required
  ok d

-- `CommunicationAuditEvent.__post_init__`
unfoldable pub make_event :
    String → String → EventKind → DateTime → Result CommunicationError CommunicationAuditEvent
make_event id actor kind now =
    if now.aware
    then ok (record { communication_id = id; actor_id = actor; event = kind; occurred_at = now })
    else err naive_clock
