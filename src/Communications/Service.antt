-- ===== src/Communications/Service.antt =====
-- `CommunicationService`.
use btx_omni_prospect.Prelude.{
  ℕ, String, Bool, true, false, not, ◌||◌, ◌+◌, Option, none, some, List, [], ◌∷◌, ◌==◌, string_eq,
  nat_eq, option_eq, strip, DateTime, if◌then◌else◌,
}
use btx_omni_prospect.Prelude.Json.{Json}
use btx_omni_prospect.Prelude.Result.{Result, ok, err, raise_if, ◌>>=◌, ◌>>◌}
use btx_omni_prospect.Prelude.Exec.{Exec}
use btx_omni_prospect.Work.Domain.{
  ApprovalStatus, pending, approved, rejected, Principal, is_manager,
}
use btx_omni_prospect.Communications.Drafts.{
  draft, ready, sent, CommunicationDraft, EventKind, edited, ai_revised, decided,
  delivery_previewed, delivery_blocked, delivered, CommunicationAuditEvent, CommunicationError,
  not_found, forbidden, manager_required, changed, not_editable, not_reviewable, bad_decision,
  unconfirmed, approval_required, no_recipient, delivery_failed, is_unsent, is_sent, make_draft,
  make_event,
}
use btx_omni_prospect.Communications.Repository.{Repository, get, update_draft, append_audit}

-- Python's library, and the values of `uuid4`.
pub record Runtime : Type 0 where
  pub sha256_hexdigest : String → String
  pub json_dumps : Json → String
  -- with ensure_ascii=False
  pub json_dumps_plain : Json → String

-- `CommunicationDeliveryPort`, a provider outside the program, as it answers one call: a receipt, or
-- an exception.
pub record DeliveryPort : Type 0 where
  pub preview_available : CommunicationDraft → Bool
  pub preview_provider : CommunicationDraft → String
  pub send_receipt : CommunicationDraft → (idempotency_key : String) → Option String

-- `_can_manage`
unfoldable pub can_manage : Principal → CommunicationDraft → Bool
can_manage p d = is_manager p || d.created_by == p.user_id

-- `_check_version`
unfoldable pub check_version : CommunicationDraft → Option ℕ → Result CommunicationError (Unit {0})
check_version d none = ok tt
check_version d (some v) = raise_if (not (d.version == v)) changed

-- Keep the draft, save a new version of it, or record an event and raise.
pub data Outcome : Type 0 where
  keep : Outcome
  change : (updated : CommunicationDraft) (event : CommunicationAuditEvent) → Outcome
  block : (event : CommunicationAuditEvent) → Outcome

unfoldable pub blocked :
    CommunicationDraft
    → CommunicationAuditEvent
    → Exec Repository CommunicationError CommunicationDraft
blocked d e r =
    let (noted, s) = append_audit d e r in
    elim noted [ ok u ↦ (err delivery_failed, s) | err x ↦ (err x, s) ]

abbrev pub perform :
    CommunicationDraft
    → Result CommunicationError Outcome
    → Exec Repository CommunicationError CommunicationDraft
perform d (err e) r = (err e, r)
perform d (ok keep) r = (ok d, r)
perform d (ok (change updated event)) r = update_draft updated event d.version r
perform d (ok (block event)) r = blocked d event r

unfoldable pub on_draft :
    String
    → (CommunicationDraft → Result CommunicationError Outcome)
    → Exec Repository CommunicationError CommunicationDraft
on_draft id plan r = elim (get id r) [ none ↦ (err not_found, r) | some d ↦ perform d (plan d) r ]

pub record EditArgs : Type 0 where
  pub subject : Option String
  pub body : Option String
  pub recipients : Option (List String)
  -- none also for an empty dict
  pub ai_metadata : Option (List (String × Json))

abbrev pub if_given {ℓ} : {A : Type ℓ} → Option A → A → A
if_given none a = a
if_given (some b) a = b

unfoldable pub edited_draft : EditArgs → DateTime → CommunicationDraft → CommunicationDraft
edited_draft c now d = record d {
  subject = strip (if_given c.subject d.subject);
  body = strip (if_given c.body d.body);
  recipients = if_given c.recipients d.recipients;
  approval_status = pending;
  status = draft;
  updated_at = now;
  version = d.version + 1;
}

abbrev pub edit_event : EditArgs → EventKind
edit_event c = elim c.ai_metadata [ none ↦ edited | some m ↦ ai_revised m ]

unfoldable pub edit_plan :
    Principal
    → DateTime
    → EditArgs
    → Option ℕ
    → CommunicationDraft
    → Result CommunicationError Outcome
edit_plan p now c expected d = do
  raise_if (not (can_manage p d)) forbidden
  check_version d expected
  raise_if (not (is_unsent d.status)) not_editable
  updated ← make_draft (edited_draft c now d)
  event ← make_event d.id p.user_id (edit_event c) now
  ok (change updated event)

unfoldable pub edit :
    String
    → Principal
    → DateTime
    → EditArgs
    → Option ℕ
    → Exec Repository CommunicationError CommunicationDraft
edit id p now c expected = on_draft id (edit_plan p now c expected)

abbrev pub is_approved : ApprovalStatus → Bool
is_approved approved = true
is_approved _ = false

-- decision in {APPROVED, REJECTED}
abbrev pub is_decision : ApprovalStatus → Bool
is_decision approved = true
is_decision rejected = true
is_decision _ = false

unfoldable pub decided_draft : ApprovalStatus → DateTime → CommunicationDraft → CommunicationDraft
decided_draft decision now d = record d {
  approval_status = decision;
  status = if is_approved decision then ready else draft;
  updated_at = now;
  version = d.version + 1;
}

unfoldable pub decision_plan :
    ApprovalStatus
    → Principal
    → DateTime
    → Option ℕ
    → CommunicationDraft
    → Result CommunicationError Outcome
decision_plan decision p now expected d = do
  check_version d expected
  raise_if (not (is_unsent d.status)) not_reviewable
  updated ← make_draft (decided_draft decision now d)
  event ← make_event d.id p.user_id (decided decision d.version) now
  ok (change updated event)

unfoldable pub decide :
    String
    → ApprovalStatus
    → Principal
    → DateTime
    → Option ℕ
    → Exec Repository CommunicationError CommunicationDraft
decide id decision p now expected r =
    if is_manager p
    then if is_decision decision
      then on_draft id (decision_plan decision p now expected) r
      else (err bad_decision, r)
    else (err manager_required, r)

unfoldable pub preview_draft :
    DeliveryPort
    → Principal
    → DateTime
    → CommunicationDraft
    → Exec Repository CommunicationError (Bool × String)
preview_draft port p now d r =
    let kind = delivery_previewed (port.preview_available d) (port.preview_provider d) d.version in
    elim (make_event d.id p.user_id kind now) [
      | err e ↦ (err e, r)
      | ok event ↦
          let (noted, s) = append_audit d event r in
          elim noted [
            | ok u ↦ (ok (port.preview_available d, port.preview_provider d), s)
            | err x ↦ (err x, s)
          ]
    ]

-- The availability and the provider that the port reports.
unfoldable pub preview :
    DeliveryPort
    → String
    → Principal
    → DateTime
    → Exec Repository CommunicationError (Bool × String)
preview port id p now r = elim (get id r) [
  | none ↦ (err not_found, r)
  | some d ↦ if can_manage p d then preview_draft port p now d r else (err forbidden, r)
]

unfoldable pub sent_draft : DateTime → CommunicationDraft → CommunicationDraft
sent_draft now d = record d {
  status = sent;
  sent_at = some now;
  updated_at = now;
  version = d.version + 1;
}

abbrev pub has_recipient : List String → Bool
has_recipient [] = false
has_recipient (r ∷ rs) = true

-- After the call of the port: its receipt, or none where it raised.
unfoldable pub delivery_plan :
    Option String → Principal → DateTime → CommunicationDraft → Result CommunicationError Outcome
delivery_plan none p now d = do
  event ← make_event d.id p.user_id (delivery_blocked d.version) now
  ok (block event)
delivery_plan (some receipt) p now d = do
  updated ← make_draft (sent_draft now d)
  event ← make_event d.id p.user_id (delivered receipt) now
  ok (change updated event)

unfoldable pub send_plan :
    DeliveryPort
    → Principal
    → DateTime
    → (idempotency_key : String) → Option ℕ
    → CommunicationDraft
    → Result CommunicationError Outcome
send_plan port p now key expected d = do
  raise_if (not (can_manage p d)) forbidden
  if is_sent d.status then ok keep else do
    check_version d expected
    raise_if (not (is_approved d.approval_status)) approval_required
    raise_if (not (has_recipient d.recipients)) no_recipient
    delivery_plan (port.send_receipt d key) p now d

unfoldable pub send :
    DeliveryPort
    → String
    → Principal
    → DateTime
    → (confirmed : Bool) → (idempotency_key : String) → Option ℕ
    → Exec Repository CommunicationError CommunicationDraft
send port id p now confirmed key expected r =
    if confirmed then on_draft id (send_plan port p now key expected) r else (err unconfirmed, r)
