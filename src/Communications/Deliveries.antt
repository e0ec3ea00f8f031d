-- ===== src/Communications/Deliveries.antt =====
-- The log of deliveries: which event of the audit log a sent draft has.
pub mod Steps
use btx_omni_prospect.Prelude.{
  ℕ, String, Bool, true, false, ◌&&◌, ◌⊎◌, Option, none, some, List, [], ◌∷◌, ◌++◌, ◌≡◌, refl, sym,
  ◌∙◌, subst, ap, arith, ◌==◌, string_eq, nat_eq, inl, inr, Option-cases, Bool-cases, DateTime, leb,
  ◌+◌, or_default, option_eq,
}
use Prim.Native.String.{count as char_count}
use mathlib.Core.List.{append-nil}
use btx_omni_prospect.Prelude.Dict.{lookup, lookup-insert}
use btx_omni_prospect.Prelude.Result.{Result, ok, err, Result-cases}
use btx_omni_prospect.Work.Domain.{ApprovalStatus, Principal, is_manager}
use btx_omni_prospect.Communications.Drafts.{
  CommunicationDraft, CommunicationAuditEvent, CommunicationError, delivered, delivery_previewed,
  is_sent, make_draft, make_event,
}
use btx_omni_prospect.Communications.Repository.{
  Repository, empty_repository, get, row, written, append_audit, insert_draft, update_draft,
  by_idempotency_key,
}
use btx_omni_prospect.Communications.Service.{
  Runtime, DeliveryPort, Outcome, keep, change, block, blocked, perform, on_draft, EditArgs, edit,
  edit_plan, edited_draft, check_version, decide, decision_plan, decided_draft, is_decision,
  preview, preview_draft, can_manage, send, send_plan, delivery_plan, sent_draft,
}
use btx_omni_prospect.Communications.Creation.{
  CreateArgs, create, store_new, creation_plan, new_draft, after_insert, earlier_draft, request_key,
}
use btx_omni_prospect.Communications.Commands.{
  Request, creates, edits, decides, previews, sends, handle,
}

-- The event reports the delivery of the draft, at the time that the draft says.
pub record IsDelivery (d : CommunicationDraft) (e : CommunicationAuditEvent) : Type 0 where
  pub about : e.communication_id ≡ d.id
  pub receipt : String
  pub kind : e.event ≡ delivered receipt
  pub on_time : d.sent_at ≡ some e.occurred_at

abbrev pub HasDelivery : CommunicationDraft → List CommunicationAuditEvent → Type 0
HasDelivery d [] = ⊥
HasDelivery d (e ∷ es) = IsDelivery d e ⊎ HasDelivery d es

-- Of each stored draft that is sent, the audit log has the delivery.
pub record IsDelivered (r : Repository) : Type 0 where
  pub logged :
      (id : String) (d : CommunicationDraft)
      → lookup id r.drafts ≡ some d
      → is_sent d.status ≡ true
      → HasDelivery d r.events

pub IsDelivered-empty : IsDelivered empty_repository
unfolding lookup
IsDelivered-empty = record { logged = λ id d g b. ground arith }

HasDelivery-more :
    (d : CommunicationDraft) (es more : List CommunicationAuditEvent)
    → HasDelivery d es
    → HasDelivery d (es ++ more)
HasDelivery-more d [] more h = elim h [ ]
HasDelivery-more d (e ∷ es) more (inl h) = inl h
HasDelivery-more d (e ∷ es) more (inr h) = inr (HasDelivery-more d es more h)

HasDelivery-last :
    (d : CommunicationDraft) (es : List CommunicationAuditEvent) (e : CommunicationAuditEvent)
    → IsDelivery d e
    → HasDelivery d (es ++ e ∷ [])
HasDelivery-last d [] e h = inl h
HasDelivery-last d (x ∷ es) e h = inr (HasDelivery-last d es e h)

-- A step leaves the drafts and adds to the log, or writes a draft with its event, which reports the
-- delivery if the draft is sent.
pub data Logged (r s : Repository) : Type 0 where
  quiet :
      s.drafts ≡ r.drafts
      → (more : List CommunicationAuditEvent) → s.events ≡ r.events ++ more
      → Logged r s
  noted :
      (new : CommunicationDraft) (e : CommunicationAuditEvent)
      → s ≡ written new e r
      → (is_sent new.status ≡ true → IsDelivery new e)
      → Logged r s

row-IsDelivery :
    (d : CommunicationDraft) (e : CommunicationAuditEvent) → IsDelivery d e → IsDelivery (row d) e
row-IsDelivery d e h = record {
  about = h.about;
  receipt = h.receipt;
  kind = h.kind;
  on_time = h.on_time;
}

written-IsDelivered :
    (r : Repository) (new : CommunicationDraft) (e : CommunicationAuditEvent)
    → IsDelivered r
    → (is_sent new.status ≡ true → IsDelivery new e)
    → IsDelivered (written new e r)
written-IsDelivered r new e v h = record {
  logged = λ id d g b. elim (Bool-cases (new.id == id)) [
    | inl y ↦
        let own : row new ≡ d = ground (arith, lookup-insert new.id id (row new) r.drafts) in
        HasDelivery-last d r.events e
          (subst (λ x. IsDelivery x e) own (row-IsDelivery new e (h (ground arith))))
    | inr n ↦
        HasDelivery-more d r.events (e ∷ [])
          (v.logged id d (ground (arith, lookup-insert new.id id (row new) r.drafts)) b)
  ];
}

pub Logged-IsDelivered : (r s : Repository) → IsDelivered r → Logged r s → IsDelivered s
Logged-IsDelivered r s v (quiet same more added) = record {
  logged = λ id d g b.
      subst (HasDelivery d) (sym added) (
        HasDelivery-more d r.events more
          (v.logged id d (sym (ap (λ ds. lookup id ds) same) ∙ g) b));
}
Logged-IsDelivered r s v (noted new e same h) =
    subst IsDelivered (sym same) (written-IsDelivered r new e v h)

pub unchanged-Logged : (r s : Repository) → s ≡ r → Logged r s
unchanged-Logged r s same =
    quiet (ap (λ (q : Repository). q.drafts) same) []
      (ap (λ (q : Repository). q.events) same ∙ sym (append-nil r.events))
