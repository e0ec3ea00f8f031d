-- ===== src/Communications/Sending.antt =====
-- Exactly when a draft is delivered.
use btx_omni_prospect.Prelude.{
  ℕ, String, Bool, true, false, Option, none, some, ◌≡◌, ◌↔◌, ap, arith, ◌==◌, nat_eq, inl, inr,
  Bool-cases, DateTime, Option-cases,
}
use btx_omni_prospect.Prelude.Result.{ok}
use btx_omni_prospect.Work.Domain.{Principal}
use btx_omni_prospect.Communications.Drafts.{
  CommunicationDraft, CommunicationAuditEvent, delivered, is_sent, make_draft, make_event,
}
use btx_omni_prospect.Communications.Repository.{
  Repository, get, written, update_draft, append_audit,
}
use btx_omni_prospect.Communications.Service.{
  DeliveryPort, change, blocked, perform, on_draft, check_version, is_approved, send, send_plan,
  delivery_plan, sent_draft, has_recipient, can_manage,
}
use btx_omni_prospect.Communications.Review.{IsValid, IsSound}

abbrev pub version_fits : Option ℕ → CommunicationDraft → Bool
version_fits none d = true
version_fits (some v) d = d.version == v

pub record MaySend (port : DeliveryPort) (d : CommunicationDraft) (p : Principal) (now : DateTime)
    (confirmed : Bool) (key : String) (expected : Option ℕ) (receipt : String) : Type 0 where
  pub human : confirmed ≡ true
  pub permitted : can_manage p d ≡ true
  pub fits : version_fits expected d ≡ true
  pub approved : is_approved d.approval_status ≡ true
  pub recipient : has_recipient d.recipients ≡ true
  pub accepted : port.send_receipt d key ≡ some receipt
  pub aware : now.aware ≡ true

module _ (port : DeliveryPort) (d : CommunicationDraft) (p : Principal) (now : DateTime)
    (key : String) (expected : Option ℕ) (receipt : String) where
  abbrev pub delivery_event : CommunicationAuditEvent
  delivery_event = record {
    communication_id = d.id;
    actor_id = p.user_id;
    event = delivered receipt;
    occurred_at = now;
  }

  admits_plan :
      IsSound d
      → is_sent d.status ≡ false
      → MaySend port d p now true key expected receipt
      → send_plan port p now key expected d ≡ ok (change (sent_draft now d) delivery_event)
  unfolding send_plan delivery_plan check_version make_draft make_event sent_draft
  admits_plan s open_ m = ground (arith, s.created_aware, s.texts, m.accepted)

  plan_admits :
      is_sent d.status ≡ false
      → send_plan port p now key expected d ≡ ok (change (sent_draft now d) delivery_event)
      → MaySend port d p now true key expected receipt
  unfolding send_plan delivery_plan check_version make_draft make_event
  plan_admits open_ h = elim (Option-cases (port.send_receipt d key)) [
    | inl g ↦ ground arith
    | inr (receipt, g) ↦ ground arith
  ]

plan_needs :
    (port : DeliveryPort) (d : CommunicationDraft) (p : Principal) (now : DateTime) (key : String)
    (expected : Option ℕ) (r : Repository) (u : CommunicationDraft)
    → is_sent d.status ≡ false
    → (perform d (send_plan port p now key expected d) r).0 ≡ ok u
    → (receipt : String) × MaySend port d p now true key expected receipt
unfolding send_plan delivery_plan check_version make_draft make_event blocked append_audit
plan_needs port d p now key expected r u open_ h = elim (Option-cases (port.send_receipt d key)) [
  | inl g ↦ ground arith
  | inr (receipt, g) ↦ (receipt, ground arith)
]

module _ (port : DeliveryPort) (r : Repository) (v : IsValid r) (id : String)
    (d : CommunicationDraft) (found : get id r ≡ some d) (open_ : is_sent d.status ≡ false)
    (p : Principal) (now : DateTime) (confirmed : Bool) (key : String) (expected : Option ℕ) where
  -- A stored draft that is not sent yet is delivered under these conditions: a person confirmed it,
  -- the principal is a manager or its author, no other version is expected, it was approved, it has a
  -- recipient, the port accepts it, and the clock is aware. The call returns the sent draft and
  -- stores it with one event that has the receipt.
  pub send_delivers :
      (receipt : String)
      → MaySend port d p now confirmed key expected receipt
      → send port id p now confirmed key expected r ≡ (
        ok (sent_draft now d),
        written (sent_draft now d) (delivery_event port d p now key expected receipt) r,
      )
  unfolding send on_draft update_draft get sent_draft
  send_delivers receipt m = ground (
    arith,
    admits_plan port d p now key expected receipt (v.sound id d found) open_,
    v.own_id id d found,
    m.human,
  )

  send_needs :
      (u : CommunicationDraft)
      → (send port id p now confirmed key expected r).0 ≡ ok u
      → (receipt : String) × MaySend port d p now confirmed key expected receipt
  unfolding send on_draft
  send_needs u h = elim (Bool-cases confirmed) [
    | inl y ↦
        let (receipt, m) = plan_needs port d p now key expected r u open_ (ground arith) in
        (receipt, ground (arith, m.permitted, m.fits, m.approved, m.recipient, m.accepted, m.aware))
    | inr n ↦ ground arith
  ]

  -- A send of a stored draft that is not sent yet returns the sent draft exactly when a person
  -- confirmed it, the principal is a manager or its author, no other version is expected, it was
  -- approved, it has a recipient, the port accepts it, and the clock is aware.
  pub send_iff :
      ((receipt : String) × MaySend port d p now confirmed key expected receipt)
      ↔ ((send port id p now confirmed key expected r).0 ≡ ok (sent_draft now d))
  send_iff = (λ m. ap (λ q. q.0) (send_delivers m.0 m.1), λ h. send_needs (sent_draft now d) h)
