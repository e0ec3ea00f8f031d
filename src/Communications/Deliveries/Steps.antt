-- ===== src/Communications/Deliveries/Steps.antt =====
-- Each request on drafts is a step of the log of deliveries.
use btx_omni_prospect.Prelude.{
  ℕ, String, Bool, true, false, ◌&&◌, Option, [], ◌∷◌, ◌≡◌, refl, sym, ◌∙◌, subst, arith, ◌==◌,
  string_eq, nat_eq, inl, inr, Option-cases, Bool-cases, DateTime, leb, ◌+◌, or_default, option_eq,
}
use Prim.Native.String.{count as char_count}
use btx_omni_prospect.Prelude.Result.{Result, ok, err, Result-cases}
use btx_omni_prospect.Work.Domain.{ApprovalStatus, Principal, is_manager}
use btx_omni_prospect.Communications.Drafts.{
  CommunicationDraft, CommunicationAuditEvent, CommunicationError, delivery_previewed, is_sent,
  make_draft, make_event,
}
use btx_omni_prospect.Communications.Repository.{
  Repository, get, append_audit, insert_draft, update_draft, by_idempotency_key,
}
use btx_omni_prospect.Communications.Service.{
  Runtime, DeliveryPort, Outcome, keep, change, block, blocked, perform, on_draft, EditArgs, edit,
  edit_plan, edited_draft, check_version, decide, decision_plan, decided_draft, is_decision,
  preview, preview_draft, can_manage, send, send_plan, delivery_plan, sent_draft,
}
use btx_omni_prospect.Communications.Creation.{
  CreateArgs, create, store_new, creation_plan, new_draft, after_insert, earlier_draft, request_key,
}
use btx_omni_prospect.Communications.Commands.{
  Request, creates, edits, decides, previews, sends, handle,
}
use btx_omni_prospect.Communications.Deliveries.{IsDelivery, Logged, quiet, noted, unchanged-Logged}

-- A plan that sends a draft only with the event of its delivery.
abbrev pub PlanLogged : (CommunicationDraft → Result CommunicationError Outcome) → Type 0
PlanLogged plan =
    (d u : CommunicationDraft) (e : CommunicationAuditEvent)
    → plan d ≡ ok (change u e)
    → is_sent u.status ≡ true
    → IsDelivery u e

edit_plan-Logged :
    (p : Principal) (now : DateTime) (c : EditArgs) (expected : Option ℕ)
    → PlanLogged (edit_plan p now c expected)
unfolding edit_plan edited_draft make_draft make_event check_version
edit_plan-Logged p now c expected d u e h b =
    let unsent : is_sent u.status ≡ false = ground arith in ground arith

decision_plan-Logged :
    (decision : ApprovalStatus) (p : Principal) (now : DateTime) (expected : Option ℕ)
    → PlanLogged (decision_plan decision p now expected)
unfolding decision_plan decided_draft make_draft make_event check_version
decision_plan-Logged decision p now expected d u e h b =
    let unsent : is_sent u.status ≡ false = ground arith in ground arith

send_plan-Logged :
    (port : DeliveryPort) (p : Principal) (now : DateTime) (key : String) (expected : Option ℕ)
    → PlanLogged (send_plan port p now key expected)
unfolding send_plan delivery_plan sent_draft make_draft make_event check_version
send_plan-Logged port p now key expected d u e h b = elim (Option-cases (port.send_receipt d key)) [
  | inl g ↦ ground arith
  | inr (receipt, g) ↦ record {
    about = ground arith;
    receipt = receipt;
    kind = ground arith;
    on_time = ground arith;
  }
]

pub after_insert-same :
    (rt : Runtime) (c : CreateArgs) (x : Result CommunicationError CommunicationDraft × Repository)
    → (after_insert rt c x).1 ≡ x.1
after_insert-same rt c (ok d, s) = refl
after_insert-same rt c (err e, s) = refl

module _ (r : Repository) where
  audited-Logged :
      (d : CommunicationDraft) (e : CommunicationAuditEvent) → Logged r (append_audit d e r).1
  unfolding append_audit
  audited-Logged d e = elim (Option-cases (get d.id r)) [
    | inl g ↦ unchanged-Logged r _ (ground arith)
    | inr (old, g) ↦ elim (Bool-cases (old.version == d.version)) [
      | inl y ↦ quiet (ground arith) (e ∷ []) (ground arith)
      | inr n ↦ unchanged-Logged r _ (ground arith)
    ]
  ]

  blocked-Logged :
      (d : CommunicationDraft) (e : CommunicationAuditEvent) → Logged r (blocked d e r).1
  unfolding blocked
  blocked-Logged d e = subst (Logged r) (ground arith) (audited-Logged d e)

  updated-Logged :
      (u : CommunicationDraft) (e : CommunicationAuditEvent) (version : ℕ)
      → (is_sent u.status ≡ true → IsDelivery u e)
      → Logged r (update_draft u e version r).1
  unfolding update_draft
  updated-Logged u e version h = elim (Bool-cases (u.version == version + 1)) [
    | inr n ↦ unchanged-Logged r _ (ground arith)
    | inl y ↦ elim (Option-cases (get u.id r)) [
      | inl g ↦ unchanged-Logged r _ (ground arith)
      | inr (old, g) ↦ elim (Bool-cases (old.version == version)) [
        | inl same ↦ noted u e (ground arith) h
        | inr other ↦ unchanged-Logged r _ (ground arith)
      ]
    ]
  ]

  performed-Logged :
      (plan : CommunicationDraft → Result CommunicationError Outcome)
      → PlanLogged plan
      → (d : CommunicationDraft) (o : Result CommunicationError Outcome) → plan d ≡ o
      → Logged r (perform d o r).1
  performed-Logged plan p d (err e) h = unchanged-Logged r r refl
  performed-Logged plan p d (ok keep) h = unchanged-Logged r r refl
  performed-Logged plan p d (ok (change u e)) h = updated-Logged u e d.version (p d u e h)
  performed-Logged plan p d (ok (block e)) h = blocked-Logged d e

  on_draft-Logged :
      (plan : CommunicationDraft → Result CommunicationError Outcome)
      → PlanLogged plan
      → (id : String) → Logged r (on_draft id plan r).1
  unfolding on_draft
  on_draft-Logged plan p id = elim (Option-cases (get id r)) [
    | inl g ↦ unchanged-Logged r _ (ground arith)
    | inr (d, g) ↦ subst (Logged r) (ground arith) (performed-Logged plan p d (plan d) refl)
  ]

  preview-Logged :
      (port : DeliveryPort) (id : String) (p : Principal) (now : DateTime)
      → Logged r (preview port id p now r).1
  unfolding preview preview_draft make_event
  preview-Logged port id p now = elim (Option-cases (get id r)) [
    | inl g ↦ unchanged-Logged r _ (ground arith)
    | inr (d, g) ↦ elim (Bool-cases (can_manage p d && now.aware)) [
      | inr n ↦ unchanged-Logged r _ (ground arith)
      | inl y ↦ subst (Logged r) (ground arith) (
          audited-Logged d (record {
            communication_id = d.id;
            actor_id = p.user_id;
            event =
                delivery_previewed (port.preview_available d) (port.preview_provider d) d.version;
            occurred_at = now;
          }))
    ]
  ]

  decide-Logged :
      (id : String) (decision : ApprovalStatus) (p : Principal) (now : DateTime)
      (expected : Option ℕ)
      → Logged r (decide id decision p now expected r).1
  unfolding decide
  decide-Logged id decision p now expected =
      elim (Bool-cases (is_manager p && is_decision decision)) [
        | inl y ↦ subst (Logged r) (ground arith) (
            on_draft-Logged (decision_plan decision p now expected)
              (decision_plan-Logged decision p now expected) id)
        | inr n ↦ unchanged-Logged r _ (ground arith)
      ]

  send-Logged :
      (port : DeliveryPort) (id : String) (p : Principal) (now : DateTime) (confirmed : Bool)
      (key : String) (expected : Option ℕ)
      → Logged r (send port id p now confirmed key expected r).1
  unfolding send
  send-Logged port id p now true key expected =
      on_draft-Logged (send_plan port p now key expected) (send_plan-Logged port p now key expected)
        id
  send-Logged port id p now false key expected = unchanged-Logged r r refl

  inserted-Logged :
      (d : CommunicationDraft) (e : CommunicationAuditEvent)
      → is_sent d.status ≡ false
      → Logged r (insert_draft d e r).1
  unfolding insert_draft
  inserted-Logged d e unsent =
      elim (Option-cases (by_idempotency_key (or_default d.idempotency_key d.id) r)) [
        | inr (winner, g) ↦ unchanged-Logged r _ (ground arith)
        | inl g ↦ elim (Option-cases (get d.id r)) [
          | inr (other, q) ↦ unchanged-Logged r _ (ground arith)
          | inl q ↦ noted d e (ground arith) (λ b. ground arith)
        ]
      ]

  created_unsent :
      (rt : Runtime) (c : CreateArgs) (d : CommunicationDraft) (e : CommunicationAuditEvent)
      → creation_plan rt c ≡ ok (d, e)
      → is_sent d.status ≡ false
  unfolding creation_plan make_draft make_event new_draft
  created_unsent rt c d e h = ground arith

  store_new-Logged : (rt : Runtime) (c : CreateArgs) → Logged r (store_new rt c r).1
  unfolding store_new
  store_new-Logged rt c = elim (Result-cases (creation_plan rt c)) [
    | inl (x, g) ↦ unchanged-Logged r _ (ground arith)
    | inr ((d, e), g) ↦
        subst (Logged r) (sym (after_insert-same rt c (insert_draft d e r)) ∙ ground arith)
          (inserted-Logged d e (created_unsent rt c d e g))
  ]

  create-Logged : (rt : Runtime) (c : CreateArgs) → Logged r (create rt c r).1
  unfolding create
  create-Logged rt c =
      elim (Bool-cases
        (leb 1 (char_count (request_key c)) && leb (char_count (request_key c)) 128)) [
          | inr n ↦ unchanged-Logged r _ (ground arith)
          | inl y ↦ elim (Option-cases (earlier_draft rt c r)) [
            | inr (d, g) ↦ unchanged-Logged r _ (ground arith)
            | inl g ↦ subst (Logged r) (ground arith) (store_new-Logged rt c)
          ]
        ]

  pub handle-Logged : (rt : Runtime) (q : Request) → Logged r (handle rt q r)
  unfolding handle edit
  handle-Logged rt (creates c) = create-Logged rt c
  handle-Logged rt (edits id p now c expected) =
      on_draft-Logged (edit_plan p now c expected) (edit_plan-Logged p now c expected) id
  handle-Logged rt (decides id decision p now expected) = decide-Logged id decision p now expected
  handle-Logged rt (previews port id p now) = preview-Logged port id p now
  handle-Logged rt (sends port id p now confirmed key expected) =
      send-Logged port id p now confirmed key expected
