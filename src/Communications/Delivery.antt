-- ===== src/Communications/Delivery.antt =====
-- What the requests on drafts keep, one by one and in runs.
use btx_omni_prospect.Prelude.{
  ℕ, String, Bool, true, false, ◌&&◌, Option, some, List, [], ◌∷◌, ◌≡◌, refl, sym, ◌∙◌, subst,
  arith, string_eq, nat_eq, inl, inr, Option-cases, Bool-cases, DateTime, option_eq, leb,
  or_default,
}
use Prim.Native.String.{count as char_count}
use btx_omni_prospect.Prelude.Dict.{lookup, lookup-insert}
use btx_omni_prospect.Prelude.Result.{ok, Result-cases}
use btx_omni_prospect.Work.Domain.{ApprovalStatus, Principal, is_manager}
use btx_omni_prospect.Communications.Drafts.{
  CommunicationDraft, CommunicationAuditEvent, is_sent, make_draft, make_event,
}
use btx_omni_prospect.Communications.Repository.{
  Repository, empty_repository, get, row, append_audit, insert_draft, by_idempotency_key,
}
use btx_omni_prospect.Communications.Service.{
  Runtime, DeliveryPort, EditArgs, edit, edit_plan, edited_draft, check_version, decide,
  decision_plan, decided_draft, is_decision, preview, preview_draft, send, send_plan, delivery_plan,
  sent_draft,
}
use btx_omni_prospect.Communications.Creation.{
  CreateArgs, create, store_new, creation_plan, new_draft, earlier_draft, request_key,
}
use btx_omni_prospect.Communications.Commands.{
  Request, creates, edits, decides, previews, sends, handle, handle_all,
}
use btx_omni_prospect.Communications.Deliveries.{IsDelivered, IsDelivered-empty, Logged-IsDelivered}
use btx_omni_prospect.Communications.Deliveries.Steps.{handle-Logged, after_insert-same}
use btx_omni_prospect.Communications.Review.{
  IsSound, IsValid, IsValid-empty, OneStep, same, wrote, OneStep-IsValid, PlanSound, row-IsSound,
  on_draft-OneStep,
}

edit_plan-Sound :
    (p : Principal) (now : DateTime) (c : EditArgs) (expected : Option ℕ)
    → PlanSound (edit_plan p now c expected)
unfolding edit_plan edited_draft make_draft make_event check_version
edit_plan-Sound p now c expected d u e s h =
    (ground arith, ground (arith, s.sent_once), ground arith)

decision_plan-Sound :
    (decision : ApprovalStatus) (p : Principal) (now : DateTime) (expected : Option ℕ)
    → is_decision decision ≡ true
    → PlanSound (decision_plan decision p now expected)
unfolding decision_plan decided_draft make_draft make_event check_version
decision_plan-Sound decision p now expected b d u e s h =
    (ground arith, ground (arith, s.sent_once), ground arith)

send_plan-Sound :
    (port : DeliveryPort) (p : Principal) (now : DateTime) (key : String) (expected : Option ℕ)
    → PlanSound (send_plan port p now key expected)
unfolding send_plan delivery_plan sent_draft make_draft make_event check_version
send_plan-Sound port p now key expected d u e s h = elim (Option-cases (port.send_receipt d key)) [
  | inl g ↦ ground arith
  | inr (receipt, g) ↦ (ground arith, ground (arith, s.sent_once), ground arith)
]

module _ (r : Repository) (v : IsValid r) where
  preview-same :
      (port : DeliveryPort) (id : String) (p : Principal) (now : DateTime)
      → (preview port id p now r).1.drafts ≡ r.drafts
  unfolding preview preview_draft append_audit
  preview-same port id p now = ground arith

  decide-OneStep :
      (id : String) (decision : ApprovalStatus) (p : Principal) (now : DateTime)
      (expected : Option ℕ)
      → OneStep r (decide id decision p now expected r).1
  unfolding decide
  decide-OneStep id decision p now expected =
      elim (Bool-cases (is_manager p && is_decision decision)) [
        | inl y ↦
            let step =
              on_draft-OneStep r v (decision_plan decision p now expected)
                (decision_plan-Sound decision p now expected (ground arith)) id in
            ground arith
        | inr n ↦ same (ground arith)
      ]

  send-OneStep :
      (port : DeliveryPort) (id : String) (p : Principal) (now : DateTime) (confirmed : Bool)
      (key : String) (expected : Option ℕ)
      → OneStep r (send port id p now confirmed key expected r).1
  unfolding send
  send-OneStep port id p now true key expected =
      on_draft-OneStep r v (send_plan port p now key expected)
        (send_plan-Sound port p now key expected) id
  send-OneStep port id p now false key expected = same refl

  inserted-OneStep :
      (d : CommunicationDraft) (e : CommunicationAuditEvent)
      → IsSound d
      → OneStep r (insert_draft d e r).1
  unfolding insert_draft get
  inserted-OneStep d e s =
      elim (Option-cases (by_idempotency_key (or_default d.idempotency_key d.id) r)) [
        | inr (winner, g) ↦ same (ground arith)
        | inl g ↦ elim (Option-cases (lookup d.id r.drafts)) [
          | inr (other, q) ↦ same (ground arith)
          | inl q ↦ wrote (record {
            new = row d;
            is_sound = row-IsSound d s;
            stored = ground arith;
            over_unsent = λ old h. ground arith;
          })
        ]
      ]

  created-IsSound :
      (rt : Runtime) (c : CreateArgs) (d : CommunicationDraft) (e : CommunicationAuditEvent)
      → creation_plan rt c ≡ ok (d, e)
      → IsSound d
  unfolding creation_plan make_draft make_event new_draft
  created-IsSound rt c d e h = ground arith

  store_new-OneStep : (rt : Runtime) (c : CreateArgs) → OneStep r (store_new rt c r).1
  unfolding store_new
  store_new-OneStep rt c = elim (Result-cases (creation_plan rt c)) [
    | inl (x, g) ↦ same (ground arith)
    | inr ((d, e), g) ↦
        subst (OneStep r) (sym (after_insert-same rt c (insert_draft d e r)) ∙ ground arith)
          (inserted-OneStep d e (created-IsSound rt c d e g))
  ]

  create-OneStep : (rt : Runtime) (c : CreateArgs) → OneStep r (create rt c r).1
  unfolding create
  create-OneStep rt c =
      elim (Bool-cases
        (leb 1 (char_count (request_key c)) && leb (char_count (request_key c)) 128)) [
          | inr n ↦ same (ground arith)
          | inl y ↦ elim (Option-cases (earlier_draft rt c r)) [
            | inr (d, g) ↦ same (ground arith)
            | inl g ↦ subst (OneStep r) (ground arith) (store_new-OneStep rt c)
          ]
        ]

  handle-OneStep : (rt : Runtime) (q : Request) → OneStep r (handle rt q r)
  unfolding handle edit
  handle-OneStep rt (creates c) = create-OneStep rt c
  handle-OneStep rt (edits id p now c expected) =
      on_draft-OneStep r v (edit_plan p now c expected) (edit_plan-Sound p now c expected) id
  handle-OneStep rt (decides id decision p now expected) = decide-OneStep id decision p now expected
  handle-OneStep rt (previews port id p now) = same (preview-same port id p now)
  handle-OneStep rt (sends port id p now confirmed key expected) =
      send-OneStep port id p now confirmed key expected

  -- A sent draft is not the one that a step writes.
  sent_stays :
      (s : Repository) (id : String) (d : CommunicationDraft)
      → OneStep r s
      → lookup id r.drafts ≡ some d
      → is_sent d.status ≡ true
      → lookup id s.drafts ≡ some d
  sent_stays s id d (same e) g b = ground arith
  sent_stays s id d (wrote w) g b = ground (
    arith,
    lookup-insert w.new.id id w.new r.drafts,
    w.over_unsent d,
    w.stored,
    string_eq.same_iff w.new.id id,
  )

handle_keeps :
    (rt : Runtime) (qs : List Request) (r : Repository) → IsValid r → IsValid (handle_all rt qs r)
unfolding handle_all
handle_keeps rt [] r v = v
handle_keeps rt (q ∷ qs) r v =
    handle_keeps rt qs (handle rt q r)
      (OneStep-IsValid r (handle rt q r) v (handle-OneStep r v rt q))

handle_delivers :
    (rt : Runtime) (qs : List Request) (r : Repository)
    → IsDelivered r
    → IsDelivered (handle_all rt qs r)
unfolding handle_all
handle_delivers rt [] r v = v
handle_delivers rt (q ∷ qs) r v =
    handle_delivers rt qs (handle rt q r)
      (Logged-IsDelivered r (handle rt q r) v (handle-Logged r rt q))

-- Whatever requests are made of an empty repository, each with a delivery port that answers it in
-- its own way: every draft is stored under its own identifier; a ready draft was approved, an unsent
-- one that is not ready was not; a sent draft was approved as it was sent and has a recipient; a
-- draft has a time of delivery exactly if it is sent, and then the audit log has an event of its
-- delivery, with a receipt, at that time.
pub handle_all-IsValid :
    (rt : Runtime) (qs : List Request)
    → IsValid (handle_all rt qs empty_repository) × IsDelivered (handle_all rt qs empty_repository)
handle_all-IsValid rt qs = (
  handle_keeps rt qs empty_repository IsValid-empty,
  handle_delivers rt qs empty_repository IsDelivered-empty,
)

-- A draft that was sent is never changed again, by any sequence of requests.
pub sent_final :
    (rt : Runtime) (qs : List Request) (r : Repository)
    → IsValid r
    → (id : String) (d : CommunicationDraft) → lookup id r.drafts ≡ some d
    → is_sent d.status ≡ true
    → lookup id (handle_all rt qs r).drafts ≡ some d
unfolding handle_all
sent_final rt [] r v id d g b = g
sent_final rt (q ∷ qs) r v id d g b =
    let step = handle-OneStep r v rt q in
    let s = handle rt q r in
    sent_final rt qs s (OneStep-IsValid r s v step) id d (sent_stays r v s id d step g b) b
