-- ===== src/Proposals/Steps.antt =====
-- Each operation appends only events that keep the log sound.
use btx_omni_prospect.Prelude.{
  ℕ, String, Option, some, List, [], ◌∷◌, ◌++◌, ◌≡◌, subst, string_eq, nat_eq, option_eq, DateTime,
  arith, inl, inr, Option-cases,
}
use btx_omni_prospect.Prelude.Result.{ok, Result-cases}
use btx_omni_prospect.Work.Domain.{Action, Principal}
use btx_omni_prospect.Work.CrmRecords.{Proposal}
use btx_omni_prospect.Work.Repository.{
  ActionAuditEvent, crm_proposed, crm_decided, crm_sample_attempt, crm_proposal, crm_decision,
  crm_attempt, make_event,
}
use btx_omni_prospect.Proposals.Log.{
  proposals, decisions, attempts, saved_proposal, decisions_on, last,
}
use btx_omni_prospect.Proposals.Snapshot.{CrmProposalWorkflow, snapshot}
use btx_omni_prospect.Proposals.Decisions.{
  Operation, saved_preview, preview_operation, current_proposal, decide_operation, new_decision,
}
use btx_omni_prospect.Proposals.Sampling.{
  first_attempt, execute_operation, new_attempt, executed, text_of,
}
use btx_omni_prospect.Proposals.Inspecting.{inspect_operation}
use btx_omni_prospect.Proposals.Sound.{
  IsLog, IsLog-snoc, add_proposal, add_decision, add_attempt, event_of,
}

-- An event that the operation returns is about the Action, and keeps the log sound.
abbrev pub Appends : {A : Type 0} → Operation A → Type 0
Appends {A} op =
    (a : Action) (h : List ActionAuditEvent) (e : ActionAuditEvent) (x : A)
    → IsLog h
    → op a h ≡ ok (some e, x)
    → (e.action_id ≡ a.id) × IsLog (h ++ e ∷ [])

module _ (a : Action) (who : Principal) (now : DateTime) (h : List ActionAuditEvent)
    (v : IsLog h) where
  saved_preview-Appends :
      (p x : Proposal) (e : ActionAuditEvent)
      → saved_preview who now p a h ≡ ok (some e, x)
      → (e.action_id ≡ a.id) × IsLog (h ++ e ∷ [])
  unfolding saved_preview saved_proposal make_event
  saved_preview-Appends p x e q =
      let made : event_of a.id who crm_proposed now (crm_proposal p) ≡ e = ground arith in
      let kept =
        IsLog-snoc h v (event_of a.id who crm_proposed now (crm_proposal p)) (
          add_proposal (proposals h) (decisions h) (attempts h) v p (ground arith)
            (ground arith)) in
      (ground arith, subst (λ d. IsLog (h ++ d ∷ [])) made kept)

pub preview_operation-Appends :
    (x : CrmProposalWorkflow) (expected : ℕ) (p : Principal) (now : DateTime)
    → Appends (preview_operation x expected p now)
unfolding preview_operation
preview_operation-Appends x expected p now a h e y v q = elim (Result-cases (snapshot x a)) [
  | inl (f, failed) ↦ ground arith
  | inr (proposal, made) ↦ saved_preview-Appends a p now h v proposal y e (ground arith)
]

current_proposal-saved :
    (x : CrmProposalWorkflow) (a : Action) (h : List ActionAuditEvent) (id : String) (p : Proposal)
    → current_proposal x a h id ≡ ok p
    → saved_proposal h id ≡ some p
unfolding current_proposal
current_proposal-saved x a h id p q = ground arith

pub decide_operation-Appends :
    (x : CrmProposalWorkflow) (id decision : String) (expected : Option String) (p : Principal)
    (now : DateTime)
    → Appends (decide_operation x id decision expected p now)
unfolding decide_operation make_event new_decision saved_proposal
decide_operation-Appends x id decision expected p now a h e y v q =
    elim (Result-cases (current_proposal x a h id)) [
      | inl (f, failed) ↦ ground arith
      | inr (proposal, current) ↦
          let d = new_decision x id p decision expected now in
          let found = current_proposal-saved x a h id proposal current in
          let made : event_of a.id p crm_decided now (crm_decision d) ≡ e = ground arith in
          let kept =
            IsLog-snoc h v (event_of a.id p crm_decided now (crm_decision d))
              (add_decision (proposals h) (decisions h) (attempts h) v d proposal found) in
          (ground arith, subst (λ d. IsLog (h ++ d ∷ [])) made kept)
    ]

first_attempt-Appends :
    (x : CrmProposalWorkflow) (id : String) (expected : Option String) (key : String)
    (p : Principal) (now : DateTime)
    → Appends (first_attempt x id expected key p now)
unfolding first_attempt make_event new_attempt decisions_on
first_attempt-Appends x id expected key p now a h e y v q =
    elim (Result-cases (current_proposal x a h id)) [
      | inl (f, failed) ↦ ground arith
      | inr (proposal, current) ↦ elim (Result-cases (executed x a proposal)) [
        | inl (f, failed) ↦ ground arith
        | inr (result, done) ↦ elim (Option-cases (last (decisions_on h id))) [
          | inl absent ↦ ground arith
          | inr (d, latest) ↦
              let t = new_attempt x id expected key p now a result in
              let made : event_of a.id p crm_sample_attempt now (crm_attempt t) ≡ e =
                ground arith in
              let kept = IsLog-snoc h v (event_of a.id p crm_sample_attempt now (crm_attempt t)) (
                add_attempt (proposals h) (decisions h) (attempts h) v t d (ground arith)
                  (ground arith) latest (ground arith)
                  (ground (arith, string_eq.same_iff d.decision_id (text_of expected)))) in
              (ground arith, subst (λ d. IsLog (h ++ d ∷ [])) made kept)
        ]
      ]
    ]

pub execute_operation-Appends :
    (x : CrmProposalWorkflow) (id : String) (expected : Option String) (key : String)
    (p : Principal) (now : DateTime)
    → Appends (execute_operation x id expected key p now)
unfolding execute_operation
execute_operation-Appends x id expected key p now a h e y v q =
    first_attempt-Appends x id expected key p now a h e y v (ground arith)

pub inspect_operation-Appends :
    (x : CrmProposalWorkflow) (p : Principal) → Appends (inspect_operation x p)
unfolding inspect_operation
inspect_operation-Appends x p a h e y v q = ground arith
