-- ===== src/Proposals/Runs.antt =====
-- The CRM events over every sequence of calls.
use btx_omni_prospect.Prelude.{
  String, Option, none, some, List, [], ◌∷◌, ◌++◌, ◌≡◌, refl, sym, ◌∙◌, subst, DateTime, arith, inl,
  inr, Option-cases, Bool-cases, select-append, ◌==◌, string_eq, if◌then◌else◌,
}
use mathlib.Core.List.{append-nil}
use btx_omni_prospect.Prelude.Result.{Result-cases}
use btx_omni_prospect.Prelude.Dict.{lookup}
use btx_omni_prospect.Work.Domain.{Action, Principal}
use btx_omni_prospect.Work.Policy.{Runtime}
use btx_omni_prospect.Work.Repository.{
  Repository, ActionAuditEvent, empty_repository, get, history, transact_audit,
}
use btx_omni_prospect.Work.Validity.{get-stored, history-stored}
use btx_omni_prospect.Proposals.Decisions.{Operation, preview, decide, is_decision}
use btx_omni_prospect.Proposals.Sampling.{execute_sample, is_retry_key}
use btx_omni_prospect.Proposals.Inspecting.{inspect}
use btx_omni_prospect.Proposals.Calls.{
  Call, works, previews, decides_on, executes, inspects, call, calls,
}
use btx_omni_prospect.Proposals.Log.{proposals, decisions, attempts}
use btx_omni_prospect.Proposals.Snapshot.{CrmProposalWorkflow}
use btx_omni_prospect.Proposals.Quiet.{IsQuiet, unchanged, stores, execute-IsQuiet}
use btx_omni_prospect.Proposals.Sound.{IsLog, quiet-IsLog}
use btx_omni_prospect.Proposals.Steps.{
  Appends, preview_operation-Appends, decide_operation-Appends, execute_operation-Appends,
  inspect_operation-Appends,
}

-- Every Action is stored under its own identifier, and its CRM events are sound.
pub record IsLogged (r : Repository) : Type 0 where
  pub own_id : (id : String) (a : Action) → get id r ≡ some a → a.id ≡ id
  pub logs : (id : String) → IsLog (history id r)

abbrev pub logged : Repository → ActionAuditEvent → Repository
logged r e = record r { events = r.events ++ e ∷ [] }

pub history-logged :
    (r : Repository) (e : ActionAuditEvent) (id : String)
    → history id (logged r e) ≡ history id r ++ (if e.action_id == id then e ∷ [] else [])
unfolding history
history-logged r e id = rw select-append refl

add_event :
    (e : ActionAuditEvent) (id : String) (h : List ActionAuditEvent)
    → IsLog h
    → (e.action_id ≡ id → IsLog (h ++ e ∷ []))
    → IsLog (h ++ (if e.action_id == id then e ∷ [] else []))
add_event e id h v longer = elim (Bool-cases (e.action_id == id)) [
  | inl y ↦ rw y (longer ((string_eq.same_iff e.action_id id).0 y))
  | inr n ↦ rw (n, append-nil) v
]

IsQuiet-IsLogged : (r s : Repository) → IsLogged r → IsQuiet r s → IsLogged s
IsQuiet-IsLogged r s v (unchanged same) = subst IsLogged (sym same) v
IsQuiet-IsLogged r s v (stores u e same q) = subst IsLogged (sym same) (record {
  own_id =
      λ id a found. ground (arith, get-stored r u e id, v.own_id id a, string_eq.same_iff u.id id);
  logs = λ id.
      subst IsLog (sym (history-stored r u e id)) (
        add_event e id (history id r) (v.logs id)
          (λ _. quiet-IsLog (history id r) (v.logs id) e q));
})

transact-IsLogged :
    {A : Type 0} (op : Operation A) (id : String) (r : Repository)
    → Appends op
    → IsLogged r
    → IsLogged (transact_audit id op r).1
unfolding transact_audit get
transact-IsLogged op id r appends v = elim (Option-cases (get id r)) [
  | inl absent ↦ subst IsLogged (ground arith) v
  | inr (a, found) ↦ elim (Result-cases (op a (history id r))) [
    | inl (f, failed) ↦ subst IsLogged (ground arith) v
    | inr ((none, x), returned) ↦ subst IsLogged (ground arith) v
    | inr ((some e, x), returned) ↦
        let (about, longer) = appends a (history id r) e x (v.logs id) returned in
        let own = v.own_id id a found in
        let next : IsLogged (logged r e) = record {
          own_id = v.own_id;
          logs = λ k. subst IsLog (sym (history-logged r e k)) (
              add_event e k (history k r) (v.logs k) (λ at_k.
                let same : id ≡ k = sym (about ∙ own) ∙ at_k in
                subst (λ j. IsLog (history j r ++ e ∷ [])) same longer));
        } in
        subst IsLogged (ground arith) next
  ]
]

decide-IsLogged :
    (x : CrmProposalWorkflow) (a id decision : String) (expected : Option String) (p : Principal)
    (now : DateTime) (r : Repository)
    → IsLogged r
    → IsLogged (decide x a id decision expected p now r).1
unfolding decide
decide-IsLogged x a id decision expected p now r v = elim (Bool-cases (is_decision decision)) [
  | inl y ↦ rw y (transact-IsLogged _ a r (decide_operation-Appends x id decision expected p now) v)
  | inr n ↦ rw n v
]

execute-IsLogged :
    (x : CrmProposalWorkflow) (a id : String) (expected : Option String) (key : String)
    (p : Principal) (now : DateTime) (r : Repository)
    → IsLogged r
    → IsLogged (execute_sample x a id expected key p now r).1
unfolding execute_sample
execute-IsLogged x a id expected key p now r v = elim (Bool-cases (is_retry_key key)) [
  | inl y ↦ rw y (transact-IsLogged _ a r (execute_operation-Appends x id expected key p now) v)
  | inr n ↦ rw n v
]

call-IsLogged : (rt : Runtime) (c : Call) (r : Repository) → IsLogged r → IsLogged (call rt c r)
unfolding call preview inspect
call-IsLogged rt (works c) r v = IsQuiet-IsLogged r _ v (execute-IsQuiet rt c r)
call-IsLogged rt (previews x a expected p now) r v =
    transact-IsLogged _ a r (preview_operation-Appends x expected p now) v
call-IsLogged rt (decides_on x a id decision expected p now) r v =
    decide-IsLogged x a id decision expected p now r v
call-IsLogged rt (executes x a id expected key p now) r v =
    execute-IsLogged x a id expected key p now r v
call-IsLogged rt (inspects x a p) r v = transact-IsLogged _ a r (inspect_operation-Appends x p) v

-- From a repository where it holds, every sequence of calls keeps this: each Action is stored under its
-- identifier, and of the CRM events about it at most 50 are proposals and at most 50 are attempts;
-- no proposal is saved twice or completed twice; for each attempt there is the approval of its
-- proposal that it names, and each decision is about a proposal that was saved.
pub calls-IsLogged :
    (rt : Runtime) (cs : List Call) (r : Repository) → IsLogged r → IsLogged (calls rt cs r)
unfolding calls
calls-IsLogged rt [] r v = v
calls-IsLogged rt (c ∷ rest) r v = calls-IsLogged rt rest (call rt c r) (call-IsLogged rt c r v)

pub IsLogged-empty : IsLogged empty_repository
unfolding get history lookup proposals decisions attempts
IsLogged-empty = record {
  own_id = λ id a h. cc;
  logs = λ id. record {
    few_proposals = ground arith;
    few_attempts = ground arith;
    saved_once = λ k. ground arith;
    completed_once = λ k. ground arith;
    approved = refl;
    about_saved = refl;
  };
}
