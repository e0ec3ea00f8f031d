-- ===== src/Work/Validity/Runs.antt =====
-- The invariant over every sequence of requests.
use btx_omni_prospect.Prelude.{
  ℕ, String, Option, List, [], ◌∷◌, ◌++◌, ◌≡◌, sym, ◌∙◌, ap, subst, DateTime, arith, inl, inr,
}
use mathlib.Core.List.{append-nil, append_assoc}
use btx_omni_prospect.Prelude.Result.{Result, Result-cases}
use btx_omni_prospect.Work.Domain.{ApprovalStatus, Action, Principal, WorkError}
use btx_omni_prospect.Work.Repository.{Repository, ActionAuditEvent, empty_repository}
use btx_omni_prospect.Work.Policy.{Runtime, require_manager}
use btx_omni_prospect.Work.Edit.{edit}
use btx_omni_prospect.Work.Transition.{transition}
use btx_omni_prospect.Work.Approval.{decide_approval, decision_plan, request_approval}
use btx_omni_prospect.Work.Subtasks.{change_subtask}
use btx_omni_prospect.Work.Commands.{
  Command, creates, edits, moves, decides, requests, changes_subtask, execute, run,
}
use btx_omni_prospect.Work.Validity.{IsValid, IsValid-empty}
use btx_omni_prospect.Work.Validity.Plans.{
  edit_plan-Sound, transition_plan-Sound, decision_plan-Sound, request_plan-Sound,
  subtask_plan-Sound,
}
use btx_omni_prospect.Work.Validity.Steps.{
  OneStep, unchanged, saved, OneStep-IsValid, mutate-OneStep,
}
use btx_omni_prospect.Work.Validity.Creation.{create-OneStep}

decide-OneStep :
    (id : String) (decision : ApprovalStatus) (p : Principal) (now : DateTime) (expected : Option ℕ)
    (comment : Option String) (r : Repository)
    → IsValid r
    → OneStep r (decide_approval id decision p now expected comment r)
unfolding decide_approval
decide-OneStep id decision p now expected comment r v = elim (Result-cases (require_manager p)) [
  | inl (e, refused) ↦ unchanged (ground arith)
  | inr (_, allowed) ↦
      let plan = decision_plan decision p now expected comment in
      subst (OneStep r) (sym (rw (allowed, decide_approval)))
        (mutate-OneStep plan (decision_plan-Sound decision p now expected comment) id r v)
]

-- Every request, whether it returns or raises, leaves the repository as it is or saves one Action
-- at its next version together with the one event about it, and then returns that Action.
pub execute-OneStep :
    (rt : Runtime) (c : Command) (r : Repository) → IsValid r → OneStep r (execute rt c r)
unfolding execute edit transition request_approval change_subtask
execute-OneStep rt (creates c) r v = create-OneStep rt c r v
execute-OneStep rt (edits id p now expected c) r v =
    mutate-OneStep _ (edit_plan-Sound p now expected c) id r v
execute-OneStep rt (moves id status p now expected all) r v =
    mutate-OneStep _ (transition_plan-Sound status p now expected all) id r v
execute-OneStep rt (decides id decision p now expected comment) r v =
    decide-OneStep id decision p now expected comment r v
execute-OneStep rt (requests id p now expected) r v =
    mutate-OneStep _ (request_plan-Sound p now expected) id r v
execute-OneStep rt (changes_subtask id child p now expected key c) r v =
    mutate-OneStep _ (subtask_plan-Sound rt child p now expected key c) id r v

run_keeps : (rt : Runtime) (cs : List Command) (r : Repository) → IsValid r → IsValid (run rt cs r)
unfolding run
run_keeps rt [] r v = v
run_keeps rt (c ∷ rest) r v =
    run_keeps rt rest (execute rt c r).1 (OneStep-IsValid v (execute-OneStep rt c r v))

-- Whatever requests of the Action workflow are made of an empty repository: every Action is stored
-- under its own identifier, has as many audit events as its version says, and is sound (a completed one has a
-- completion time, no open subtask, and an approval that is granted or was not required; a
-- canceled one can be restored to open or active work); no event is about anything else.
pub run-IsValid : (rt : Runtime) (cs : List Command) → IsValid (run rt cs empty_repository)
run-IsValid rt cs = run_keeps rt cs empty_repository IsValid-empty

OneStep-events :
    {r : Repository} {result : Result WorkError Action × Repository}
    → OneStep r result
    → (more : List ActionAuditEvent) × (result.1.events ≡ r.events ++ more)
OneStep-events {r} (unchanged same) =
    ([], ap (λ (q : Repository). q.events) same ∙ sym (append-nil r.events))
OneStep-events (saved s) = (s.event ∷ [], ap (λ p. p.1.events) s.returned)

-- Requests only ever add to the audit log: no earlier event is changed, moved or removed.
pub events-run :
    (rt : Runtime) (cs : List Command) (r : Repository)
    → IsValid r
    → (more : List ActionAuditEvent) × ((run rt cs r).events ≡ r.events ++ more)
unfolding run
events-run rt [] r v = ([], sym (append-nil r.events))
events-run rt (c ∷ rest) r v =
    let step = execute-OneStep rt c r v in
    let (first, e) = OneStep-events step in
    let (more, f) = events-run rt rest (execute rt c r).1 (OneStep-IsValid v step) in
    (
      first ++ more,
      f ∙ ap (λ (l : List ActionAuditEvent). l ++ more) e ∙ append_assoc r.events first more,
    )
