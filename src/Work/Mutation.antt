-- ===== src/Work/Mutation.antt =====
-- What the operations on one Action share: read it, plan the change, save it at the version read.
use btx_omni_prospect.Prelude.{String, none, some, List}
use btx_omni_prospect.Prelude.Result.{Result, ok, err}
use btx_omni_prospect.Prelude.Exec.{Exec}
use btx_omni_prospect.Work.Domain.{Action, WorkError, action_not_found}
use btx_omni_prospect.Work.Repository.{Repository, ActionAuditEvent, get, history, save}

-- Return the Action as it is, or save a new one with its audit event.
pub data Outcome : Type 0 where
  keep : Outcome
  change : (updated : Action) (event : ActionAuditEvent) → Outcome

abbrev pub Plan : Type 0
Plan = Action → List ActionAuditEvent → Result WorkError Outcome

abbrev pub perform : Action → Result WorkError Outcome → Exec Repository WorkError Action
perform action (err e) r = (err e, r)
perform action (ok keep) r = (ok action, r)
perform action (ok (change updated event)) r = save updated event (some action.version) r

-- `WorkService.get`
unfoldable pub get_action : String → Exec Repository WorkError Action
get_action id r = elim (get id r) [ none ↦ (err action_not_found, r) | some a ↦ (ok a, r) ]

unfoldable pub mutate : String → Plan → Exec Repository WorkError Action
mutate id plan r = elim (get id r) [
  | none ↦ (err action_not_found, r)
  | some action ↦ perform action (plan action (history id r)) r
]

-- `WorkService.audit`
unfoldable pub audit : String → Exec Repository WorkError (List ActionAuditEvent)
audit id r = elim (get id r) [ none ↦ (err action_not_found, r) | some a ↦ (ok (history id r), r) ]
