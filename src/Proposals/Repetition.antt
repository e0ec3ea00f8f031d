-- ===== src/Proposals/Repetition.antt =====
-- A call that is made again returns what was recorded and writes nothing.
use btx_omni_prospect.Prelude.{
  String, Bool, true, Option, none, some, List, [], ◌∷◌, ◌++◌, ◌≡◌, find, DateTime, arith, inl, inr,
  Option-cases, ◌==◌, string_eq, option_eq, beq_refl,
}
use btx_omni_prospect.Prelude.Result.{ok, Result-cases}
use btx_omni_prospect.Work.Domain.{Action, Principal}
use btx_omni_prospect.Work.CrmRecords.{Receipt, Attempt}
use btx_omni_prospect.Work.Repository.{
  Repository, ActionAuditEvent, get, history, transact_audit, make_event,
}
use btx_omni_prospect.Proposals.Log.{attempts, completes, attempt_of}
use btx_omni_prospect.Proposals.Snapshot.{CrmProposalWorkflow}
use btx_omni_prospect.Proposals.Decisions.{current_proposal}
use btx_omni_prospect.Proposals.Sampling.{
  first_attempt, execute_operation, execute_sample, new_attempt, executed, key_hash,
  request_fingerprint_of,
}
use btx_omni_prospect.Proposals.Sound.{gather-snoc}
use btx_omni_prospect.Proposals.Runs.{IsLogged, history-logged}
use btx_omni_prospect.Proposals.Steps.{execute_operation-Appends}
use btx_omni_prospect.Proposals.Execution.{transact-eq-ok, executes-eq-ok}

find-snoc {ℓ} :
    {A : Type ℓ} (p : A → Bool) (xs : List A) (x : A)
    → find p xs ≡ none
    → p x ≡ true
    → find p (xs ++ x ∷ []) ≡ some x
find-snoc p [] x n h = ground arith
find-snoc p (y ∷ ys) x n h = ground (arith, find-snoc p ys x)

module _ (x : CrmProposalWorkflow) (id : String) (expected : Option String) (key : String)
    (p : Principal) (now later : DateTime) (a : Action) (h : List ActionAuditEvent) where
  same_key : Attempt → Bool
  same_key t = t.request_key_hash == key_hash x p key

  -- An operation that appended nothing does the same again.
  quiet_again :
      (out : Receipt × Bool)
      → execute_operation x id expected key p now a h ≡ ok (none, out)
      → execute_operation x id expected key p later a h ≡ ok (none, (out.0, true))
  unfolding execute_operation first_attempt make_event
  quiet_again out q =
      elim (Option-cases (find (λ t. t.request_key_hash == key_hash x p key) (attempts h))) [
        | inr (t, replay) ↦ ground arith
        | inl fresh ↦ elim (Result-cases (current_proposal x a h id)) [
          | inl (f, failed) ↦ ground arith
          | inr (proposal, current) ↦ elim (Option-cases (find (completes id) (attempts h))) [
            | inr (t, done) ↦ ground arith
            | inl open_still ↦ elim (Result-cases (executed x a proposal)) [
              | inl (f, failed) ↦ ground arith
              | inr (result, answer) ↦ ground arith
            ]
          ]
        ]
      ]

  -- An operation that appended an attempt finds it.
  found_again :
      (e : ActionAuditEvent) (out : Receipt × Bool)
      → execute_operation x id expected key p now a h ≡ ok (some e, out)
      → execute_operation x id expected key p later a (h ++ e ∷ []) ≡ ok (none, (out.0, true))
  unfolding execute_operation first_attempt make_event new_attempt attempts
  found_again e out q =
      elim (Option-cases (find (λ t. t.request_key_hash == key_hash x p key) (attempts h))) [
        | inr (t, replay) ↦ ground arith
        | inl fresh ↦ elim (Result-cases (current_proposal x a h id)) [
          | inl (f, failed) ↦ ground arith
          | inr (proposal, current) ↦ elim (Result-cases (executed x a proposal)) [
            | inl (f, failed) ↦ ground arith
            | inr (result, answer) ↦
                let t = new_attempt x id expected key p now a result in
                ground (
                  arith,
                  gather-snoc attempt_of h e,
                  find-snoc (λ (u : Attempt). u.request_key_hash == key_hash x p key) (attempts h)
                      t,
                  beq_refl (key_hash x p key),
                  beq_refl (request_fingerprint_of x id expected),
                )
          ]
        ]
      ]

-- An execution that succeeded, made again by the same manager with the same arguments at any later
-- time, returns the same receipt as that of an earlier attempt and changes nothing.
pub execution_again :
    (x : CrmProposalWorkflow) (action_id id : String) (expected : Option String) (key : String)
    (p : Principal) (now later : DateTime) (r s : Repository) (receipt : Receipt) (replayed : Bool)
    → IsLogged r
    → execute_sample x action_id id expected key p now r ≡ (ok (receipt, replayed), s)
    → execute_sample x action_id id expected key p later s ≡ (ok (receipt, true), s)
unfolding execute_sample transact_audit get
execution_again x action_id id expected key p now later r s receipt replayed v h =
    let (usable, ran) =
      executes-eq-ok x action_id id expected key p now r s (receipt, replayed) h in
    let (a, found, o, returned, state) =
      transact-eq-ok (execute_operation x id expected key p now) action_id r s (receipt, replayed)
        ran in
    let es = history action_id r in
    elim (Option-cases o) [
      | inl quiet ↦
          ground (arith, quiet_again x id expected key p now later a es (receipt, replayed))
      | inr (e, wrote) ↦
          let about =
            execute_operation-Appends x id expected key p now a es e (receipt, replayed)
              (v.logs action_id) (ground arith) in
          let own : (e.action_id == action_id) ≡ true = ground (
            arith,
            about.0,
            v.own_id action_id a found,
            string_eq.same_iff e.action_id action_id,
          ) in
          ground (
            arith,
            own,
            found_again x id expected key p now later a es e (receipt, replayed),
            history-logged r e action_id,
          )
    ]
