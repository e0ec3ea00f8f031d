-- ===== src/Work/Concurrency.antt =====
-- Two writers that read the same version of an Action.
use btx_omni_prospect.Prelude.{
  ℕ, ◌+◌, String, Bool, Option, some, List, [], ◌∷◌, ◌≡◌, sym, ◌∙◌, ap, subst, ◌⊎◌, inl, inr,
  DateTime, arith, Option-cases, Bool-cases, nat_eq, ◌==◌, if◌then◌else◌, string_eq, length,
}
use mathlib.Core.Option.{some-injective}
use btx_omni_prospect.Prelude.Result.{ok, Result-cases}
use btx_omni_prospect.Work.Domain.{ActionStatus, ApprovalStatus, Subtask, Action, Principal}
use btx_omni_prospect.Work.Repository.{Repository, ActionAuditEvent, FieldChange, get, history}
use btx_omni_prospect.Work.Policy.{Runtime, require_version}
use btx_omni_prospect.Work.Mutation.{keep, change, Outcome, Plan, mutate}
use btx_omni_prospect.Work.Edit.{Changes, edit, edit_plan, save_edit, permitted}
use btx_omni_prospect.Work.Transition.{transition, transition_plan}
use btx_omni_prospect.Work.Approval.{decide_approval, decision_plan, request_approval, request_plan}
use btx_omni_prospect.Work.Subtasks.{
  SubtaskChanges, change_subtask, subtask_plan, new_subtask_plan, find_child,
}
use btx_omni_prospect.Work.Commands.{
  Command, creates, edits, moves, decides, requests, changes_subtask, execute, target,
  expected_version,
}
use btx_omni_prospect.Work.Validity.{IsValid, stored, get-stored}
use btx_omni_prospect.Work.Validity.Plans.{
  edit_plan-Sound, transition_plan-Sound, decision_plan-Sound, request_plan-Sound,
  subtask_plan-Sound, edit_plan-eq-ok,
}
use btx_omni_prospect.Work.Validity.Steps.{unchanged, saved, mutate-target}
use btx_omni_prospect.Work.Validity.Runs.{execute-OneStep}

-- A plan that changes an Action has found it at the version that the call expects.
abbrev IsFresh : Plan → Option ℕ → Type 0
IsFresh plan expected =
    (a : Action) (h : List ActionAuditEvent) (u : Action) (e : ActionAuditEvent) (v : ℕ)
    → plan a h ≡ ok (change u e)
    → expected ≡ some v
    → a.version ≡ v

save_edit-fresh :
    (p : Principal) (now : DateTime) (expected : Option ℕ) (c : Changes) (a : Action)
    (fields : List FieldChange) (u : Action) (e : ActionAuditEvent) (v : ℕ)
    → save_edit p now expected c a fields ≡ ok (change u e)
    → expected ≡ some v
    → a.version ≡ v
unfolding save_edit require_version
save_edit-fresh p now expected c a [] u e v h q = cc
save_edit-fresh p now expected c a (first ∷ rest) u e v h q = ground arith

edit_plan-IsFresh :
    (p : Principal) (now : DateTime) (expected : Option ℕ) (c : Changes)
    → IsFresh (edit_plan p now expected c) expected
edit_plan-IsFresh p now expected c a h u e v q x =
    save_edit-fresh p now expected c a (permitted a c) u e v
      (edit_plan-eq-ok p now expected c a h (change u e) q) x

transition_plan-IsFresh :
    (status : ActionStatus) (p : Principal) (now : DateTime) (expected : Option ℕ) (all : Bool)
    → IsFresh (transition_plan status p now expected all) expected
unfolding transition_plan require_version
transition_plan-IsFresh status p now expected all a h u e v q x = ground arith

decision_plan-IsFresh :
    (decision : ApprovalStatus) (p : Principal) (now : DateTime) (expected : Option ℕ)
    (comment : Option String)
    → IsFresh (decision_plan decision p now expected comment) expected
unfolding decision_plan require_version
decision_plan-IsFresh decision p now expected comment a h u e v q x = ground arith

request_plan-IsFresh :
    (p : Principal) (now : DateTime) (expected : ℕ)
    → IsFresh (request_plan p now expected) (some expected)
unfolding request_plan require_version
request_plan-IsFresh p now expected a h u e v q x = ground arith

new_subtask_plan-IsFresh :
    (rt : Runtime) (id : Option String) (p : Principal) (now : DateTime) (expected : ℕ)
    (key : String) (c : SubtaskChanges) (a : Action) (original : Option Subtask) (o : Outcome)
    → new_subtask_plan rt id p now expected key c a original ≡ ok o
    → a.version ≡ expected
unfolding new_subtask_plan require_version
new_subtask_plan-IsFresh rt id p now expected key c a original o h = ground arith

subtask_plan-IsFresh :
    (rt : Runtime) (id : Option String) (p : Principal) (now : DateTime) (expected : ℕ)
    (key : String) (c : SubtaskChanges)
    → IsFresh (subtask_plan rt id p now expected key c) (some expected)
unfolding subtask_plan
subtask_plan-IsFresh rt id p now expected key c a h u e v q x = ground (
  arith,
  new_subtask_plan-IsFresh rt id p now expected key c a (find_child id a.subtasks) (change u e),
)

-- The Action is stored at this version.
abbrev pub IsCurrent : Repository → String → ℕ → Type 0
IsCurrent r id v = (a : Action) × (get id r ≡ some a) × (a.version ≡ v)

mutate_stale :
    (plan : Plan) (expected : Option ℕ) (v : ℕ) (id : String) (r : Repository)
    → IsFresh plan expected
    → expected ≡ some v
    → ¬ IsCurrent r id v
    → (mutate id plan r).1 ≡ r
unfolding mutate
mutate_stale plan expected v id r fresh x stale = elim (Option-cases (get id r)) [
  | inl absent ↦ ground arith
  | inr (a, found) ↦ elim (Result-cases (plan a (history id r))) [
    | inl (e, failed) ↦ ground arith
    | inr (keep, planned) ↦ ground arith
    | inr (change u e, planned) ↦ absurd (stale (a, found, fresh a (history id r) u e v planned x))
  ]
]

-- A request that expects a version at which the Action is not stored changes nothing.
pub execute_stale :
    (rt : Runtime) (c : Command) (r : Repository) (v : ℕ)
    → expected_version c ≡ some v
    → ¬ IsCurrent r (target c) v
    → (execute rt c r).1 ≡ r
unfolding execute edit transition decide_approval request_approval change_subtask
execute_stale rt (creates c) r v x stale = cc
execute_stale rt (edits id p now expected c) r v x stale =
    mutate_stale _ expected v id r (edit_plan-IsFresh p now expected c) x stale
execute_stale rt (moves id status p now expected all) r v x stale =
    mutate_stale _ expected v id r (transition_plan-IsFresh status p now expected all) x stale
execute_stale rt (decides id decision p now expected comment) r v x stale = ground (
  arith,
  mutate_stale (decision_plan decision p now expected comment) expected v id r
      (decision_plan-IsFresh decision p now expected comment) x stale,
)
execute_stale rt (requests id p now expected) r v x stale =
    mutate_stale _ (some expected) v id r (request_plan-IsFresh p now expected) x stale
execute_stale rt (changes_subtask id child p now expected key c) r v x stale =
    mutate_stale _ (some expected) v id r (subtask_plan-IsFresh rt child p now expected key c) x
      stale

execute-target :
    (rt : Runtime) (c : Command) (r : Repository) (u : Action) (v : ℕ)
    → IsValid r
    → expected_version c ≡ some v
    → (execute rt c r).0 ≡ ok u
    → u.id ≡ target c
unfolding execute edit transition decide_approval request_approval change_subtask
execute-target rt (creates c) r u v w x h = cc
execute-target rt (edits id p now expected c) r u v w x h =
    mutate-target _ (edit_plan-Sound p now expected c) id r u w h
execute-target rt (moves id status p now expected all) r u v w x h =
    mutate-target _ (transition_plan-Sound status p now expected all) id r u w h
execute-target rt (decides id decision p now expected comment) r u v w x h = ground (
  arith,
  mutate-target (decision_plan decision p now expected comment)
      (decision_plan-Sound decision p now expected comment) id r u w,
)
execute-target rt (requests id p now expected) r u v w x h =
    mutate-target _ (request_plan-Sound p now expected) id r u w h
execute-target rt (changes_subtask id child p now expected key c) r u v w x h =
    mutate-target _ (subtask_plan-Sound rt child p now expected key c) id r u w h

-- After a save the Action is at the version after the one that was read.
saved_is_later :
    (r : Repository) (u : Action) (e : ActionAuditEvent) (id : String) (a : Action)
    → IsValid r
    → u.version ≡ length (history u.id r) + 1
    → u.id ≡ id
    → get id r ≡ some a
    → ¬ IsCurrent (stored r u e) id a.version
saved_is_later r u e id a v counted own found (b, now, same) =
    let latest : u ≡ b = some-injective u b (
      sym (
        get-stored r u e id
        ∙ ap (λ t. if t then some u else get id r) ((string_eq.same_iff _ _).1 own))
      ∙ now) in
    let older : u.version ≡ a.version + 1 =
      subst (λ k. u.version ≡ length (history k r) + 1) own counted
      ∙ ap (λ n. n + 1) (sym (v.audited id a found)) in
    absurd (omega (arith, ap (λ (x : Action). x.version) latest))

-- Of two requests that expect the same version of one Action, whoever makes them and whatever
-- they ask, at most one changes anything: the second never overwrites the first.
pub no_lost_update :
    (rt : Runtime) (first second : Command) (r : Repository) (v : ℕ)
    → IsValid r
    → expected_version first ≡ some v
    → expected_version second ≡ some v
    → target first ≡ target second
    → ((execute rt first r).1 ≡ r)
      ⊎ ((execute rt second (execute rt first r).1).1 ≡ (execute rt first r).1)
no_lost_update rt first second r v w x y t = elim (execute-OneStep rt first r w) [
  | unchanged same ↦ inl same
  | saved s ↦ elim (Option-cases (get (target first) r)) [
    | inl absent ↦ inl (execute_stale rt first r v x (λ (a, found, _). cc))
    | inr (a, found) ↦ elim (Bool-cases (a.version == v)) [
      | inr other ↦
          inl (execute_stale rt first r v x (λ (b, found', at). ground (arith, some-injective a b)))
      | inl now ↦
          let own = execute-target rt first r s.action v w x (ap (λ p. p.0) s.returned) in
          let later =
            saved_is_later r s.action s.event (target first) a w s.next.counted own found in
          inr (
            execute_stale rt second (execute rt first r).1 v y (
              subst (λ id. ¬ IsCurrent (execute rt first r).1 id v) t
                (subst (λ p. ¬ IsCurrent p.1 (target first) v) (sym s.returned)
                  (subst (λ n. ¬ IsCurrent (stored r s.action s.event) (target first) n)
                    ((nat_eq.same_iff a.version v).0 now) later))))
    ]
  ]
]
