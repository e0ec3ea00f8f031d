-- ===== src/Work/Gates/Decisions.antt =====
-- Exactly when an approval is decided, and by whom.
use btx_omni_prospect.Prelude.{
  ℕ, String, true, false, Option, none, some, List, ◌≡◌, ◌≢◌, ◌↔◌, refl, sym, ◌∙◌, ap, DateTime,
  ◌+◌, arith, string_eq, is_empty, strip, or_default,
}
use btx_omni_prospect.Prelude.Result.{ok}
use btx_omni_prospect.Work.Domain.{
  ApprovalStatus, changes_requested, in_progress, Action, Principal, make_action, is_manager,
}
use btx_omni_prospect.Work.Repository.{
  Repository, ActionAuditEvent, approval_decided, decision as decision_metadata, get, history,
  make_event,
}
use btx_omni_prospect.Work.Policy.{require_manager, require_version}
use btx_omni_prospect.Work.Mutation.{Outcome, change, mutate}
use btx_omni_prospect.Work.Approval.{
  is_closed, awaits_decision, is_decision, needs_comment, requester, clean_comment, decided,
  decision_plan, decide_approval,
}
use btx_omni_prospect.Work.Validity.{IsValid, stored}
use btx_omni_prospect.Work.Validity.Sound.{IsSound}
use btx_omni_prospect.Work.Gates.{version_fits, perform-ok, planned_of_ok}

pub record MayDecide (a : Action) (decision : ApprovalStatus) (p : Principal) (now : DateTime)
    (expected : Option ℕ) (comment : Option String) : Type 0 where
  pub manager : is_manager p ≡ true
  pub fits : version_fits expected a ≡ true
  pub active : is_closed a.status ≡ false
  pub other_person : p.user_id ≢ requester a
  pub awaits : awaits_decision a.approval_status ≡ true
  pub decides : is_decision decision ≡ true
  pub commented : needs_comment decision ≡ true → is_empty (strip (or_default comment "")) ≡ false
  pub aware : now.aware ≡ true

-- The Action with the review, the comment, the status, the time and the version of another one.
abbrev pub with_review_of : Action → Action → Action
with_review_of b u = record u {
  approval_status = b.approval_status;
  approval_comment = b.approval_comment;
  status = b.status;
  updated_at = b.updated_at;
  version = b.version;
}

-- The Action u is a with the decision and its comment, once more updated: in progress where changes
-- are requested, and else in the status that it had.
pub record IsDecided (a : Action) (decision : ApprovalStatus) (now : DateTime)
    (comment : Option String) (u : Action) : Type 0 where
  pub review : u.approval_status ≡ decision
  pub commented :
      is_empty (strip (or_default comment "")) ≡ false
      → u.approval_comment ≡ some (strip (or_default comment ""))
  pub uncommented : is_empty (strip (or_default comment "")) ≡ true → u.approval_comment ≡ none
  pub resumed : decision ≡ changes_requested → u.status ≡ in_progress
  pub stays : decision ≢ changes_requested → u.status ≡ a.status
  pub updated : u.updated_at ≡ now
  pub next : u.version ≡ a.version + 1
  pub others : with_review_of a u ≡ a

decided-IsDecided :
    (a : Action) (decision : ApprovalStatus) (now : DateTime) (comment : Option String)
    → IsDecided a decision now comment (decided a decision now comment)
unfolding decided clean_comment
decided-IsDecided a decision now comment = record {
  review = refl;
  commented = λ h. ground arith;
  uncommented = λ h. ground arith;
  resumed = λ h. ground arith;
  stays = λ h. ground arith;
  updated = refl;
  next = refl;
  others = refl;
}

module _ (decision : ApprovalStatus) (p : Principal) (now : DateTime) (expected : Option ℕ)
    (comment : Option String) (a : Action) (h : List ActionAuditEvent) where
  plan_admits :
      (o : Outcome)
      → is_manager p ≡ true
      → decision_plan decision p now expected comment a h ≡ ok o
      → MayDecide a decision p now expected comment
  unfolding decision_plan require_version make_event
  plan_admits o m q = ground (arith, string_eq.same_iff p.user_id (requester a))

  -- The event about the decision, as its outcome u has it.
  abbrev pub decision_event : Action → ActionAuditEvent
  decision_event u = record {
    id = none;
    action_id = a.id;
    actor_id = p.user_id;
    event = approval_decided;
    occurred_at = now;
    metadata = decision_metadata a.approval_status decision u.approval_comment a.status u.status;
  }

  admits_plan :
      IsSound a
      → MayDecide a decision p now expected comment
      → decision_plan decision p now expected comment a h
        ≡ ok (
            change
              (decided a decision now comment)
              (decision_event (decided a decision now comment)))
  unfolding decision_plan require_version make_event make_action decided
  admits_plan s m = ground (arith, string_eq.same_iff p.user_id (requester a))

module _ (r : Repository) (v : IsValid r) (id : String) (a : Action) (found : get id r ≡ some a)
    (decision : ApprovalStatus) (p : Principal) (now : DateTime) (expected : Option ℕ)
    (comment : Option String) where
  decide-eq-mutate :
      is_manager p ≡ true
      → decide_approval id decision p now expected comment r
        ≡ mutate id (decision_plan decision p now expected comment) r
  unfolding decide_approval require_manager
  decide-eq-mutate m = ground arith

  manager_of_ok :
      (u : Action)
      → (decide_approval id decision p now expected comment r).0 ≡ ok u
      → is_manager p ≡ true
  unfolding decide_approval require_manager
  manager_of_ok u h = ground arith

  -- The approval of a stored Action is decided exactly when the principal is a manager and not the
  -- requester, no other version is expected, the Action is open or in progress and awaits a
  -- decision, the decision is one of the three, a rejection or a request for changes has a
  -- comment, and the clock is aware. The call then returns and stores the Action with the decision,
  -- the comment without white space around it (none where it is empty), the time and the next
  -- version, in progress where changes are requested, and otherwise as it was; with one event that
  -- has the principal, the time, the decision, the comment, and the statuses before and after.
  pub decide_iff : MayDecide a decision p now expected comment ↔ (
      (u : Action) × IsDecided a decision now comment u
      × (decide_approval id decision p now expected comment r
          ≡ (ok u, stored r u (decision_event decision p now expected comment a (history id r) u))))
  decide_iff =
      let plan = decision_plan decision p now expected comment in
      let h = history id r in
      (
        λ m.
            let u = decided a decision now comment in
            (
              u,
              decided-IsDecided a decision now comment,
              decide-eq-mutate m.manager
                  ∙ perform-ok r v id a found plan u
                      (decision_event decision p now expected comment a h u)
                      (unfold decided in refl)
                      (admits_plan decision p now expected comment a h (v.sound id a found) m),
            ),
        λ (u, _, returned).
            let m = manager_of_ok u (ap (λ q. q.0) returned) in
            let (o, planned) =
              planned_of_ok r v id a found plan u
                (ap (λ q. q.0) (sym (decide-eq-mutate m) ∙ returned)) in
            plan_admits decision p now expected comment a h o m planned,
      )
