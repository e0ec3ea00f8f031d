-- ===== src/Work/Validity/Creation.antt =====
-- A creation saves one new Action, or returns an earlier one and changes nothing.
use btx_omni_prospect.Prelude.{
  String, true, Option, none, some, [], ◌∷◌, ◌≡◌, sym, ◌∙◌, ap, subst, inl, inr, arith, length,
  Option-cases, string_eq, ◌==◌, beq_refl, nat_eq, option_eq, ◌++◌,
}
use btx_omni_prospect.Prelude.Result.{ok, Result-cases}
use btx_omni_prospect.Work.Domain.{Action, Principal}
use btx_omni_prospect.Work.Repository.{
  Repository, ActionAuditEvent, get, history, save, make_event, is_created, creation_fingerprint?,
}
use btx_omni_prospect.Work.Policy.{Runtime, require_manage, may_manage}
use btx_omni_prospect.Work.Create.{
  CreateArgs, new_action, creation_plan, store_new, create_keyed, create, found_existing,
  identifier, creation_replay, original_fingerprint, recorded_fingerprint, call_fingerprint, caller,
  suggested, require_owner, after_save,
}
use btx_omni_prospect.Work.Validity.{IsValid, IsNext, stored, history-stored_self}
use btx_omni_prospect.Work.Validity.Sound.{IsSound}
use btx_omni_prospect.Work.Validity.Plans.{make_action-eq-ok}
use btx_omni_prospect.Work.Validity.Steps.{OneStep, unchanged, saved}

-- A new Action, its event, and the call that they come from.
pub record IsNew (rt : Runtime) (c : CreateArgs) (u : Action) (e : ActionAuditEvent) : Type 0 where
  pub own_id : u.id ≡ identifier rt c
  pub about : e.action_id ≡ u.id
  pub is_sound : IsSound u
  pub first : u.version ≡ 1
  pub creator : u.created_by ≡ (caller rt c).user_id
  pub account : u.account_id ≡ c.account_id
  pub suggestion : u.source_suggestion_id ≡ c.source_suggestion_id
  pub marked : is_created e.event ≡ true
  pub fingerprint : creation_fingerprint? e.metadata ≡ call_fingerprint rt c

pub creation_plan-IsNew :
    (rt : Runtime) (c : CreateArgs) (u : Action) (e : ActionAuditEvent)
    → creation_plan rt c ≡ ok (u, e)
    → IsNew rt c u e
unfolding creation_plan make_event new_action
creation_plan-IsNew rt c u e h = ground (arith, make_action-eq-ok (new_action rt c) u)

pub creator_may_manage :
    (p : Principal) (a : Action) → a.created_by ≡ p.user_id → may_manage p a ≡ true
unfolding may_manage
creator_may_manage p a h = ground (arith, string_eq.same_iff a.created_by p.user_id)

pub replay-eq-ok :
    (rt : Runtime) (a : Action) (p : Principal) (fingerprint : Option String) (r : Repository)
    → may_manage p a ≡ true
    → recorded_fingerprint (history a.id r) ≡ fingerprint
    → creation_replay rt a p fingerprint r ≡ ok a
unfolding creation_replay require_manage
replay-eq-ok rt a p none r m h = ground arith
replay-eq-ok rt a p (some f) r m h =
    let original : original_fingerprint rt a (history a.id r) ≡ some f =
      unfold original_fingerprint in ground (arith, h) in
    ground (arith, original, beq_refl f)

pub found_existing-none :
    (rt : Runtime) (c : CreateArgs) (r : Repository)
    → found_existing rt c r ≡ none
    → get (identifier rt c) r ≡ none
unfolding found_existing
found_existing-none rt c r h = ground arith

module _ (rt : Runtime) (c : CreateArgs) (r : Repository) (v : IsValid r) where
  module _ (u : Action) (e : ActionAuditEvent) (n : IsNew rt c u e)
      (absent : get (identifier rt c) r ≡ none) where
    no_history : history u.id r ≡ []
    no_history = v.orphan u.id (subst (λ k. get k r ≡ none) (sym n.own_id) absent)

    pub IsNew-IsNext : IsNext r u e
    IsNew-IsNext = record {
      about = n.about;
      is_sound = n.is_sound;
      counted = omega (arith, n.first, ap (length {A = ActionAuditEvent}) no_history);
    }

    first_event : history u.id (stored r u e) ≡ e ∷ []
    first_event = history-stored_self r u e u.id n.about ∙ ap (λ h. h ++ e ∷ []) no_history

    pub recorded-stored : recorded_fingerprint (history u.id (stored r u e)) ≡ call_fingerprint rt c
    recorded-stored = ap recorded_fingerprint first_event ∙ recorded_one
      where
        recorded_one : recorded_fingerprint (e ∷ []) ≡ call_fingerprint rt c
        recorded_one = unfold recorded_fingerprint in ground (arith, n.marked, n.fingerprint)

    pub replay-stored :
        creation_replay rt u (caller rt c) (call_fingerprint rt c) (stored r u e) ≡ ok u
    replay-stored =
        replay-eq-ok rt u (caller rt c) (call_fingerprint rt c) (stored r u e)
          (creator_may_manage (caller rt c) u n.creator) recorded-stored

    pub after_save-stored : after_save rt c (save u e none r) ≡ (ok u, stored r u e)
    after_save-stored =
        let same : (u.account_id == c.account_id) ≡ true =
          subst (λ x. (x == c.account_id) ≡ true) (sym n.account) (beq_refl c.account_id) in
        unfold save in rw (same, replay-stored)

  pub store_new-OneStep : found_existing rt c r ≡ none → OneStep r (store_new rt c r)
  unfolding store_new
  store_new-OneStep h = elim (Result-cases (creation_plan rt c)) [
    | inl (e, failed) ↦ unchanged (ground arith)
    | inr ((u, e), planned) ↦
        let n = creation_plan-IsNew rt c u e planned in
        let absent = found_existing-none rt c r h in
        saved (record {
          action = u;
          event = e;
          next = IsNew-IsNext u e n absent;
          returned = rw (planned, store_new) (after_save-stored u e n absent);
        })
  ]

  create_keyed-OneStep : OneStep r (create_keyed rt c r)
  unfolding create_keyed
  create_keyed-OneStep = elim (Option-cases (found_existing rt c r)) [
    | inl new ↦ subst (OneStep r) (sym (rw (new, create_keyed))) (store_new-OneStep new)
    | inr (a, old) ↦ unchanged (ground arith)
  ]

  pub create-OneStep : OneStep r (create rt c r)
  unfolding create
  create-OneStep = elim (Result-cases (require_owner rt c)) [
    | inl (e, refused) ↦ unchanged (ground arith)
    | inr (_, allowed) ↦ elim (Option-cases (suggested c r)) [
      | inl none_yet ↦ subst (OneStep r) (sym (rw (allowed, create, none_yet))) create_keyed-OneStep
      | inr (a, earlier) ↦ unchanged (ground arith)
    ]
  ]
