-- ===== src/Work/Retries.antt =====
-- Retries: a repeated creation and a repeated change of a subtask change nothing again.
pub mod Subtasks
use btx_omni_prospect.Prelude.{
  ℕ, String, Bool, true, false, Option, none, some, List, [], ◌∷◌, ◌++◌, ◌≡◌, refl, sym, ◌∙◌, ap,
  subst, DateTime, arith, inl, inr, Option-cases, Bool-cases, find, beq_refl, string_eq, option_eq,
  option_beq_iff, ◌==◌, if◌then◌else◌, ◌&&◌, not, ◌⊎◌, some_truthy,
}
use mathlib.Core.List.{append-nil}
use btx_omni_prospect.Prelude.Dict
use btx_omni_prospect.Prelude.Result.{Result, ok, err, Result-cases}
use btx_omni_prospect.Work.Domain.{Action, Principal, WorkError}
use btx_omni_prospect.Work.Repository.{
  Repository, ActionAuditEvent, get, history, by_suggestion, save,
}
use btx_omni_prospect.Work.Policy.{Runtime, may_manage, require_manage}
use btx_omni_prospect.Work.Create.{
  CreateArgs, creation_plan, store_new, create_keyed, create, found_existing, found_legacy,
  identifier, plain_id, has_key, is_own_legacy, suggested, suggestion_replay, require_owner, caller,
  call_fingerprint, creation_replay,
}
use btx_omni_prospect.Work.Validity.{IsValid, stored, get-stored}
use btx_omni_prospect.Work.Validity.Creation.{
  IsNew, creation_plan-IsNew, found_existing-none, creator_may_manage, replay-stored,
  after_save-stored,
}

option_beq_of_eq : (a b : Option String) → a ≡ b → (a == b) ≡ true
option_beq_of_eq a b h = (option_beq_iff a b).1 h

-- What a creation that saved an Action has found.
pub record Made (rt : Runtime) (c : CreateArgs) (r : Repository) : Type 0 where
  pub owner_allowed : require_owner rt c ≡ ok tt
  pub none_suggested : suggested c r ≡ none
  pub none_existing : found_existing rt c r ≡ none
  pub action : Action
  pub event : ActionAuditEvent
  pub planned : creation_plan rt c ≡ ok (action, event)

module _ (rt : Runtime) (c : CreateArgs) (r : Repository) where
  create_cases : ((create rt c r).1 ≡ r) ⊎ Made rt c r
  unfolding create create_keyed store_new
  create_cases = elim (Result-cases (require_owner rt c)) [
    | inl (e, refused) ↦ inl (ground arith)
    | inr (_, allowed) ↦ elim (Option-cases (suggested c r)) [
      | inr (a, earlier) ↦ inl (ground arith)
      | inl fresh ↦ elim (Option-cases (found_existing rt c r)) [
        | inr (a, old) ↦ inl (ground arith)
        | inl new ↦ elim (Result-cases (creation_plan rt c)) [
          | inl (e, failed) ↦ inl (ground arith)
          | inr ((u, e), planned) ↦ inr (record {
            owner_allowed = allowed;
            none_suggested = fresh;
            none_existing = new;
            action = u;
            event = e;
            planned = planned;
          })
        ]
      ]
    ]
  ]

  module _ (v : IsValid r) (m : Made rt c r) where
    abbrev new : IsNew rt c m.action m.event
    new = creation_plan-IsNew rt c m.action m.event m.planned

    abbrev later : Repository
    later = stored r m.action m.event

    absent : get (identifier rt c) r ≡ none
    absent = found_existing-none rt c r m.none_existing

    create-made : create rt c r ≡ (ok m.action, later)
    unfolding create create_keyed store_new
    create-made =
        rw
          (
            m.owner_allowed, create, m.none_suggested, create_keyed, m.none_existing, store_new,
            m.planned,
          )
          (after_save-stored rt c r v m.action m.event new absent)

    -- Any replay of the new Action succeeds.
    suggestion_replay-new : suggestion_replay (caller rt c) c m.action ≡ ok m.action
    unfolding suggestion_replay require_manage
    suggestion_replay-new = ground (
      arith,
      creator_may_manage (caller rt c) m.action new.creator,
      option_beq_of_eq m.action.account_id c.account_id new.account,
    )

    suggested-later : (suggested c later ≡ none) ⊎ (suggested c later ≡ some m.action)
    unfolding suggested by_suggestion
    suggested-later = elim (Option-cases c.source_suggestion_id) [
      | inl plain ↦ inl (ground arith)
      | inr (s, given) ↦ elim (Bool-cases (some_truthy (some s))) [
        | inr blank ↦ inl (ground arith)
        | inl full ↦
            let none_before : find (λ a. a.source_suggestion_id == some s) (Dict.values r.items)
                ≡ none =
              ground (arith, m.none_suggested) in
            let named : (m.action.source_suggestion_id == some s) ≡ true =
              option_beq_of_eq m.action.source_suggestion_id (some s) (new.suggestion ∙ given) in
            inr (
              ground (
                arith,
                Dict.find-insert_new (λ a. a.source_suggestion_id == some s) m.action.id m.action
                    r.items none_before named,
              ))
      ]
    ]

    found_existing-later : found_existing rt c later ≡ some m.action
    unfolding found_existing found_legacy
    found_existing-later = ground (
      arith,
      m.none_existing,
      get-stored r m.action m.event (plain_id rt c),
      get-stored r m.action m.event (identifier rt c),
      string_eq.same_iff m.action.id (identifier rt c),
      string_eq.same_iff m.action.id (plain_id rt c),
      string_eq.same_iff m.action.created_by (caller rt c).user_id,
      option_beq_of_eq m.action.account_id c.account_id new.account,
      new.own_id,
      new.creator,
    )

    create-again : create rt c later ≡ (ok m.action, later)
    unfolding create create_keyed
    create-again = elim suggested-later [
      | inl fresh ↦
          rw (m.owner_allowed, create, fresh, create_keyed, found_existing-later)
            (ap (λ x. (x, later)) (replay-stored rt c r v m.action m.event new absent))
      | inr earlier ↦
          rw (m.owner_allowed, create, earlier) (ap (λ x. (x, later)) suggestion_replay-new)
    ]

  -- A creation that returned an Action, repeated with the same arguments, returns that Action again
  -- and changes nothing: no second Action, no second event.
  pub create_retry :
      (u : Action)
      → IsValid r
      → (create rt c r).0 ≡ ok u
      → create rt c (create rt c r).1 ≡ (ok u, (create rt c r).1)
  create_retry u v h = elim create_cases [
    | inl same ↦ subst (λ q. create rt c q ≡ (ok u, q)) (sym same) (λ i. (h i, same i))
    | inr m ↦
        let made = create-made v m in
        let returned : m.action ≡ u = cc (ap (λ q. q.0) made) in
        subst (λ q. create rt c q.1 ≡ (ok u, q.1)) (sym made)
          (subst (λ a. create rt c (later v m) ≡ (ok a, later v m)) returned (create-again v m))
  ]
