-- ===== src/Work/Validity.antt =====
-- The invariant of the repository, and the two ways in which it is kept: by a new or changed
-- Action saved with its event, and by a planned change.
pub mod Sound
pub mod Completion
pub mod Plans
pub mod Steps
pub mod Creation
pub mod Runs
use btx_omni_prospect.Prelude.{
  ℕ, ◌+◌, String, Bool, true, false, Option, none, some, List, [], ◌∷◌, ◌++◌, ◌≡◌, refl, ◌∙◌, ap,
  sym, length, length-append, select-append, string_eq, ◌==◌, if◌then◌else◌, arith, Bool-cases, inl,
  inr, eq_of_beq, subst, ◌⊎◌,
}
use mathlib.Core.List.{append-nil}
use mathlib.Core.Option.{some-injective}
use btx_omni_prospect.Prelude.Dict
use btx_omni_prospect.Prelude.Result.{Result, ok, err}
use btx_omni_prospect.Work.Domain.{Action, WorkError}
use btx_omni_prospect.Work.Repository.{
  Repository, ActionAuditEvent, empty_repository, get, history, save, stale_save,
}
use btx_omni_prospect.Work.Mutation.{Outcome, keep, change, Plan, mutate, perform}
use btx_omni_prospect.Work.Validity.Sound.{IsSound}

-- Every Action is stored under its own identifier, is sound, and has one event for each version;
-- an identifier that is not stored has no event.
pub record IsValid (r : Repository) : Type 0 where
  pub own_id : (id : String) (a : Action) → get id r ≡ some a → a.id ≡ id
  pub sound : (id : String) (a : Action) → get id r ≡ some a → IsSound a
  pub audited : (id : String) (a : Action) → get id r ≡ some a → a.version ≡ length (history id r)
  pub orphan : (id : String) → get id r ≡ none → history id r ≡ []

pub IsValid-empty : IsValid empty_repository
unfolding get history Dict.lookup
IsValid-empty = record {
  own_id = λ id a h. cc;
  sound = λ id a h. absurd (cc);
  audited = λ id a h. cc;
  orphan = λ id h. refl;
}

abbrev pub stored : Repository → Action → ActionAuditEvent → Repository
stored r u e = record r { items = Dict.insert u.id u r.items; events = r.events ++ e ∷ [] }

pub get-stored :
    (r : Repository) (u : Action) (e : ActionAuditEvent) (id : String)
    → get id (stored r u e) ≡ (if u.id == id then some u else get id r)
unfolding get
get-stored r u e id = Dict.lookup-insert u.id id u r.items

pub history-stored :
    (r : Repository) (u : Action) (e : ActionAuditEvent) (id : String)
    → history id (stored r u e) ≡ history id r ++ (if e.action_id == id then e ∷ [] else [])
unfolding history
history-stored r u e id = rw select-append refl

-- An event that is about the Action, whose version counts it.
pub record IsNext (r : Repository) (u : Action) (e : ActionAuditEvent) : Type 0 where
  pub about : e.action_id ≡ u.id
  pub is_sound : IsSound u
  pub counted : u.version ≡ length (history u.id r) + 1

module _ (r : Repository) (u : Action) (e : ActionAuditEvent) (id : String) where
  pub history-stored_self : e.action_id ≡ id → history id (stored r u e) ≡ history id r ++ e ∷ []
  history-stored_self about =
      history-stored r u e id
      ∙ ap (λ b. history id r ++ (if b then e ∷ [] else [])) ((string_eq.same_iff _ _).1 about)

  pub history-stored_ne : (e.action_id == id) ≡ false → history id (stored r u e) ≡ history id r
  history-stored_ne other =
      history-stored r u e id
      ∙ ap (λ b. history id r ++ (if b then e ∷ [] else [])) other
      ∙ append-nil (history id r)

module _ (r : Repository) (v : IsValid r) (u : Action) (e : ActionAuditEvent)
    (n : IsNext r u e) where
  length-history-stored : length (history u.id (stored r u e)) ≡ u.version
  length-history-stored = omega (
    arith,
    ap (length {A = ActionAuditEvent}) (history-stored_self r u e u.id n.about),
    length-append {0} (history u.id r) (e ∷ []),
    n.counted,
  )

  other_event : (id : String) → (u.id == id) ≡ false → (e.action_id == id) ≡ false
  other_event id h = subst (λ k. (k == id) ≡ false) (sym n.about) h

  -- What `get` finds afterwards: the saved Action, or another one, of an untouched identifier.
  found_cases :
      (id : String) (a : Action)
      → get id (stored r u e) ≡ some a
      → ((u ≡ a) × (u.id ≡ id)) ⊎ ((get id r ≡ some a) × ((u.id == id) ≡ false))
  found_cases id a h =
      ground (arith, get-stored r u e id, string_eq.same_iff u.id id, some-injective u a)

  pub stored-IsValid : IsValid (stored r u e)
  stored-IsValid = record {
    own_id = λ id a h. elim (found_cases id a h) [
      | inl (same, own) ↦ subst (λ b. b.id ≡ id) same own
      | inr (old, _) ↦ v.own_id id a old
    ];
    sound = λ id a h. elim (found_cases id a h) [
      | inl (same, _) ↦ subst IsSound same n.is_sound
      | inr (old, _) ↦ v.sound id a old
    ];
    audited = λ id a h. elim (found_cases id a h) [
      | inl (same, own) ↦
          subst (λ b. b.version ≡ length (history id (stored r u e))) same
            (subst (λ k. u.version ≡ length (history k (stored r u e))) own
              (sym length-history-stored))
      | inr (old, other) ↦
          v.audited id a old
          ∙ ap (length {A = ActionAuditEvent})
              (sym (history-stored_ne r u e id (other_event id other)))
    ];
    orphan = λ id h.
        let untouched : (get id r ≡ none) × ((u.id == id) ≡ false) =
          ground (arith, get-stored r u e id) in
        history-stored_ne r u e id (other_event id untouched.1) ∙ v.orphan id untouched.0;
  }
