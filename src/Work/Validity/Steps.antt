-- ===== src/Work/Validity/Steps.antt =====
-- An operation leaves the repository as it is, or saves one Action with one event.
use btx_omni_prospect.Prelude.{
  ◌+◌, String, some, ◌≡◌, refl, sym, ◌∙◌, ap, subst, inl, inr, arith, length, Option-cases,
  string_eq, beq_refl, nat_eq, option_eq,
}
use btx_omni_prospect.Prelude.Result.{Result, ok, Result-cases}
use btx_omni_prospect.Work.Domain.{Action, WorkError}
use btx_omni_prospect.Work.Repository.{Repository, ActionAuditEvent, get, history, save}
use btx_omni_prospect.Work.Mutation.{keep, change, Plan, perform, mutate}
use btx_omni_prospect.Work.Validity.{IsValid, IsNext, stored, stored-IsValid}
use btx_omni_prospect.Work.Validity.Plans.{PlanSound, IsStep}

-- The Action and the event that an operation saved.
pub record Saved (r : Repository) (result : Result WorkError Action × Repository) : Type 0 where
  pub action : Action
  pub event : ActionAuditEvent
  pub next : IsNext r action event
  pub returned : result ≡ (ok action, stored r action event)

pub data OneStep (r : Repository) (result : Result WorkError Action × Repository) : Type 0 where
  unchanged : result.1 ≡ r → OneStep r result
  saved : Saved r result → OneStep r result

pub OneStep-IsValid :
    {r : Repository} {result : Result WorkError Action × Repository}
    → IsValid r
    → OneStep r result
    → IsValid result.1
OneStep-IsValid v (unchanged e) = subst IsValid (sym e) v
OneStep-IsValid {r} v (saved s) =
    subst (λ p. IsValid p.1) (sym s.returned) (stored-IsValid r v s.action s.event s.next)

pub save-eq-ok :
    (u a : Action) (e : ActionAuditEvent) (r : Repository)
    → get u.id r ≡ some a
    → save u e (some a.version) r ≡ (ok u, stored r u e)
unfolding save
save-eq-ok u a e r h = rw (h, beq_refl a.version)

IsStep-IsNext :
    (r : Repository) (a u : Action) (e : ActionAuditEvent) (id : String)
    → IsValid r
    → get id r ≡ some a
    → IsStep a u e
    → IsNext r u e
IsStep-IsNext r a u e id v h st =
    let own = v.own_id id a h in
    record {
      about = st.about ∙ sym st.same_id;
      is_sound = st.is_sound;
      counted =
          st.next
          ∙ ap (λ n. n + 1) (v.audited id a h)
          ∙ ap (λ k. length (history k r) + 1) (sym (st.same_id ∙ own));
    }

pub mutate-eq-perform :
    (id : String) (plan : Plan) (r : Repository) (a : Action)
    → get id r ≡ some a
    → mutate id plan r ≡ perform a (plan a (history id r)) r
unfolding mutate
mutate-eq-perform id plan r a found = rw (found, mutate) refl

module _ (plan : Plan) (sound : PlanSound plan) where
  pub mutate-OneStep : (id : String) (r : Repository) → IsValid r → OneStep r (mutate id plan r)
  unfolding mutate
  mutate-OneStep id r v = elim (Option-cases (get id r)) [
    | inl absent ↦ unchanged (ground arith)
    | inr (a, found) ↦ elim (Result-cases (plan a (history id r))) [
      | inl (e, failed) ↦ unchanged (ground arith)
      | inr (keep, planned) ↦ unchanged (ground arith)
      | inr (change u e, planned) ↦
          let st = sound a (history id r) u e (v.sound id a found) planned in
          let same : get u.id r ≡ some a =
            ap (λ k. get k r) (st.same_id ∙ v.own_id id a found) ∙ found in
          saved (record {
            action = u;
            event = e;
            next = IsStep-IsNext r a u e id v found st;
            returned =
                mutate-eq-perform id plan r a found
                ∙ ap (λ o. perform a o r) planned
                ∙ save-eq-ok u a e r same;
          })
    ]
  ]

  -- The Action that comes back is the one that the call names.
  pub mutate-target :
      (id : String) (r : Repository) (u : Action)
      → IsValid r
      → (mutate id plan r).0 ≡ ok u
      → u.id ≡ id
  unfolding mutate save
  mutate-target id r u v h = elim (Option-cases (get id r)) [
    | inl absent ↦ ground arith
    | inr (a, found) ↦ elim (Result-cases (plan a (history id r))) [
      | inl (e, failed) ↦ ground arith
      | inr (keep, planned) ↦ ground (arith, v.own_id id a found)
      | inr (change w e, planned) ↦
          let st = sound a (history id r) w e (v.sound id a found) planned in
          ground (arith, st.same_id, v.own_id id a found)
    ]
  ]
