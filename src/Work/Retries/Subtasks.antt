-- ===== src/Work/Retries/Subtasks.antt =====
-- A repeated change of a subtask, under the same key.
use btx_omni_prospect.Prelude.{
  ℕ, String, Bool, true, false, Option, none, some, List, [], ◌∷◌, ◌++◌, ◌≡◌, sym, ◌∙◌, ap, subst,
  DateTime, arith, inl, inr, Option-cases, find, string_eq, option_eq, option_beq_iff, ◌==◌,
  if◌then◌else◌, ◌&&◌, is_empty, strip,
}
use btx_omni_prospect.Prelude.Result.{Result, ok, err, Result-cases}
use btx_omni_prospect.Work.Domain.{Action, Principal, Subtask, WorkError}
use btx_omni_prospect.Work.Repository.{
  Repository, ActionAuditEvent, get, history, idempotency_key?, fingerprint?, make_event,
}
use btx_omni_prospect.Work.Policy.{Runtime, may_manage, require_manage}
use btx_omni_prospect.Work.Mutation.{Outcome, keep, change, mutate, perform}
use btx_omni_prospect.Work.Subtasks.{
  SubtaskChanges, subtask_fingerprint, earlier_call, find_child, save_child, placed, with_subtasks,
  new_subtask_plan, subtask_plan, change_subtask,
}
use btx_omni_prospect.Work.Validity.{IsValid, stored, get-stored, history-stored_self}
use btx_omni_prospect.Work.Validity.Plans.{
  make_action-eq-ok, new_subtask_plan-eq-ok, subtask_plan-Sound,
}
use btx_omni_prospect.Work.Validity.Steps.{mutate-eq-perform}
use btx_omni_prospect.Work.Gates.{perform-ok}

pub find-snoc :
    {A : Type 0} (p : A → Bool) (xs : List A) (y : A)
    → find p xs ≡ none
    → p y ≡ true
    → find p (xs ++ y ∷ []) ≡ some y
find-snoc p [] y h t = ground arith
find-snoc p (x ∷ xs) y h t = ground (arith, find-snoc p xs y)

-- What a saved change of a subtask records.
pub record IsRecorded (p : Principal) (key fingerprint : String) (w : Action) (e : ActionAuditEvent)
    : Type 0 where
  pub manages : may_manage p w ≡ true
  pub actor : e.actor_id ≡ p.user_id
  pub under_key : idempotency_key? e.metadata ≡ some key
  pub same_call : fingerprint? e.metadata ≡ some fingerprint

save_child-IsRecorded :
    (p : Principal) (now : DateTime) (key fingerprint : String) (a : Action)
    (original : Option Subtask) (child : Subtask) (u : Action) (e : ActionAuditEvent)
    → may_manage p a ≡ true
    → save_child p now key fingerprint a original child ≡ ok (change u e)
    → IsRecorded p key fingerprint u e
unfolding save_child with_subtasks make_event may_manage
save_child-IsRecorded p now key fingerprint a original child u e m h =
    ground (arith, make_action-eq-ok (with_subtasks a (placed original child a.subtasks) now) u)

save_child-ne-keep :
    (p : Principal) (now : DateTime) (key fingerprint : String) (a : Action)
    (original : Option Subtask) (child : Subtask)
    → save_child p now key fingerprint a original child ≡ ok keep
    → ⊥
unfolding save_child
save_child-ne-keep p now key fingerprint a original child h = ground arith

module _ (rt : Runtime) (child : Option String) (p : Principal) (key : String) (c : SubtaskChanges)
    (a : Action) (h : List ActionAuditEvent) where
  abbrev call_fingerprint : String
  call_fingerprint = subtask_fingerprint rt child c

  -- The conditions of a call that do not turn on its time or version.
  record IsAdmitted : Type 0 where
    manages : may_manage p a ≡ true
    keyed : is_empty (strip key) ≡ false
    supported : c.unsupported ≡ false

  plan-admitted :
      (now : DateTime) (expected : ℕ) (o : Outcome)
      → subtask_plan rt child p now expected key c a h ≡ ok o
      → IsAdmitted
  unfolding subtask_plan require_manage
  plan-admitted now expected o q = ground arith

  plan-replays :
      (e : ActionAuditEvent)
      → IsAdmitted
      → earlier_call p key h ≡ some e
      → fingerprint? e.metadata ≡ some call_fingerprint
      → (now : DateTime) (expected : ℕ) → subtask_plan rt child p now expected key c a h ≡ ok keep
  unfolding subtask_plan require_manage
  plan-replays e m found same now expected = ground (
    arith,
    (option_beq_iff (fingerprint? e.metadata) (some call_fingerprint)).1 same,
    m.manages,
    m.keyed,
    m.supported,
  )

  new-ne-keep :
      (now : DateTime) (expected : ℕ) (original : Option Subtask)
      → new_subtask_plan rt child p now expected key c a original ≡ ok keep
      → ⊥
  new-ne-keep now expected original q =
      let (_, made, saved) =
        new_subtask_plan-eq-ok rt child p now expected key c a original keep q in
      save_child-ne-keep p now key call_fingerprint a original made saved

  plan-keep :
      (now : DateTime) (expected : ℕ)
      → subtask_plan rt child p now expected key c a h ≡ ok keep
      → (now' : DateTime) (expected' : ℕ)
      → subtask_plan rt child p now' expected' key c a h ≡ ok keep
  unfolding subtask_plan
  plan-keep now expected q now' expected' =
      ground (arith, new-ne-keep now expected (find_child child a.subtasks))

  plan-change :
      (now : DateTime) (expected : ℕ) (u : Action) (e : ActionAuditEvent)
      → subtask_plan rt child p now expected key c a h ≡ ok (change u e)
      → (earlier_call p key h ≡ none) × IsRecorded p key call_fingerprint u e
  unfolding subtask_plan
  plan-change now expected u e q =
      let original = find_child child a.subtasks in
      let planned : (earlier_call p key h ≡ none)
          × (new_subtask_plan rt child p now expected key c a original ≡ ok (change u e)) =
        ground arith in
      let (_, made, saved) =
        new_subtask_plan-eq-ok rt child p now expected key c a original (change u e) planned.1 in
      (
        planned.0,
        save_child-IsRecorded p now key call_fingerprint a original made u e
            (plan-admitted now expected (change u e) q).manages saved,
      )

module _ (rt : Runtime) (id : String) (child : Option String) (p : Principal) (key : String)
    (c : SubtaskChanges) (r : Repository) (v : IsValid r) where
  abbrev call : DateTime → ℕ → Repository → Result WorkError Action × Repository
  call now expected = change_subtask rt id child p now expected key c

  -- The second call, after a first that saved.
  after_save :
      (a : Action) (now now' : DateTime) (expected expected' : ℕ) (u : Action)
      (e : ActionAuditEvent)
      → get id r ≡ some a
      → subtask_plan rt child p now expected key c a (history id r) ≡ ok (change u e)
      → call now' expected' (stored r u e) ≡ (ok u, stored r u e)
  unfolding change_subtask
  after_save a now now' expected expected' u e found planned =
      let st =
        subtask_plan-Sound rt child p now expected key c a (history id r) u e (v.sound id a found)
          planned in
      let own = st.same_id ∙ v.own_id id a found in
      let (fresh, recorded) =
        plan-change rt child p key c a (history id r) now expected u e planned in
      let admitted =
        plan-admitted rt child p key c a (history id r) now expected (change u e) planned in
      let r' = stored r u e in
      let found' : get id r' ≡ some u =
        get-stored r u e id
        ∙ ap (λ x. if x then some u else get id r) ((string_eq.same_iff u.id id).1 own) in
      let earlier : earlier_call p key (history id r') ≡ some e =
        ap (earlier_call p key) (history-stored_self r u e id (st.about ∙ v.own_id id a found))
        ∙ earlier_snoc (history id r) e fresh recorded in
      let again =
        plan-replays rt child p key c u (history id r') e
          (record {
            manages = recorded.manages;
            keyed = admitted.keyed;
            supported = admitted.supported;
          })
          earlier recorded.same_call now' expected' in
      mutate-eq-perform id _ r' u found' ∙ ap (λ o. perform u o r') again
    where
      earlier_snoc :
          (h : List ActionAuditEvent) (f : ActionAuditEvent)
          → earlier_call p key h ≡ none
          → IsRecorded p key (subtask_fingerprint rt child c) u f
          → earlier_call p key (h ++ f ∷ []) ≡ some f
      earlier_snoc h f none_yet rec =
          unfold earlier_call in
          find-snoc (λ x. x.actor_id == p.user_id && idempotency_key? x.metadata == some key) h f
            none_yet
            (ground (
              arith,
              (string_eq.same_iff f.actor_id p.user_id).1 rec.actor,
              (option_beq_iff (idempotency_key? f.metadata) (some key)).1 rec.under_key,
            ))

  -- From what the first call gave, and the second on that.
  settle :
      (first : Result WorkError Action × Repository)
      (second : Repository → Result WorkError Action × Repository) (w u : Action) (s : Repository)
      → first ≡ (ok w, s)
      → second s ≡ (ok w, s)
      → first.0 ≡ ok u
      → second first.1 ≡ (ok u, first.1)
  settle first second w u s given again h =
      let same : w ≡ u = cc (ap (λ q. q.0) given) in
      subst (λ q. second q.1 ≡ (ok u, q.1)) (sym given)
        (subst (λ x. second s ≡ (ok x, s)) same again)

  absent_fails :
      (now : DateTime) (expected : ℕ)
      → get id r ≡ none
      → (u : Action) → (call now expected r).0 ≡ ok u
      → ⊥
  unfolding change_subtask mutate
  absent_fails now expected absent u h = ground arith

  performed :
      (now : DateTime) (expected : ℕ) (a : Action) (o : Result WorkError Outcome)
      → get id r ≡ some a
      → subtask_plan rt child p now expected key c a (history id r) ≡ o
      → call now expected r ≡ perform a o r
  unfolding change_subtask
  performed now expected a o found planned =
      mutate-eq-perform id _ r a found ∙ ap (λ x. perform a x r) planned

  -- A change of a subtask that returned an Action, repeated by the same principal with the same key
  -- and the same changes at any time and with any expected version, returns that Action again and
  -- changes nothing.
  pub subtask_retry :
      (now now' : DateTime) (expected expected' : ℕ) (u : Action)
      → (call now expected r).0 ≡ ok u
      → call now' expected' (call now expected r).1 ≡ (ok u, (call now expected r).1)
  subtask_retry now now' expected expected' u h = elim (Option-cases (get id r)) [
    | inl absent ↦ absurd (absent_fails now expected absent u h)
    | inr (a, found) ↦
        elim (Result-cases (subtask_plan rt child p now expected key c a (history id r))) [
          | inl (e, failed) ↦ absurd (err_fails a e (performed now expected a (err e) found failed))
          | inr (keep, planned) ↦
              settle (call now expected r) (call now' expected') a u r
                (performed now expected a (ok keep) found planned)
                (performed now' expected' a (ok keep) found
                  (plan-keep rt child p key c a (history id r) now expected planned now' expected'))
                h
          | inr (change w e, planned) ↦
              let st =
                subtask_plan-Sound rt child p now expected key c a (history id r) w e
                  (v.sound id a found) planned in
              settle (call now expected r) (call now' expected') w u (stored r w e)
                (unfold change_subtask in perform-ok r v id a found _ w e st.same_id planned)
                (after_save a now now' expected expected' w e found planned) h
        ]
  ]
    where
      err_fails : (a : Action) (e : WorkError) → call now expected r ≡ (err e, r) → ⊥
      err_fails a e given = cc (ap (λ q. q.0) given)
