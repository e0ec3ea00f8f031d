-- ===== src/Journal/Final.antt =====
-- A completed run is never taken up again.
use btx_omni_prospect.Prelude.{
  ℕ, String, Bool, true, not, ◌||◌, Option, some, List, [], ◌∷◌, ◌≡◌, refl, subst, arith, inl, inr,
  Option-cases, DateTime, is_empty, string_eq, ltb,
}
use Prim.Native.String.{count as char_count}
use btx_omni_prospect.Prelude.Dict.{lookup}
use btx_omni_prospect.Prelude.Result.{Result, ok, err, raise_if, >>=-eq-ok, Result-cases}
use btx_omni_prospect.Journal.Records.{
  Entry, Journal, JournalError, is_completed, naive_clock, invalid_step_bounds,
}
use btx_omni_prospect.Journal.Operations.{
  AcquireArgs, Library, acquire, acquire_entry, inserted, run_id, within_bounds, start_step,
  complete_step, finish, record_publication, publish_entry, bounded, between,
}
use btx_omni_prospect.Journal.Commands.{
  Call, acquires, starts, completes, finishes, publishes, call, run_calls, left,
}
use btx_omni_prospect.Journal.Fencing.{StaysFinal, insert_stays, on_owned_stays}

module _ (id : String) (e : Entry) (j : Journal) (s : StaysFinal id e j) where
  acquire_stays :
      (l : Library) (a : AcquireArgs) (t : String × Option String) (k : Journal)
      → acquire l a j ≡ ok (t, k)
      → StaysFinal id e k
  unfolding acquire
  acquire_stays l a t k h =
      let (u, bounds, h1) = >>=-eq-ok (raise_if (not (within_bounds a)) _) _ h in
      let (i, keyed, h2) = >>=-eq-ok (run_id l a) _ h1 in
      let ((token, f), taken, h3) = >>=-eq-ok (acquire_entry a (inserted a (lookup i j))) _ h2 in
      subst (StaysFinal id e) (ground arith) (
        insert_stays id e j s i f
          (λ same. unfold acquire_entry in ground (arith, s.1, s.2.done, s.2.steps, s.2.attempts)))

  start_stays :
      (l : Library) (i token tool arguments : String) (now : DateTime) (max_steps n : ℕ)
      (k : Journal)
      → start_step l i token tool arguments now max_steps j ≡ ok (n, k)
      → StaysFinal id e k
  unfolding start_step
  start_stays l i token tool arguments now max_steps n k h =
      let refused =
        is_empty tool
        || ltb 80 (char_count tool)
        || not (between 1 max_steps 12)
        || not now.aware in
      let (u, bounds, h1) = >>=-eq-ok (raise_if refused invalid_step_bounds) _ h in
      let (text, fits, h2) = >>=-eq-ok (bounded arguments 8000) _ h1 in
      on_owned_stays id e j s i token now.instant _ k n h2

  complete_stays :
      (i token : String) (number : ℕ) (result : String) (now : DateTime) (failure : Bool)
      (u : Unit {0}) (k : Journal)
      → complete_step i token number result now failure j ≡ ok (u, k)
      → StaysFinal id e k
  unfolding complete_step
  complete_stays i token number result now failure u k h =
      let (text, fits, h1) = >>=-eq-ok (bounded result 120000) _ h in
      let (_, aware, h2) = >>=-eq-ok (raise_if (not now.aware) naive_clock) _ h1 in
      on_owned_stays id e j s i token now.instant _ k u h2

  finish_stays :
      (i token result : String) (now : DateTime) (complete : Bool) (u : Unit {0}) (k : Journal)
      → finish i token result now complete j ≡ ok (u, k)
      → StaysFinal id e k
  unfolding finish
  finish_stays i token result now complete u k h =
      let (_, aware, h1) = >>=-eq-ok (raise_if (not now.aware) naive_clock) _ h in
      let (text, fits, h2) = >>=-eq-ok (bounded result 160000) _ h1 in
      on_owned_stays id e j s i token now.instant _ k u h2

  publication_stays :
      (l : Library) (i outcome : String) (now : DateTime) (u : Unit {0}) (k : Journal)
      → record_publication l i outcome now j ≡ ok (u, k)
      → StaysFinal id e k
  unfolding record_publication
  publication_stays l i outcome now u k h =
      let (_, aware, h1) = >>=-eq-ok (raise_if (not now.aware) naive_clock) _ h in
      let (text, fits, h2) = >>=-eq-ok (bounded outcome 16000) _ h1 in
      elim (Option-cases (lookup i j)) [
        | inl g ↦ ground arith
        | inr (x, g) ↦ elim (Result-cases (publish_entry l text now.instant x)) [
          | inl (y, q) ↦ ground arith
          | inr ((_, x'), q) ↦ subst (StaysFinal id e) (ground arith) (
              insert_stays id e j s i x' (λ same.
                unfold publish_entry bounded in
                ground (arith, s.1, s.2.done, s.2.steps, s.2.attempts)))
        ]
      ]

  left_stays :
      {A : Type 0} (m : Result JournalError (A × Journal))
      → ((a : A) (k : Journal) → m ≡ ok (a, k) → StaysFinal id e k)
      → StaysFinal id e (left j m)
  left_stays (ok (a, k)) keeps = keeps a k refl
  left_stays (err x) keeps = s

  call_stays : (l : Library) (c : Call) → StaysFinal id e (call l c j)
  unfolding call
  call_stays l (acquires a) = left_stays _ (acquire_stays l a)
  call_stays l (starts i token tool arguments now max_steps) =
      left_stays _ (start_stays l i token tool arguments now max_steps)
  call_stays l (completes i token number result now failure) =
      left_stays _ (complete_stays i token number result now failure)
  call_stays l (finishes i token result now complete) =
      left_stays _ (finish_stays i token result now complete)
  call_stays l (publishes i outcome now) = left_stays _ (publication_stays l i outcome now)

run_stays :
    (l : Library) (cs : List Call) (id : String) (e : Entry) (j : Journal)
    → StaysFinal id e j
    → StaysFinal id e (run_calls l cs j)
unfolding run_calls
run_stays l [] id e j s = s
run_stays l (c ∷ cs) id e j s = run_stays l cs id e (call l c j) (call_stays id e j s l c)

-- Once a run is completed, no later calls reopen it, start another attempt or change its steps.
pub completed_run :
    (l : Library) (cs : List Call) (id : String) (e : Entry) (j : Journal)
    → lookup id j ≡ some e
    → is_completed e.run.status ≡ true
    → StaysFinal id e (run_calls l cs j)
completed_run l cs id e j g done =
    run_stays l cs id e j (e, g, record { done = done; steps = refl; attempts = refl })
