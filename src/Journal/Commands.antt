-- ===== src/Journal/Commands.antt =====
-- The journal under any sequence of calls by any workers.
use btx_omni_prospect.Prelude.{
  ℕ, ◌≤◌, String, Bool, true, not, ◌||◌, Option, some, List, [], ◌∷◌, ◌≡◌, refl, sym, subst, arith,
  ltb, inl, inr, Option-cases, DateTime, is_empty, string_eq,
}
use Prim.Native.String.{count as char_count}
use btx_omni_prospect.Prelude.Dict.{lookup, insert, lookup-insert}
use btx_omni_prospect.Prelude.Result.{
  Result, ok, err, raise_if, >>=-eq-ok, raise_if-eq-ok, Result-cases,
}
use btx_omni_prospect.Journal.Records.{
  Entry, Journal, JournalError, naive_clock, invalid_step_bounds, is_running,
}
use btx_omni_prospect.Journal.Operations.{
  AcquireArgs, Library, acquire, acquire_entry, inserted, run_id, within_bounds, on_owned, owns,
  start_step, complete_step, finish, record_publication, publish_entry, between, bounded,
}
use btx_omni_prospect.Journal.Sound.{IsSound, new_entry-IsSound, acquire_entry-IsSound}
use btx_omni_prospect.Journal.Keeps.{
  start_entry-IsSound, complete_entry-IsSound, finish_entry-IsSound, publish_entry-IsSound,
}

pub data Call : Type 0 where
  acquires : AcquireArgs → Call
  starts : (id token tool arguments : String) → DateTime → ℕ → Call
  completes : (id token : String) → ℕ → String → DateTime → Bool → Call
  finishes : (id token result : String) → DateTime → Bool → Call
  publishes : (id outcome : String) → DateTime → Call

-- A method that raises has rolled its transaction back.
abbrev pub left : {A : Type 0} → Journal → Result JournalError (A × Journal) → Journal
left j (ok (a, k)) = k
left j (err e) = j

unfoldable pub call : Library → Call → Journal → Journal
call l (acquires a) j = left j (acquire l a j)
call l (starts id token tool arguments now max_steps) j =
    left j (start_step l id token tool arguments now max_steps j)
call l (completes id token number result now failure) j =
    left j (complete_step id token number result now failure j)
call l (finishes id token result now complete) j = left j (finish id token result now complete j)
call l (publishes id outcome now) j = left j (record_publication l id outcome now j)

unfoldable pub run_calls : Library → List Call → Journal → Journal
run_calls l [] j = j
run_calls l (c ∷ cs) j = run_calls l cs (call l c j)

pub record IsValid (j : Journal) : Type 0 where
  pub sound : (id : String) (e : Entry) → lookup id j ≡ some e → IsSound e

IsValid-empty : IsValid []
unfolding lookup
IsValid-empty = record { sound = λ id e h. ground arith }

pub insert-IsValid :
    (id : String) (e : Entry) (j : Journal) → IsValid j → IsSound e → IsValid (insert id e j)
insert-IsValid id e j v s = record {
  sound = λ i f h. ground (arith, v.sound i f, lookup-insert id i e j);
}

acquire-IsValid :
    (l : Library) (a : AcquireArgs) (j k : Journal) (t : String × Option String)
    → IsValid j
    → acquire l a j ≡ ok (t, k)
    → IsValid k
unfolding acquire
acquire-IsValid l a j k t v h =
    let (u, bounds, h1) = >>=-eq-ok (raise_if (not (within_bounds a)) _) _ h in
    let (id, keyed, h2) = >>=-eq-ok (run_id l a) _ h1 in
    let ((token, e), taken, h3) = >>=-eq-ok (acquire_entry a (inserted a (lookup id j))) _ h2 in
    let before : IsSound (inserted a (lookup id j)) = elim (Option-cases (lookup id j)) [
      | inl g ↦ subst (λ o. IsSound (inserted a o)) (sym g) (new_entry-IsSound a)
      | inr (f, g) ↦ subst (λ o. IsSound (inserted a o)) (sym g) (v.sound id f g)
    ] in
    let after =
      acquire_entry-IsSound a _ e token
        (ground (arith, raise_if-eq-ok (not (within_bounds a)) _ bounds)) before taken in
    subst IsValid (ground arith) (insert-IsValid id e j v after)

-- A transaction that its owner makes keeps the journal valid where it keeps the rows sound.
pub on_owned-IsValid :
    {A : Type 0} (id token : String) (now : ℕ) (f : Entry → Result JournalError (A × Entry))
    (j k : Journal) (a : A)
    → IsValid j
    → ((e g : Entry) (b : A)
        → is_running e.run.status ≡ true
        → IsSound e
        → f e ≡ ok (b, g)
        → IsSound g)
    → on_owned id token now f j ≡ ok (a, k)
    → IsValid k
unfolding on_owned owns
on_owned-IsValid id token now f j k a v keeps h = elim (Option-cases (lookup id j)) [
  | inl g ↦ ground arith
  | inr (e, g) ↦ elim (Result-cases (f e)) [
    | inl (x, q) ↦ ground arith
    | inr ((b, e'), q) ↦
        subst IsValid (ground arith)
          (insert-IsValid id e' j v (keeps e e' b (ground arith) (v.sound id e g) q))
  ]
]

start_step-IsValid :
    (l : Library) (id token tool arguments : String) (now : DateTime) (max_steps : ℕ)
    (j k : Journal) (n : ℕ)
    → IsValid j
    → start_step l id token tool arguments now max_steps j ≡ ok (n, k)
    → IsValid k
unfolding start_step
start_step-IsValid l id token tool arguments now max_steps j k n v h =
    let refused =
      is_empty tool || ltb 80 (char_count tool) || not (between 1 max_steps 12) || not now.aware in
    let (u, bounds, h1) = >>=-eq-ok (raise_if refused invalid_step_bounds) _ h in
    let (text, fits, h2) = >>=-eq-ok (bounded arguments 8000) _ h1 in
    let few : max_steps ≤ 12 = ground (arith, raise_if-eq-ok refused invalid_step_bounds bounds) in
    on_owned-IsValid id token now.instant _ j k n v
      (λ e g b r s q. start_entry-IsSound tool _ now.instant max_steps e g b few r s q) h2

complete_step-IsValid :
    (id token : String) (number : ℕ) (result : String) (now : DateTime) (failure : Bool)
    (j k : Journal) (u : Unit {0})
    → IsValid j
    → complete_step id token number result now failure j ≡ ok (u, k)
    → IsValid k
unfolding complete_step
complete_step-IsValid id token number result now failure j k u v h =
    let (text, fits, h1) = >>=-eq-ok (bounded result 120000) _ h in
    let (_, aware, h2) = >>=-eq-ok (raise_if (not now.aware) naive_clock) _ h1 in
    on_owned-IsValid id token now.instant _ j k u v
      (λ e g b r s q. complete_entry-IsSound failure number text now.instant e g s q) h2

finish-IsValid :
    (id token result : String) (now : DateTime) (complete : Bool) (j k : Journal) (u : Unit {0})
    → IsValid j
    → finish id token result now complete j ≡ ok (u, k)
    → IsValid k
unfolding finish
finish-IsValid id token result now complete j k u v h =
    let (_, aware, h1) = >>=-eq-ok (raise_if (not now.aware) naive_clock) _ h in
    let (text, fits, h2) = >>=-eq-ok (bounded result 160000) _ h1 in
    on_owned-IsValid id token now.instant _ j k u v
      (λ e g b r s q. finish_entry-IsSound text now.instant complete e g s q) h2

record_publication-IsValid :
    (l : Library) (id outcome : String) (now : DateTime) (j k : Journal) (u : Unit {0})
    → IsValid j
    → record_publication l id outcome now j ≡ ok (u, k)
    → IsValid k
unfolding record_publication
record_publication-IsValid l id outcome now j k u v h =
    let (_, aware, h1) = >>=-eq-ok (raise_if (not now.aware) naive_clock) _ h in
    let (text, fits, h2) = >>=-eq-ok (bounded outcome 16000) _ h1 in
    elim (Option-cases (lookup id j)) [
      | inl g ↦ ground arith
      | inr (e, g) ↦ elim (Result-cases (publish_entry l text now.instant e)) [
        | inl (x, q) ↦ ground arith
        | inr ((_, e'), q) ↦ subst IsValid (ground arith) (
            insert-IsValid id e' j v
              (publish_entry-IsSound l text now.instant e e' (v.sound id e g) q))
      ]
    ]

left-IsValid :
    {A : Type 0} (j : Journal) (m : Result JournalError (A × Journal))
    → IsValid j
    → ((a : A) (k : Journal) → m ≡ ok (a, k) → IsValid k)
    → IsValid (left j m)
left-IsValid j (ok (a, k)) v keeps = keeps a k refl
left-IsValid j (err e) v keeps = v

call-IsValid : (l : Library) (c : Call) (j : Journal) → IsValid j → IsValid (call l c j)
unfolding call
call-IsValid l (acquires a) j v = left-IsValid j _ v (λ t k h. acquire-IsValid l a j k t v h)
call-IsValid l (starts id token tool arguments now max_steps) j v =
    left-IsValid j _ v
      (λ n k h. start_step-IsValid l id token tool arguments now max_steps j k n v h)
call-IsValid l (completes id token number result now failure) j v =
    left-IsValid j _ v (λ u k h. complete_step-IsValid id token number result now failure j k u v h)
call-IsValid l (finishes id token result now complete) j v =
    left-IsValid j _ v (λ u k h. finish-IsValid id token result now complete j k u v h)
call-IsValid l (publishes id outcome now) j v =
    left-IsValid j _ v (λ u k h. record_publication-IsValid l id outcome now j k u v h)

run_keeps : (l : Library) (cs : List Call) (j : Journal) → IsValid j → IsValid (run_calls l cs j)
unfolding run_calls
run_keeps l [] j v = v
run_keeps l (c ∷ cs) j v = run_keeps l cs (call l c j) (call-IsValid l c j v)

-- Whatever calls are made of an empty journal, every run in it has had at most three attempts and
-- has at most twelve steps, numbered from 1 on without a gap; it has a lease exactly while it is
-- running; at most one call is outstanding, and only while it is running; and its count of
-- completed steps is the number of its completed steps.
pub run_calls-IsValid : (l : Library) (cs : List Call) → IsValid (run_calls l cs [])
run_calls-IsValid l cs = run_keeps l cs [] IsValid-empty
