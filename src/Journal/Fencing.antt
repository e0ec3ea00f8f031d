-- ===== src/Journal/Fencing.antt =====
-- What a lease, a completed run and a retried call guarantee.
use btx_omni_prospect.Prelude.{
  ℕ, String, Bool, true, not, Option, none, some, List, [], ◌∷◌, ◌≡◌, ◌≢◌, subst, arith, ◌==◌, inl,
  inr, Option-cases, Bool-cases, string_eq, option_beq_iff, map, nat_eq, eq_of_beq,
}
use btx_omni_prospect.Prelude.Dict.{lookup, insert, lookup-insert, lookup-insert_self}
use btx_omni_prospect.Prelude.Result.{Result, ok, err, raise_if, >>=-eq-ok, Result-cases}
use btx_omni_prospect.Journal.Records.{Entry, Journal, JournalError, is_completed, lease_lost, Step}
use btx_omni_prospect.Journal.Operations.{
  AcquireArgs, Library, acquire, acquire_entry, inserted, run_id, within_bounds, on_owned, owns,
  start_step, start_entry, finish_entry, complete_step, finish, bounded, find_step, finished_step,
  complete_entry, complete_found,
}
use btx_omni_prospect.Journal.Commands.{
  Call, acquires, starts, completes, finishes, publishes, call,
}

-- The run and the lease token that a worker's call names.
abbrev pub claims : Call → Option (String × String)
claims (acquires a) = none
claims (starts id token tool arguments now max_steps) = some (id, token)
claims (completes id token number result now failure) = some (id, token)
claims (finishes id token result now complete) = some (id, token)
claims (publishes id outcome now) = none

acquired_token :
    (a : AcquireArgs) (e f : Entry) (t : String)
    → acquire_entry a e ≡ ok (some t, f)
    → f.run.lease_token ≡ some t
unfolding acquire_entry
acquired_token a e f t h = ground arith

acquired_entry :
    (l : Library) (a : AcquireArgs) (j k : Journal) (id t : String)
    → acquire l a j ≡ ok ((id, some t), k)
    → (f : Entry) × (lookup id k ≡ some f) × (f.run.lease_token ≡ some t)
unfolding acquire
acquired_entry l a j k id t h =
    let (u, bounds, h1) = >>=-eq-ok (raise_if (not (within_bounds a)) _) _ h in
    let (i, keyed, h2) = >>=-eq-ok (run_id l a) _ h1 in
    let ((token, f), taken, h3) = >>=-eq-ok (acquire_entry a (inserted a (lookup i j))) _ h2 in
    (
      f,
      ground (arith, lookup-insert_self i f j),
      acquired_token a (inserted a (lookup i j)) f t (ground arith),
    )

module _ {A : Type 0} (id token : String) (now : ℕ) (f : Entry → Result JournalError (A × Entry))
    (j : Journal) (e : Entry) (t : String) where
  other_token :
      lookup id j ≡ some e
      → e.run.lease_token ≡ some t
      → token ≢ t
      → on_owned id token now f j ≡ err lease_lost
  unfolding on_owned owns
  other_token g leased other =
      ground (arith, option_beq_iff (some t) (some token), string_eq.same_iff t token)

-- Once a worker has acquired a run, a call on that run that carries any other token changes
-- nothing: a worker whose lease was taken over cannot write.
pub fenced :
    (l : Library) (a : AcquireArgs) (j k : Journal) (id t old : String) (c : Call)
    → acquire l a j ≡ ok ((id, some t), k)
    → claims c ≡ some (id, old)
    → old ≢ t
    → call l c k ≡ k
unfolding call start_step complete_step finish bounded
fenced l a j k id t old (acquires b) h by other = cc by
fenced l a j k id t old (publishes i outcome now) h by other = cc by
fenced l a j k id t old (starts i token tool arguments now max_steps) h by other =
    let (e, g, leased) = acquired_entry l a j k id t h in
    ground (
      arith,
      other_token i token now.instant
          (start_entry tool (l.sha256_hexdigest arguments) now.instant max_steps) k e t,
    )
fenced l a j k id t old (completes i token number result now failure) h by other =
    let (e, g, leased) = acquired_entry l a j k id t h in
    ground (
      arith,
      other_token i token now.instant (complete_entry failure number result now.instant) k e t,
    )
fenced l a j k id t old (finishes i token result now complete) h by other =
    let (e, g, leased) = acquired_entry l a j k id t h in
    ground (arith, other_token i token now.instant (finish_entry result now.instant complete) k e t)

-- What stays of a run that was completed.
pub record IsFinal (e f : Entry) : Type 0 where
  pub done : is_completed f.run.status ≡ true
  pub steps : f.steps ≡ e.steps
  pub attempts : f.run.attempt_count ≡ e.run.attempt_count

abbrev pub StaysFinal : String → Entry → Journal → Type 0
StaysFinal id e j = (f : Entry) × (lookup id j ≡ some f) × IsFinal e f

module _ (id : String) (e : Entry) (j : Journal) (s : StaysFinal id e j) where
  pub insert_stays :
      (i : String) (g : Entry) → (i ≡ id → IsFinal e g) → StaysFinal id e (insert i g j)
  insert_stays i g same = elim (Bool-cases (i == id)) [
    | inl y ↦ (g, ground (arith, lookup-insert i id g j), same (eq_of_beq i id y))
    | inr n ↦ (s.0, ground (arith, lookup-insert i id g j, s.1), s.2)
  ]

  pub on_owned_stays :
      {A : Type 0} (i token : String) (now : ℕ) (f : Entry → Result JournalError (A × Entry))
      (k : Journal) (a : A)
      → on_owned i token now f j ≡ ok (a, k)
      → StaysFinal id e k
  unfolding on_owned owns
  on_owned_stays i token now f k a h = elim (Option-cases (lookup i j)) [
    | inl g ↦ ground arith
    | inr (x, g) ↦ elim (Result-cases (f x)) [
      | inl (y, q) ↦ ground arith
      | inr ((b, x'), q) ↦
          subst (StaysFinal id e) (ground arith)
            (insert_stays i x' (λ same. ground (arith, s.1, s.2.done)))
    ]
  ]

finished_found :
    (failure : Bool) (n : ℕ) (encoded : String) (now : ℕ) (ss : List Step) (s : Step)
    → find_step n ss ≡ some s
    → find_step n (map (finished_step failure n encoded now) ss)
      ≡ some (finished_step failure n encoded now s)
unfolding find_step finished_step
finished_found failure n encoded now [] s h = ground arith
finished_found failure n encoded now (x ∷ ss) s h =
    ground (arith, finished_found failure n encoded now ss s, nat_eq.same_iff x.number n)

found_number :
    (n : ℕ) (ss : List Step) (s : Step) → find_step n ss ≡ some s → (s.number == n) ≡ true
unfolding find_step
found_number n [] s h = ground arith
found_number n (x ∷ ss) s h = ground (arith, found_number n ss s)

pub completed_again :
    (failure : Bool) (n : ℕ) (encoded : String) (now : ℕ) (e f : Entry)
    → complete_entry failure n encoded now e ≡ ok (tt, f)
    → complete_entry failure n encoded now f ≡ ok (tt, f)
unfolding complete_entry complete_found finished_step
completed_again failure n encoded now e f h = elim (Option-cases (find_step n e.steps)) [
  | inl g ↦ ground arith
  | inr (s, g) ↦ ground (
    arith,
    finished_found failure n encoded now e.steps s g,
    found_number n e.steps s g,
    string_eq.same_iff encoded encoded,
  )
]
