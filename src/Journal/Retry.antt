-- ===== src/Journal/Retry.antt =====
-- A worker that repeats a report.
use btx_omni_prospect.Prelude.{
  ℕ, String, Bool, not, ◌≡◌, arith, inl, inr, Option-cases, DateTime, string_eq,
}
use btx_omni_prospect.Prelude.Dict.{lookup, insert, insert-lookup_self, lookup-insert_self}
use btx_omni_prospect.Prelude.Result.{ok, raise_if, >>=-eq-ok, Result-cases, raise_if-eq-ok}
use btx_omni_prospect.Journal.Records.{Entry, Journal, naive_clock}
use btx_omni_prospect.Journal.Operations.{
  on_owned, owns, complete_step, complete_entry, complete_found, bounded, find_step,
}
use btx_omni_prospect.Journal.Fencing.{completed_again}

owns_after :
    (failure : Bool) (n : ℕ) (encoded : String) (now : ℕ) (e f : Entry) (token : String)
    → complete_entry failure n encoded now e ≡ ok (tt, f)
    → owns f.run token now ≡ owns e.run token now
unfolding complete_entry complete_found owns
owns_after failure n encoded now e f token h = elim (Option-cases (find_step n e.steps)) [
  | inl g ↦ ground arith
  | inr (s, g) ↦ ground arith
]

owned_again :
    (failure : Bool) (n : ℕ) (encoded : String) (now : ℕ) (id token : String) (j k : Journal)
    → on_owned id token now (complete_entry failure n encoded now) j ≡ ok (tt, k)
    → on_owned id token now (complete_entry failure n encoded now) k ≡ ok (tt, k)
unfolding on_owned
owned_again failure n encoded now id token j k h = elim (Option-cases (lookup id j)) [
  | inl g ↦ ground arith
  | inr (e, g) ↦ elim (Result-cases (complete_entry failure n encoded now e)) [
    | inl (x, q) ↦ ground arith
    | inr ((_, f), q) ↦ ground (
      arith,
      completed_again failure n encoded now e f q,
      owns_after failure n encoded now e f token q,
      lookup-insert_self id f j,
      insert-lookup_self id f (insert id f j),
    )
  ]
]

-- A report of a step's result that was accepted is accepted again, without effect, when the worker
-- repeats it word for word.
pub report_retry :
    (id token : String) (number : ℕ) (result : String) (now : DateTime) (failure : Bool)
    (j k : Journal)
    → complete_step id token number result now failure j ≡ ok (tt, k)
    → complete_step id token number result now failure k ≡ ok (tt, k)
unfolding complete_step
report_retry id token number result now failure j k h =
    let (text, fits, h1) = >>=-eq-ok (bounded result 120000) _ h in
    let (_, aware, h2) = >>=-eq-ok (raise_if (not now.aware) naive_clock) _ h1 in
    ground (
      arith,
      raise_if-eq-ok (not now.aware) naive_clock aware,
      owned_again failure number text now.instant id token j k h2,
    )
