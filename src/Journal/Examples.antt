-- ===== src/Journal/Examples.antt =====
-- A small run of the journal, and each theorem at a concrete input.
use btx_omni_prospect.Prelude.{
  ℕ, String, true, false, Option, none, some, List, [], ◌∷◌, ◌≡◌, ◌≢◌, refl, DateTime, string_eq,
  arith,
}
use btx_omni_prospect.Prelude.Dict.{insert, lookup}
use btx_omni_prospect.Prelude.Result.{Result, ok, err}
use btx_omni_prospect.Journal.Records.{Entry, Journal, JournalError, is_completed}
use btx_omni_prospect.Journal.Operations.{
  AcquireArgs, Library, acquire, acquire_entry, new_entry, interrupted, run_id, bounded, on_owned,
  owns, start_step, start_entry, last_number, complete_step, complete_entry, complete_found,
  find_step, finished_step, finish, finish_entry, record_publication, publish_entry,
}
use btx_omni_prospect.Journal.Commands.{
  Call, acquires, starts, completes, finishes, call, run_calls, IsValid, run_calls-IsValid,
}
use btx_omni_prospect.Journal.Fencing.{fenced}
use btx_omni_prospect.Journal.Final.{completed_run}
use btx_omni_prospect.Journal.Fencing.{StaysFinal}
use btx_omni_prospect.Journal.Retry.{report_retry}

abbrev library : Library
library = record {
  sha256_hexdigest = λ s. s;
  run_key = λ event_ revision configuration. event_;
  recorded_outcome = λ s. "";
  with_outcome = λ s outcome. outcome;
}

abbrev at_second : ℕ → DateTime
at_second n = record { instant = n; aware = true }

abbrev revision : String
revision = "0123456789abcdef0123456789abcdef0123456789abcdef0123456789abcdef"

abbrev first_worker : AcquireArgs
first_worker = record {
  event_reference = "event-1";
  source_revision = revision;
  configuration = "{}";
  now = at_second 1000000;
  lease_seconds = 60;
  max_attempts = 3;
  token = "t1";
}

abbrev second_worker : AcquireArgs
second_worker = record first_worker { now = at_second 90000000; token = "t2" }

journal_program : Unit {0}
unfolding run_calls call acquire acquire_entry new_entry interrupted run_id bounded on_owned owns
    start_step start_entry last_number complete_step complete_entry complete_found find_step
    finished_step finish finish_entry record_publication publish_entry insert lookup
journal_program = tt

abbrev reading : List Call
reading = acquires first_worker ∷ starts "event-1" "t1" "search" "{}" (at_second 2000000) 12 ∷ []

abbrev reported : List Call
reported =
    acquires first_worker
    ∷ starts "event-1" "t1" "search" "{}" (at_second 2000000) 12
    ∷ completes "event-1" "t1" 1 "found" (at_second 3000000) false
    ∷ finishes "event-1" "t1" "done" (at_second 4000000) true
    ∷ []

run_calls-IsValid_example : IsValid (run_calls library reported [])
run_calls-IsValid_example = run_calls-IsValid library reported

abbrev started_journal : Journal
started_journal = run_calls library reading []

abbrev taken_over : Result JournalError ((String × Option String) × Journal)
taken_over = acquire library second_worker started_journal

abbrev journal_of : Result JournalError ((String × Option String) × Journal) → Journal
journal_of (ok (t, k)) = k
journal_of (err e) = []

takes_over : taken_over ≡ ok (("event-1", some "t2"), journal_of taken_over)
unfolding journal_program
takes_over = refl

abbrev late : Call
late = completes "event-1" "t1" 1 "found" (at_second 91000000) false

abbrev old_token : String
old_token = "t1"

abbrev new_token : String
new_token = "t2"

tokens_differ : old_token ≢ new_token
tokens_differ h = ground (arith, string_eq.same_iff old_token new_token)

fenced_example : call library late (journal_of taken_over) ≡ journal_of taken_over
fenced_example =
    fenced library second_worker started_journal (journal_of taken_over) "event-1" "t2" "t1" late
      takes_over refl tokens_differ

abbrev first_entry : Option Entry → Entry
first_entry none = new_entry first_worker
first_entry (some e) = e

abbrev done_entry : Entry
done_entry = first_entry (lookup "event-1" (run_calls library reported []))

done_found : lookup "event-1" (run_calls library reported []) ≡ some done_entry
unfolding journal_program
done_found = refl

done_completed : is_completed done_entry.run.status ≡ true
unfolding journal_program
done_completed = refl

completed_run_example :
    StaysFinal "event-1" done_entry
      (run_calls library (acquires second_worker ∷ []) (run_calls library reported []))
completed_run_example =
    completed_run library (acquires second_worker ∷ []) "event-1" done_entry
      (run_calls library reported []) done_found done_completed

abbrev report : Result JournalError (Unit {0} × Journal)
report = complete_step "event-1" "t1" 1 "found" (at_second 3000000) false started_journal

abbrev reported_journal : Result JournalError (Unit {0} × Journal) → Journal
reported_journal (ok (u, k)) = k
reported_journal (err e) = []

report_accepted : report ≡ ok (tt, reported_journal report)
unfolding journal_program
report_accepted = refl

report_retry_example :
    complete_step "event-1" "t1" 1 "found" (at_second 3000000) false (reported_journal report)
    ≡ ok (tt, reported_journal report)
report_retry_example =
    report_retry "event-1" "t1" 1 "found" (at_second 3000000) false started_journal
      (reported_journal report) report_accepted

abbrev finished_journal : Journal
finished_journal = run_calls library reported []
