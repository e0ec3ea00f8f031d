-- ===== src/Usage/Examples.antt =====
-- Two reservations, and each theorem at a concrete input.
use btx_omni_prospect.Prelude.{ℕ, true, false, none, some, List, [], ◌∷◌, ◌≡◌, refl, DateTime}
use btx_omni_prospect.Prelude.Result.{ok}
use btx_omni_prospect.Usage.Receipts.{Receipt, response_received, is_outstanding, same_usage}
use btx_omni_prospect.Usage.Budget.{
  Reservation, ReportedUsage, int, float, new_receipt, expire, admit, reserve, complete,
  complete_found, completed_receipt, find_receipt, clean,
}
use btx_omni_prospect.Usage.Limits.{completion_retry}
use btx_omni_prospect.Usage.Final.{reserves, call, calls, completed_receipt_final}

abbrev at_micro : ℕ → DateTime
at_micro n = record { instant = n; aware = true }

abbrev first_call : Reservation
first_call = record {
  environment_id = "prod";
  actor_id = "ann";
  purpose = "chat";
  model = "m";
  now = at_micro 1000;
  policy = record {
    daily_environment_calls = 1000;
    daily_actor_calls = 400;
    concurrent_environment_leases = 2;
    concurrent_actor_leases = 1;
    lease_seconds = 180;
  };
  identifier = "r1";
}

abbrev second_call : Reservation
second_call = record first_call { actor_id = "max"; now = at_micro 2000; identifier = "r2" }

abbrev little_usage : ReportedUsage
little_usage = record {
  prompt_tokens = some (int 10);
  output_tokens = none;
  total_tokens = some (int 10);
  thinking_token_count = none;
  finish_reason = none;
  elapsed_ms = some (int 5);
  unsupported = false;
}

usage_program : Unit {0}
unfolding reserve admit expire new_receipt complete complete_found completed_receipt find_receipt
    clean same_usage call calls
usage_program = tt

abbrev one_receipt : List Receipt
one_receipt = new_receipt first_call ∷ []

abbrev settled_receipt : Receipt
settled_receipt =
    completed_receipt "r1" (at_micro 3000) response_received (clean little_usage)
      (new_receipt first_call)

first_completed :
    complete "r1" (at_micro 3000) response_received little_usage one_receipt
    ≡ ok (settled_receipt ∷ [])
unfolding usage_program
first_completed = refl

completion_retry_example :
    complete "r1" (at_micro 3000) response_received little_usage (settled_receipt ∷ [])
    ≡ ok (settled_receipt ∷ [])
completion_retry_example =
    completion_retry "r1" (at_micro 3000) response_received little_usage one_receipt
      (settled_receipt ∷ []) first_completed

-- A repeated report that has the same time as a float replays: 5 is 10 / 2.
float_retry :
    complete "r1"
      (at_micro 4000)
      response_received
      (record little_usage { elapsed_ms = some (float (record { numerator = 10; halvings = 1 })) })
      (settled_receipt ∷ [])
    ≡ ok (settled_receipt ∷ [])
unfolding usage_program
float_retry = refl

settled_found : find_receipt "r1" (settled_receipt ∷ []) ≡ some settled_receipt
unfolding usage_program
settled_found = refl

settled_closed : is_outstanding settled_receipt.status ≡ false
unfolding usage_program
settled_closed = refl

completed_receipt_final_example :
    find_receipt "r1" (calls (reserves second_call ∷ []) (settled_receipt ∷ []))
    ≡ some settled_receipt
completed_receipt_final_example =
    completed_receipt_final (reserves second_call ∷ []) (settled_receipt ∷ []) "r1" settled_receipt
      settled_found settled_closed
