-- ===== src/Usage/Budget.antt =====
-- `AiUsageRepository`. Each method is one transaction: where it raises, nothing is written.
use Prim.Native.String.{count as char_count}
use Prim.Native.Char.{code}
use btx_omni_prospect.Prelude.{
  ℕ, String, Bool, true, false, not, ◌&&◌, ◌||◌, ◌+◌, ◌*◌, ◌^◌, ◌/◌, Option, none, some, List, [],
  ◌∷◌, ◌++◌, map, any, find, ◌==◌, nat_eq, string_eq, DateTime, ltb, leb, if◌then◌else◌, suc,
}
use btx_omni_prospect.Prelude.Result.{Result, ok, err, raise_if, ◌>>◌}
use btx_omni_prospect.Usage.Receipts.{
  ReceiptStatus, reserved, expired_outcome_unknown, is_outstanding, is_reserved, same_status,
  BudgetPolicy, Usage, Number, same_usage, Receipt, UsageError, naive_clock, invalid_identity,
  policy_out_of_bounds, duplicate_id, environment_daily, actor_daily, environment_busy, actor_busy,
  invalid_completion, unsupported_usage, not_found, cannot_rewrite, precedes_reservation,
}

abbrev pub day_length : ℕ
day_length = 86400000000

-- now.replace(hour=0, minute=0, second=0, microsecond=0)
abbrev pub day_of : ℕ → ℕ
day_of now = now / day_length * day_length

-- re.search(r'[\x00-\x1f]', value)
abbrev pub has_control : String → Bool
has_control String.[] = false
has_control (String.◌∷◌ c s) = leb (code c) 31 || has_control s

abbrev pub valid_identity : String → ℕ → Bool
valid_identity value maximum =
    leb 1 (char_count value) && leb (char_count value) maximum && not (has_control value)

pub record Reservation : Type 0 where
  pub environment_id : String
  pub actor_id : String
  pub purpose : String
  pub model : String
  pub now : DateTime
  pub policy : BudgetPolicy
  -- the value of `uuid4`
  pub identifier : String

abbrev pub identified : Reservation → Bool
identified q =
    valid_identity q.environment_id 80
    && valid_identity q.actor_id 128
    && valid_identity q.purpose 40
    && valid_identity q.model 128

abbrev pub within_limits : BudgetPolicy → Bool
within_limits p =
    leb 1 p.daily_actor_calls
    && leb p.daily_actor_calls p.daily_environment_calls
    && leb p.daily_environment_calls 10000
    && leb 1 p.concurrent_actor_leases
    && leb p.concurrent_actor_leases p.concurrent_environment_leases
    && leb p.concurrent_environment_leases 8
    && leb 30 p.lease_seconds
    && leb p.lease_seconds 1200

abbrev pub count : (Receipt → Bool) → List Receipt → ℕ
count p [] = 0
count p (x ∷ xs) = let rest = count p xs in if p x then suc rest else rest

abbrev pub in_environment : String → Receipt → Bool
in_environment environment x = x.environment_id == environment

abbrev pub of_actor : String → Receipt → Bool
of_actor actor x = x.actor_id == actor

-- Started on the UTC day of an instant.
abbrev pub on_day : ℕ → Receipt → Bool
on_day now x = leb (day_of now) x.started_at && ltb x.started_at (day_of now + day_length)

abbrev pub is_active : ℕ → Receipt → Bool
is_active now x = is_reserved x.status && ltb now x.lease_expires_at

-- A lease that ran out has an unknown outcome.
unfoldable pub expire : String → ℕ → Receipt → Receipt
expire environment now x =
    if in_environment environment x && is_reserved x.status && leb x.lease_expires_at now
    then record x { status = expired_outcome_unknown }
    else x

unfoldable pub new_receipt : Reservation → Receipt
new_receipt q = record {
  id = q.identifier;
  environment_id = q.environment_id;
  actor_id = q.actor_id;
  purpose = q.purpose;
  model = q.model;
  started_at = q.now.instant;
  lease_expires_at = q.now.instant + q.policy.lease_seconds * 1000000;
  completed_at = none;
  status = reserved;
  policy = q.policy;
  usage = none;
}

-- The four counts that a reservation is tested against.
abbrev pub environment_calls : Reservation → List Receipt → ℕ
environment_calls q xs = count (λ x. in_environment q.environment_id x && on_day q.now.instant x) xs

abbrev pub actor_calls : Reservation → List Receipt → ℕ
actor_calls q xs =
    count
      (λ x. in_environment q.environment_id x && on_day q.now.instant x && of_actor q.actor_id x) xs

abbrev pub environment_leases : Reservation → List Receipt → ℕ
environment_leases q xs =
    count (λ x. in_environment q.environment_id x && is_active q.now.instant x) xs

abbrev pub actor_leases : Reservation → List Receipt → ℕ
actor_leases q xs =
    count
      (λ x. in_environment q.environment_id x && is_active q.now.instant x && of_actor q.actor_id x)
      xs

-- The transaction after the expired leases were marked.
unfoldable pub admit : Reservation → List Receipt → Result UsageError (String × List Receipt)
admit q xs = do
  raise_if (leb q.policy.daily_environment_calls (environment_calls q xs)) environment_daily
  raise_if (leb q.policy.daily_actor_calls (actor_calls q xs)) actor_daily
  raise_if (leb q.policy.concurrent_environment_leases (environment_leases q xs)) environment_busy
  raise_if (leb q.policy.concurrent_actor_leases (actor_leases q xs)) actor_busy
  raise_if (any (λ x. x.id == q.identifier) xs) duplicate_id
  ok (q.identifier, xs ++ new_receipt q ∷ [])

unfoldable pub reserve : Reservation → List Receipt → Result UsageError (String × List Receipt)
reserve q xs = do
  raise_if (not q.now.aware) naive_clock
  raise_if (not (identified q)) invalid_identity
  raise_if (not (within_limits q.policy)) policy_out_of_bounds
  admit q (map (expire q.environment_id q.now.instant) xs)

-- A value of the usage that the provider reported: an `int` or a finite `float` that is not negative,
-- a text, or another value.
pub data Reported : Type 0 where
  int : ℕ → Reported
  float : Number → Reported
  text : String → Reported
  other : Reported

abbrev pub tokens : Option Reported → Option ℕ
tokens (some (int n)) = if leb n 100000000 then some n else none
tokens _ = none

abbrev pub elapsed : Option Reported → Option Number
elapsed (some (int n)) =
    if leb n 3600000 then some (record { numerator = n; halvings = 0 }) else none
elapsed (some (float x)) = if leb x.numerator (3600000 * 2 ^ x.halvings) then some x else none
elapsed _ = none

-- [A-Za-z0-9_.-]
abbrev pub is_word : ℕ → Bool
is_word c =
    leb b'A' c && leb c b'Z'
    || leb b'a' c && leb c b'z'
    || leb b'0' c && leb c b'9'
    || c == b'_'
    || c == b'.'
    || c == b'-'

abbrev pub all_words : String → Bool
all_words String.[] = true
all_words (String.◌∷◌ c s) = is_word (code c) && all_words s

abbrev pub reason : Option Reported → Option String
reason (some (text s)) =
    if leb 1 (char_count s) && leb (char_count s) 64 && all_words s then some s else none
reason _ = none

pub record ReportedUsage : Type 0 where
  pub prompt_tokens : Option Reported
  pub output_tokens : Option Reported
  pub total_tokens : Option Reported
  pub thinking_token_count : Option Reported
  pub finish_reason : Option Reported
  pub elapsed_ms : Option Reported
  -- whether there is any other key
  pub unsupported : Bool

unfoldable pub clean : ReportedUsage → Usage
clean u = record {
  prompt_tokens = tokens u.prompt_tokens;
  output_tokens = tokens u.output_tokens;
  total_tokens = tokens u.total_tokens;
  thinking_token_count = tokens u.thinking_token_count;
  finish_reason = reason u.finish_reason;
  elapsed_ms = elapsed u.elapsed_ms;
}

unfoldable pub completed_receipt : String → DateTime → ReceiptStatus → Usage → Receipt → Receipt
completed_receipt id now status usage x =
    if x.id == id
    then record x { completed_at = some now.instant; status = status; usage = some usage }
    else x

abbrev pub usage_is : Option Usage → Usage → Bool
usage_is none u = false
usage_is (some v) u = same_usage v u

-- What `complete` does with the row that it finds.
unfoldable pub complete_found :
    String
    → DateTime
    → ReceiptStatus
    → Usage
    → List Receipt
    → Receipt
    → Result UsageError (List Receipt)
complete_found id now status usage xs x =
    if is_outstanding x.status
    then if ltb now.instant x.started_at
      then err precedes_reservation
      else ok (map (completed_receipt id now status usage) xs)
    else if same_status x.status status && usage_is x.usage usage
    then ok xs
    else err cannot_rewrite

unfoldable pub find_receipt : String → List Receipt → Option Receipt
find_receipt id xs = find (λ x. x.id == id) xs

unfoldable pub complete :
    String
    → DateTime
    → ReceiptStatus
    → ReportedUsage
    → List Receipt
    → Result UsageError (List Receipt)
complete id now status usage xs = do
  raise_if (not now.aware || is_outstanding status) invalid_completion
  raise_if usage.unsupported unsupported_usage
  elim (find_receipt id xs) [
    | none ↦ err not_found
    | some x ↦ complete_found id now status (clean usage) xs x
  ]
