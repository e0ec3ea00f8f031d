-- ===== src/Usage/Receipts.antt =====
-- The rows of `ai_call_receipts`, in the order in which they were inserted.
use btx_omni_prospect.Prelude.{
  ℕ, String, Bool, true, false, ◌&&◌, ◌==◌, Option, none, some, ◌*◌, ◌^◌, nat_eq, string_eq,
  option_eq,
}

pub data ReceiptStatus : Type 0 where
  reserved expired_outcome_unknown : ReceiptStatus
  response_received auth_failed timeout provider_quota failed : ReceiptStatus

-- RESERVED or EXPIRED_OUTCOME_UNKNOWN
abbrev pub is_outstanding : ReceiptStatus → Bool
is_outstanding reserved = true
is_outstanding expired_outcome_unknown = true
is_outstanding _ = false

abbrev pub is_reserved : ReceiptStatus → Bool
is_reserved reserved = true
is_reserved _ = false

abbrev pub status_index : ReceiptStatus → ℕ
status_index reserved = 0
status_index expired_outcome_unknown = 1
status_index response_received = 2
status_index auth_failed = 3
status_index timeout = 4
status_index provider_quota = 5
status_index failed = 6

abbrev pub same_status : ReceiptStatus → ReceiptStatus → Bool
same_status a b = status_index a == status_index b

-- The limits that a reservation was admitted under.
pub record BudgetPolicy : Type 0 where
  pub daily_environment_calls : ℕ
  pub daily_actor_calls : ℕ
  pub concurrent_environment_leases : ℕ
  pub concurrent_actor_leases : ℕ
  pub lease_seconds : ℕ

-- A number that is not negative, an int or a finite double: the numerator, halved so many times.
pub record Number : Type 0 where
  pub numerator : ℕ
  pub halvings : ℕ

-- As Python compares them, 5 == 5.0.
abbrev pub same_number : Number → Number → Bool
same_number a b = a.numerator * 2 ^ b.halvings == b.numerator * 2 ^ a.halvings

abbrev pub same_elapsed : Option Number → Option Number → Bool
same_elapsed none none = true
same_elapsed (some a) (some b) = same_number a b
same_elapsed _ _ = false

-- The usage that is kept. Its JSON reads back as it was.
pub record Usage : Type 0 where
  pub prompt_tokens : Option ℕ
  pub output_tokens : Option ℕ
  pub total_tokens : Option ℕ
  pub thinking_token_count : Option ℕ
  pub finish_reason : Option String
  pub elapsed_ms : Option Number

unfoldable pub same_usage : Usage → Usage → Bool
same_usage a b =
    a.prompt_tokens == b.prompt_tokens
    && a.output_tokens == b.output_tokens
    && a.total_tokens == b.total_tokens
    && a.thinking_token_count == b.thinking_token_count
    && a.finish_reason == b.finish_reason
    && same_elapsed a.elapsed_ms b.elapsed_ms

-- Times are instants in microseconds from a midnight of UTC.
pub record Receipt : Type 0 where
  pub id : String
  pub environment_id : String
  pub actor_id : String
  pub purpose : String
  pub model : String
  pub started_at : ℕ
  pub lease_expires_at : ℕ
  pub completed_at : Option ℕ
  pub status : ReceiptStatus
  pub policy : BudgetPolicy
  pub usage : Option Usage

pub data UsageError : Type 0 where
  naive_clock invalid_identity policy_out_of_bounds duplicate_id : UsageError
  environment_daily actor_daily environment_busy actor_busy : UsageError
  invalid_completion unsupported_usage not_found cannot_rewrite precedes_reservation : UsageError
