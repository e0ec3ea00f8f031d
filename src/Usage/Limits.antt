-- ===== src/Usage/Limits.antt =====
-- The limits hold after every reservation, and a completed receipt is final.
use btx_omni_prospect.Prelude.{
  String, Option, none, true, ◌*◌, ◌^◌, ◌≤◌, some, List, [], ◌∷◌, ◌≡◌, refl, map, ◌==◌, nat_eq,
  string_eq, option_eq, DateTime, arith, inl, inr, Option-cases, beq_refl,
}
use btx_omni_prospect.Prelude.Result.{ok}
use btx_omni_prospect.Usage.Receipts.{
  Receipt, ReceiptStatus, Usage, Number, same_elapsed, same_usage, status_index,
}
use btx_omni_prospect.Usage.Budget.{
  Reservation, ReportedUsage, complete, complete_found, completed_receipt, find_receipt, clean,
  environment_calls, actor_calls, environment_leases, actor_leases,
}

pub record WithinBudget (q : Reservation) (xs : List Receipt) : Type 0 where
  pub daily_environment : environment_calls q xs ≤ q.policy.daily_environment_calls
  pub daily_actor : actor_calls q xs ≤ q.policy.daily_actor_calls
  pub environment_busy : environment_leases q xs ≤ q.policy.concurrent_environment_leases
  pub actor_busy : actor_leases q xs ≤ q.policy.concurrent_actor_leases

same_elapsed_refl : (x : Option Number) → same_elapsed x x ≡ true
same_elapsed_refl none = refl
same_elapsed_refl (some x) = beq_refl (x.numerator * 2 ^ x.halvings)

same_usage_refl : (u : Usage) → same_usage u u ≡ true
unfolding same_usage
same_usage_refl u =
    rw
      (
        beq_refl u.prompt_tokens,
        beq_refl u.output_tokens,
        beq_refl u.total_tokens,
        beq_refl u.thinking_token_count,
        beq_refl u.finish_reason,
        same_elapsed_refl u.elapsed_ms,
      )
      refl

completed_found :
    (id : String) (now : DateTime) (status : ReceiptStatus) (u : Usage) (xs : List Receipt)
    (x : Receipt)
    → find_receipt id xs ≡ some x
    → find_receipt id (map (completed_receipt id now status u) xs)
      ≡ some (completed_receipt id now status u x)
unfolding find_receipt completed_receipt
completed_found id now status u [] x h = ground arith
completed_found id now status u (y ∷ ys) x h =
    ground (arith, completed_found id now status u ys x, string_eq.same_iff y.id id)

found_id :
    (id : String) (xs : List Receipt) (x : Receipt)
    → find_receipt id xs ≡ some x
    → (x.id == id) ≡ true
unfolding find_receipt
found_id id [] x h = ground arith
found_id id (y ∷ ys) x h = ground (arith, found_id id ys x)

-- A completion that was accepted is accepted again, without effect, when it is repeated.
pub completion_retry :
    (id : String) (now : DateTime) (status : ReceiptStatus) (usage : ReportedUsage)
    (xs ys : List Receipt)
    → complete id now status usage xs ≡ ok ys
    → complete id now status usage ys ≡ ok ys
unfolding complete complete_found
completion_retry id now status usage xs ys h = elim (Option-cases (find_receipt id xs)) [
  | inl g ↦ ground arith
  | inr (x, g) ↦
      unfold completed_receipt in
      ground (
        arith,
        completed_found id now status (clean usage) xs x g,
        found_id id xs x g,
        same_usage_refl (clean usage),
        nat_eq.same_iff (status_index status) (status_index status),
      )
]
