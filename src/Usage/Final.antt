-- ===== src/Usage/Final.antt =====
-- A completed receipt is never rewritten.
use btx_omni_prospect.Prelude.{
  ℕ, String, false, some, List, [], ◌∷◌, ◌++◌, ◌≡◌, map, ◌==◌, nat_eq, string_eq, DateTime, arith,
  inl, inr, Option-cases, Bool-cases, eq_of_beq,
}
use btx_omni_prospect.Prelude.Result.{ok, err}
use btx_omni_prospect.Usage.Receipts.{Receipt, ReceiptStatus, Usage, is_outstanding}
use btx_omni_prospect.Usage.Budget.{
  Reservation, ReportedUsage, new_receipt, expire, admit, reserve, complete, complete_found,
  completed_receipt, find_receipt, clean,
}

pub data Call : Type 0 where
  reserves : Reservation → Call
  completes : String → DateTime → ReceiptStatus → ReportedUsage → Call

-- A method that raises has rolled its transaction back.
unfoldable pub call : Call → List Receipt → List Receipt
call (reserves q) xs = elim (reserve q xs) [ err e ↦ xs | ok (id, ys) ↦ ys ]
call (completes id now status usage) xs = elim (complete id now status usage xs) [
  | err e ↦ xs
  | ok ys ↦ ys
]

unfoldable pub calls : List Call → List Receipt → List Receipt
calls [] xs = xs
calls (c ∷ cs) xs = calls cs (call c xs)

expire_id : (environment : String) (now : ℕ) (x : Receipt) → (expire environment now x).id ≡ x.id
unfolding expire
expire_id environment now x = ground arith

expire_settled :
    (environment : String) (now : ℕ) (x : Receipt)
    → is_outstanding x.status ≡ false
    → expire environment now x ≡ x
unfolding expire
expire_settled environment now x s = ground arith

module _ (id : String) (x : Receipt) (settled : is_outstanding x.status ≡ false) where
  found-snoc :
      (xs : List Receipt) (y : Receipt)
      → find_receipt id xs ≡ some x
      → find_receipt id (xs ++ y ∷ []) ≡ some x
  unfolding find_receipt
  found-snoc [] y h = ground arith
  found-snoc (z ∷ zs) y h = ground (arith, found-snoc zs y)

  found-expire :
      (environment : String) (now : ℕ) (xs : List Receipt)
      → find_receipt id xs ≡ some x
      → find_receipt id (map (expire environment now) xs) ≡ some x
  unfolding find_receipt
  found-expire environment now [] h = ground arith
  found-expire environment now (z ∷ zs) h = ground (
    arith,
    expire_id environment now z,
    expire_settled environment now x settled,
    found-expire environment now zs,
  )

  found-completed :
      (i : String) (now : DateTime) (status : ReceiptStatus) (u : Usage) (xs : List Receipt)
      → (i == id) ≡ false
      → find_receipt id xs ≡ some x
      → find_receipt id (map (completed_receipt i now status u) xs) ≡ some x
  unfolding find_receipt completed_receipt
  found-completed i now status u [] n h = ground arith
  found-completed i now status u (z ∷ zs) n h = ground (
    arith,
    found-completed i now status u zs n,
    string_eq.same_iff z.id i,
    string_eq.same_iff z.id id,
    string_eq.same_iff i id,
  )

  reserve_stays :
      (q : Reservation) (xs : List Receipt)
      → find_receipt id xs ≡ some x
      → find_receipt id (call (reserves q) xs) ≡ some x
  unfolding call reserve admit
  reserve_stays q xs h =
      let ys = map (expire q.environment_id q.now.instant) xs in
      ground
        (arith, found-expire q.environment_id q.now.instant xs h, found-snoc ys (new_receipt q))

  complete_stays :
      (i : String) (now : DateTime) (status : ReceiptStatus) (u : ReportedUsage) (xs : List Receipt)
      → find_receipt id xs ≡ some x
      → find_receipt id (call (completes i now status u) xs) ≡ some x
  unfolding call complete complete_found
  complete_stays i now status u xs h = elim (Bool-cases (i == id)) [
    | inl y ↦ ground (arith, eq_of_beq i id y, settled)
    | inr n ↦ elim (Option-cases (find_receipt i xs)) [
      | inl g ↦ ground arith
      | inr (z, g) ↦ ground (arith, found-completed i now status (clean u) xs n h)
    ]
  ]

-- Once a receipt was completed, no later reservations or completions change it.
pub completed_receipt_final :
    (cs : List Call) (xs : List Receipt) (id : String) (x : Receipt)
    → find_receipt id xs ≡ some x
    → is_outstanding x.status ≡ false
    → find_receipt id (calls cs xs) ≡ some x
unfolding calls
completed_receipt_final [] xs id x h s = h
completed_receipt_final (reserves q ∷ cs) xs id x h s =
    completed_receipt_final cs (call (reserves q) xs) id x (reserve_stays id x s q xs h) s
completed_receipt_final (completes i now status u ∷ cs) xs id x h s =
    completed_receipt_final cs (call (completes i now status u) xs) id x
      (complete_stays id x s i now status u xs h) s
