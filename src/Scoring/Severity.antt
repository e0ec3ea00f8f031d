-- ===== src/Scoring/Severity.antt =====
-- The public risk of a customer against its most severe event.
use Prim.Native.Nat.{min}
use native.Mathlib.Nat.{mul-le-mul_right}
use mathlib.Core.Option.{some-injective}
use btx_omni_prospect.Prelude.{
  ℕ, ◌+◌, ◌*◌, ◌≤◌, ◌<◌, String, Bool, true, false, ◌&&◌, ◌||◌, none, some, List, [], ◌∷◌, ◌≡◌,
  refl, ◌∙◌, ap, any, select, length, string_eq, nat_eq, arith, inl, inr, Option-cases, leb,
}
use btx_omni_prospect.Prelude.Dict.{lookup, insert, values}
use btx_omni_prospect.Prelude.Sorting.{sorted}
use btx_omni_prospect.Prelude.Sorting
use btx_omni_prospect.Prelude.Result.{ok, >>=-eq-ok}
use btx_omni_prospect.Scoring.PublicRisk.{
  RiskEvent, Unique, enter, consider, consider_all, ranks_before, is_additional, distinct_domains,
  uplift_for, Rollup, rolled_up, public_risk_rollup,
}

abbrev pub is_severe : ℕ → RiskEvent → Bool
is_severe n e = leb n e.severity

-- An active event of sufficient confidence.
abbrev pub counts : ℕ → RiskEvent → Bool
counts unit e = e.active && elim e.signal_confidence [ none ↦ false | some c ↦ leb (70 * unit) c ]

insert-new :
    (p : RiskEvent → Bool) (k : String) (e : RiskEvent) (u : Unique)
    → lookup k u ≡ none
    → any p (values (insert k e u)) ≡ (p e || any p (values u))
unfolding lookup insert
insert-new p k e [] h = ground arith
insert-new p k e ((j, d) ∷ u) h = ground (arith, insert-new p k e u)

insert-same :
    (p : RiskEvent → Bool) (k : String) (e d : RiskEvent) (u : Unique)
    → lookup k u ≡ some d
    → p d ≡ p e
    → any p (values (insert k e u)) ≡ (p e || any p (values u))
unfolding lookup insert
insert-same p k e d [] h s = cc
insert-same p k e d ((j, c) ∷ u) h s = ground (arith, insert-same p k e d u)

module _ (unit n : ℕ) where
  consider-severe :
      (e : RiskEvent) (u v : Unique)
      → consider unit e u ≡ ok v
      → any (is_severe n) (values v)
        ≡ (any (is_severe n) (values u) || (counts unit e && is_severe n e))
  unfolding consider enter
  consider-severe e u v h = elim (Option-cases (lookup e.underlying_event_id u)) [
    | inl absent ↦ ground (arith, insert-new (is_severe n) e.underlying_event_id e u absent)
    | inr (d, found) ↦ ground (
      arith,
      insert-same (is_severe n) e.underlying_event_id e d u found,
      nat_eq.same_iff d.severity e.severity,
    )
  ]

  consider_all-severe :
      (es : List RiskEvent) (u v : Unique)
      → consider_all unit es u ≡ ok v
      → any (is_severe n) (values v)
        ≡ (any (is_severe n) (values u) || any (λ e. counts unit e && is_severe n e) es)
  unfolding consider_all
  consider_all-severe [] u v h = ground arith
  consider_all-severe (e ∷ es) u v h =
      let (next, first, rest) = >>=-eq-ok (consider unit e u) (consider_all unit es) h in
      ground (arith, consider-severe e u next first, consider_all-severe es next v rest)

  abbrev leads : List RiskEvent → Bool
  leads [] = false
  leads (e ∷ es) = is_severe n e

  leads-insert :
      (e : RiskEvent) (es : List RiskEvent)
      → leads (Sorting.insert ranks_before e es) ≡ (is_severe n e || leads es)
  unfolding Sorting.insert
  leads-insert e [] = ground arith
  leads-insert e (d ∷ es) = ground (arith, nat_eq.same_iff e.severity d.severity)

  -- The first of the ranked events is the most severe.
  leads-sorted : (es : List RiskEvent) → leads (sorted ranks_before es) ≡ any (is_severe n) es
  unfolding sorted
  leads-sorted [] = refl
  leads-sorted (e ∷ es) =
      leads-insert e (sorted ranks_before es) ∙ ap (λ b. is_severe n e || b) (leads-sorted es)

uplift_for-le : (n : ℕ) → uplift_for n ≤ 10
uplift_for-le n = ground arith

-- The score of a roll-up stands between its most severe event and ten points above it.
pub record IsRolledUp (unit : ℕ) (events : List RiskEvent) (s : ℕ) : Type 0 where
  pub bounded : s ≤ 100 * unit
  pub undiluted :
      (n : ℕ) → any (λ e. counts unit e && is_severe n e) events ≡ true → n ≤ 100 * unit → n ≤ s
  pub uncounted :
      (n : ℕ) → 1 ≤ n → any (λ e. counts unit e && is_severe n e) events ≡ false → s < n + 10 * unit

rolled_up-le :
    (unit : ℕ) (complete : Bool) (es : List RiskEvent) (s n : ℕ)
    → (rolled_up unit complete es).score ≡ some s
    → (s ≤ 100 * unit)
      × (leads unit n es ≡ true → n ≤ 100 * unit → n ≤ s)
      × (1 ≤ n → leads unit n es ≡ false → s < n + 10 * unit)
unfolding rolled_up
rolled_up-le unit complete [] s n h = (ground arith, λ a b. ground arith, λ a b. ground arith)
rolled_up-le unit complete (e ∷ es) s n h =
    let count = length (distinct_domains (select (is_additional unit e.risk_domain) (e ∷ es))) in
    let small : uplift_for count * unit ≤ 10 * unit = mul-le-mul_right unit (uplift_for-le count) in
    let score : min (100 * unit) (e.severity + uplift_for count * unit) ≡ s =
      some-injective _ _ h in
    (omega (arith, score), λ a b. ground (arith, score), λ a b. ground (arith, score, small))

-- Where the roll-up gives a score, no counted event is diluted: the score is at least its severity, at
-- most 100, and less than ten points above any severity that no counted event reaches. An event
-- counts if it is active and its confidence is at least 70, however often it is reported.
pub public_risk_rollup-IsRolledUp :
    (unit : ℕ) (events : List RiskEvent) (complete : Bool) (r : Rollup) (s : ℕ)
    → public_risk_rollup unit events complete ≡ ok r
    → r.score ≡ some s
    → IsRolledUp unit events s
unfolding public_risk_rollup
public_risk_rollup-IsRolledUp unit events complete r s h k =
    let (unique, considered, made) = >>=-eq-ok (consider_all unit events []) _ h in
    let ranked = sorted ranks_before (values unique) in
    let score : (rolled_up unit complete ranked).score ≡ some s = ground arith in
    let top : (n : ℕ) → leads unit n ranked ≡ any (λ e. counts unit e && is_severe n e) events =
      λ n.
        leads-sorted unit n (values unique)
        ∙ consider_all-severe unit n events [] unique considered in
    let facts = rolled_up-le unit complete ranked s in
    record {
      bounded = (facts 0 score).0;
      undiluted = λ n a b. (facts n score).1 (top n ∙ a) b;
      uncounted = λ n a b. (facts n score).2 a (top n ∙ b);
    }
