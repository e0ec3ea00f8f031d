-- ===== src/Scoring/PublicRisk.antt =====
-- `public_risk_rollup` of modules/scoring/families.py.
use Prim.Native.Nat.{min}
use btx_omni_prospect.Prelude.{
  ℕ, ◌+◌, ◌*◌, String, Bool, not, ◌&&◌, ◌||◌, Option, none, some, List, [], ◌∷◌, select, length,
  elem, map, ◌==◌, string_eq, nat_eq, if◌then◌else◌, leb, ltb,
}
use btx_omni_prospect.Prelude.Dict.{lookup, insert, values}
use btx_omni_prospect.Prelude.Sorting.{sorted, text_le}
use btx_omni_prospect.Prelude.Result.{Result, ok, err, raise_if, ◌>>=◌, ◌>>◌}
use btx_omni_prospect.Scoring.CustomerRisk.{
  RiskError, invalid_confidence, invalid_severity, conflicting_copies,
}

-- Confidence and severity are numbers of units.
pub record RiskEvent : Type 0 where
  pub active : Bool
  pub signal_confidence : Option ℕ
  pub severity : ℕ
  pub underlying_event_id : String
  pub risk_domain : String

abbrev pub same_reading : RiskEvent → RiskEvent → Bool
same_reading a b = a.severity == b.severity && a.risk_domain == b.risk_domain

abbrev pub Unique : Type 0
Unique = List (String × RiskEvent)

-- An event of sufficient confidence enters `unique`.
unfoldable pub enter : ℕ → RiskEvent → Unique → Result RiskError Unique
enter unit e unique = do
  raise_if (not (leb e.severity (100 * unit))) invalid_severity
  elim (lookup e.underlying_event_id unique) [
    | none ↦ ok (insert e.underlying_event_id e unique)
    | some previous ↦
        if same_reading previous e
        then ok (insert e.underlying_event_id e unique)
        else err conflicting_copies
  ]

-- One round of the loop over the events.
unfoldable pub consider : ℕ → RiskEvent → Unique → Result RiskError Unique
consider unit e unique = if not e.active then ok unique else elim e.signal_confidence [
  | none ↦ ok unique
  | some confidence ↦
      if not (leb confidence (100 * unit))
      then err invalid_confidence
      else if ltb confidence (70 * unit)
      then ok unique
      else enter unit e unique
]

unfoldable pub consider_all : ℕ → List RiskEvent → Unique → Result RiskError Unique
consider_all unit [] unique = ok unique
consider_all unit (e ∷ es) unique = do next ← consider unit e unique; consider_all unit es next

-- The order of `ranked`.
abbrev pub ranks_before : RiskEvent → RiskEvent → Bool
ranks_before a b =
    ltb b.severity a.severity
    || a.severity == b.severity && text_le a.underlying_event_id b.underlying_event_id

abbrev pub allowed_domains : List String
allowed_domains = "financial/legal" ∷ "demand/program" ∷ "operations/site" ∷ "supplier/service" ∷ []

-- A material event of one of the domains, but not of the first event's.
abbrev pub is_additional : ℕ → String → RiskEvent → Bool
is_additional unit domain e =
    leb (40 * unit) e.severity
    && elem e.risk_domain allowed_domains
    && not (e.risk_domain == domain)

abbrev pub distinct_domains : List RiskEvent → List String
distinct_domains [] = []
distinct_domains (e ∷ es) =
    let rest = distinct_domains es in if elem e.risk_domain rest then rest else e.risk_domain ∷ rest

abbrev pub uplift_for : ℕ → ℕ
uplift_for n = if leb 2 n then 10 else if leb 1 n then 5 else 0

-- The score is in units, the uplift in points.
pub record Rollup : Type 0 where
  pub score : Option ℕ
  pub independent_event_ids : List String
  pub uplift : ℕ

abbrev pub event_ids : List RiskEvent → List String
event_ids es = map (λ e. e.underlying_event_id) es

unfoldable pub rolled_up : ℕ → Bool → List RiskEvent → Rollup
rolled_up unit complete [] = record {
  score = if complete then some 0 else none;
  independent_event_ids = [];
  uplift = 0;
}
rolled_up unit complete (e ∷ es) =
    let uplift =
      uplift_for (length (distinct_domains (select (is_additional unit e.risk_domain) (e ∷ es)))) in
    record {
      score = some (min (100 * unit) (e.severity + uplift * unit));
      independent_event_ids = event_ids (e ∷ es);
      uplift = uplift;
    }

unfoldable pub public_risk_rollup : ℕ → List RiskEvent → Bool → Result RiskError Rollup
public_risk_rollup unit events complete = do
  unique ← consider_all unit events []
  ok (rolled_up unit complete (sorted ranks_before (values unique)))
