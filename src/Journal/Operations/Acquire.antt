-- ===== src/Journal/Operations/Acquire.antt =====
-- `MonitorResearchJournal.acquire`, and what the other methods share with it.
use Prim.Native.String.{len, count as char_count}
use Prim.Native.Char.{code}
use Prim.Native.Nat.{min}
use btx_omni_prospect.Prelude.{
  ℕ, zero, suc, ◌+◌, ◌*◌, ◌^◌, String, Bool, true, false, not, ◌&&◌, ◌||◌, Option, none, some, [],
  map, string_eq, nat_eq, option_eq, ◌==◌, ltb, leb, DateTime, if◌then◌else◌,
}
use btx_omni_prospect.Prelude.Dict.{lookup, insert}
use btx_omni_prospect.Prelude.Result.{Result, ok, err, raise_if, ◌>>=◌, ◌>>◌}
use btx_omni_prospect.Journal.Records.{
  pending, running, interrupted_unknown, Step, Entry, Journal, JournalError, active_worker,
  attempts_exhausted, cooling_down, invalid_run_bounds, record_too_large, is_started, is_completed,
  is_paused,
}

-- Hashing and JSON by Python's library. A value to store is given by its canonical JSON text.
pub record Library : Type 0 where
  pub sha256_hexdigest : String → String
  -- json.dumps of [VERSION, event_reference, source_revision, configuration]
  pub run_key : String → String → String → String
  -- the canonical text of json.loads(result).get('publication_outcome')
  pub recorded_outcome : String → String
  -- the result with `published`, `publication_state` and `publication_outcome` set
  pub with_outcome : String → String → String

abbrev pub seconds : ℕ → ℕ
seconds n = n * 1000000

-- `_json(value, limit)`
unfoldable pub bounded : String → ℕ → Result JournalError String
bounded text limit = if ltb limit (len text) then err record_too_large else ok text

abbrev pub is_hex : ℕ → Bool
is_hex c = leb b'0' c && leb c b'9' || leb b'a' c && leb c b'f'

abbrev pub all_hex : String → Bool
all_hex String.[] = true
all_hex (String.◌∷◌ c s) = is_hex (code c) && all_hex s

-- lo <= n <= hi
abbrev pub between : ℕ → ℕ → ℕ → Bool
between lo n hi = leb lo n && leb n hi

pub record AcquireArgs : Type 0 where
  pub event_reference : String
  pub source_revision : String
  pub configuration : String
  pub now : DateTime
  pub lease_seconds : ℕ
  pub max_attempts : ℕ
  -- the value of `uuid4`
  pub token : String

abbrev pub within_bounds : AcquireArgs → Bool
within_bounds a =
    a.now.aware
    && between 1 a.lease_seconds 300
    && between 1 a.max_attempts 3
    && between 1 (char_count a.event_reference) 200
    && char_count a.source_revision == 64
    && all_hex a.source_revision

-- min(300, 60 * 2 ** (attempt_count - 1)) seconds
abbrev pub cooldown : ℕ → ℕ
cooldown zero = seconds 30
cooldown (suc n) = seconds (min 300 (60 * 2 ^ n))

unfoldable pub new_entry : AcquireArgs → Entry
new_entry a = record {
  run = record {
    event_reference = a.event_reference;
    source_revision = a.source_revision;
    status = pending;
    created_at = a.now.instant;
    updated_at = a.now.instant;
    lease_token = none;
    lease_until = none;
    completed_steps = 0;
    attempt_count = 0;
    result = none;
  };
  steps = [];
}

-- A call that was admitted before a crash has an unknown outcome.
unfoldable pub interrupted : ℕ → Step → Step
interrupted now s =
    if is_started s.status
    then record s { status = interrupted_unknown; completed_at = some now }
    else s

abbrev pub lease_active : Option ℕ → ℕ → Bool
lease_active none now = false
lease_active (some t) now = ltb now t

-- The transaction of `acquire` on the run's row: a fresh token, or none for a completed run.
unfoldable pub acquire_entry : AcquireArgs → Entry → Result JournalError (Option String × Entry)
acquire_entry a e = if is_completed e.run.status then ok (none, e) else do
  raise_if (lease_active e.run.lease_until a.now.instant) active_worker
  raise_if (leb a.max_attempts e.run.attempt_count) attempts_exhausted
  raise_if
      (is_paused e.run.status
        && ltb a.now.instant (e.run.updated_at + cooldown e.run.attempt_count))
      cooling_down
  ok (
    some a.token,
    record {
      run = record e.run {
        status = running;
        lease_token = some a.token;
        lease_until = some (a.now.instant + seconds a.lease_seconds);
        updated_at = a.now.instant;
        attempt_count = e.run.attempt_count + 1;
      };
      steps = map (interrupted a.now.instant) e.steps;
    },
  )

-- The row after `insert ... on conflict do nothing`.
abbrev pub inserted : AcquireArgs → Option Entry → Entry
inserted a none = new_entry a
inserted a (some e) = e

unfoldable pub run_id : Library → AcquireArgs → Result JournalError String
run_id l a = do
  key ← bounded (l.run_key a.event_reference a.source_revision a.configuration) 8000
  ok (l.sha256_hexdigest key)

unfoldable pub acquire :
    Library → AcquireArgs → Journal → Result JournalError ((String × Option String) × Journal)
acquire l a j = do
  raise_if (not (within_bounds a)) invalid_run_bounds
  id ← run_id l a
  (token, e) ← acquire_entry a (inserted a (lookup id j))
  ok ((id, token), insert id e j)
