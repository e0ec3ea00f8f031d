-- ===== src/Sessions/Store.antt =====
-- `SessionStore`. One call holds the lock for its whole change of the dictionary.
use Prim.Native.Nat.{max}
use btx_omni_prospect.Prelude.{
  ℕ, String, Bool, true, false, not, ◌&&◌, ◌||◌, ◌+◌, ◌*◌, Option, none, some, List, [], ◌∷◌, ◌==◌,
  string_eq, is_empty, if◌then◌else◌, ltb,
}
use btx_omni_prospect.Prelude.Dict.{lookup, insert, without}
use btx_omni_prospect.Work.Domain.{Principal, PrincipalRole, salesperson, manager}

-- The settings that the store reads.
pub record Settings : Type 0 where
  pub omni_tenant_id : Option String
  pub user_access_code_hashes : List (String × String)
  pub action_salesperson_token : String
  pub action_manager_token : String
  pub environment : String
  pub hosted_demo_access_bypass_enabled : Bool
  pub session_ttl_seconds : ℕ

-- Times are instants in microseconds.
pub record Session : Type 0 where
  pub id : String
  pub csrf_token : String
  pub principal : Principal
  pub expires_at : ℕ

abbrev pub Sessions : Type 0
Sessions = List (String × Session)

-- What the environment gives a call: the clock, and the two values of `token_urlsafe`.
pub record Moment : Type 0 where
  pub now : ℕ
  pub session_token : String
  pub csrf_token : String

unfoldable pub server_principal : Settings → String → String → PrincipalRole → Principal
server_principal settings id name role = record {
  user_id = id;
  display_name = name;
  role = role;
  tenant_id = settings.omni_tenant_id;
}

-- `_create`
unfoldable pub new_session : Settings → Moment → Principal → Session
new_session settings m p = record {
  id = m.session_token;
  csrf_token = m.csrf_token;
  principal = p;
  expires_at = m.now + max 60 settings.session_ttl_seconds * 1000000;
}

unfoldable pub create : Settings → Moment → Principal → Sessions → Session × Sessions
create settings m p sessions =
    let session = new_session settings m p in (session, insert session.id session sessions)

-- The users whose configured hash is the digest; `compare_digest` tests equality.
abbrev pub matches : String → List (String × String) → List String
matches digest [] = []
matches digest ((user, expected) ∷ rest) =
    let others = matches digest rest in if digest == expected then user ∷ others else others

abbrev pub development : Settings → Bool
development settings = settings.environment == "development"

-- The principal that one kind of credential stands for.
unfoldable pub identified :
    Settings
    → (access_code : String) → List String
    → (seller : Bool) → (boss : Bool) → Option Principal
identified settings code (user ∷ users) true boss = none
identified settings code (user ∷ users) false true = none
identified settings code (user ∷ other ∷ users) false false = none
identified settings code (user ∷ []) false false =
    some (server_principal settings user "Configured user" salesperson)
identified settings code [] true true = none
identified settings code [] true false =
    if development settings || not (code == "development-salesperson")
    then some (server_principal settings "shared-access" "POC Salesperson" salesperson)
    else none
identified settings code [] false true =
    if development settings || not (code == "development-manager")
    then some (server_principal settings "shared-access-manager" "POC Manager" manager)
    else none
identified settings code [] false false = none

-- The principal that an access code stands for; `sha256` is `hashlib`'s hexadecimal digest.
unfoldable pub principal_of :
    Settings → (String → String) → (access_code : String) → Option Principal
principal_of settings sha256 code =
    identified settings code (matches (sha256 code) settings.user_access_code_hashes)
      (code == settings.action_salesperson_token) (code == settings.action_manager_token)

unfoldable pub exchange :
    Settings
    → (String → String)
    → Moment
    → (access_code : String) → Sessions
    → Option Session × Sessions
exchange settings sha256 m code sessions = elim (principal_of settings sha256 code) [
  | none ↦ (none, sessions)
  | some p ↦ let (session, next) = create settings m p sessions in (some session, next)
]

unfoldable pub create_sample_demo_salesperson :
    Settings → Moment → Sessions → Option Session × Sessions
create_sample_demo_salesperson settings m sessions =
    let p = server_principal settings "shared-access" "POC Salesperson" salesperson in
    let (session, next) = create settings m p sessions in
    if settings.hosted_demo_access_bypass_enabled then (some session, next) else (none, sessions)

unfoldable pub get : Option String → (now : ℕ) → Sessions → Option Session × Sessions
get none now sessions = (none, sessions)
get (some id) now sessions = if is_empty id then (none, sessions) else elim (lookup id sessions) [
  | none ↦ (none, without id sessions)
  | some session ↦
      if ltb now session.expires_at then (some session, sessions) else (none, without id sessions)
]

unfoldable pub revoke : Option String → Sessions → Sessions
revoke none sessions = sessions
revoke (some id) sessions = if is_empty id then sessions else without id sessions

abbrev pub has_users : List (String × String) → Bool
has_users [] = false
has_users (user ∷ users) = true

-- `production_configured`
unfoldable pub production_configured : Settings → Bool
production_configured s =
    has_users s.user_access_code_hashes
    || not (is_empty s.action_salesperson_token)
      && not (is_empty s.action_manager_token)
      && not (
          s.action_salesperson_token == "development-salesperson"
          || s.action_manager_token == "development-manager")
