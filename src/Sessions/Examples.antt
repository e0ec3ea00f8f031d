-- ===== src/Sessions/Examples.antt =====
-- One seller and one manager sign in, and each theorem at a concrete input.
use btx_omni_prospect.Prelude.{
  String, true, false, none, some, [], ◌∷◌, ◌+◌, ◌≤◌, ◌≡◌, ◌≢◌, refl, ltb, not, ◌||◌, ◌==◌,
  string_eq, if◌then◌else◌, arith,
}
use btx_omni_prospect.Prelude.Dict.{lookup, insert, without}
use btx_omni_prospect.Work.Domain.{Principal, salesperson, is_manager, manager}
use btx_omni_prospect.Sessions.Store.{
  Settings, Session, Moment, server_principal, new_session, create, matches, identified,
  principal_of, exchange, get, revoke, development,
}
use btx_omni_prospect.Sessions.Access.{
  gets, after_all, revoked_stays_out, get-exchange, manager_code,
}

abbrev settings : Settings
settings = record {
  omni_tenant_id = none;
  user_access_code_hashes = ("zoe", "hash-of-zoe") ∷ [];
  action_salesperson_token = "sell";
  action_manager_token = "boss";
  environment = "production";
  hosted_demo_access_bypass_enabled = false;
  session_ttl_seconds = 3600;
}

abbrev digest : String → String
digest s = s

abbrev moment : Moment
moment = record { now = 5; session_token = "s1"; csrf_token = "c1" }

abbrev seller_session : Session
seller_session =
    new_session settings moment
      (server_principal settings "shared-access" "POC Salesperson" salesperson)

sessions_program : Unit {0}
unfolding exchange principal_of identified server_principal create new_session get revoke insert
    lookup without
sessions_program = tt

seller_signed_in : (exchange settings digest moment "sell" []).0 ≡ some seller_session
unfolding sessions_program
seller_signed_in = refl

get-exchange_example :
    ((get (some "s1") 100 (exchange settings digest moment "sell" []).1).0
      ≡ (if ltb 100 seller_session.expires_at then some seller_session else none))
    × (5 + 60000000 ≤ seller_session.expires_at)
unfolding sessions_program
get-exchange_example =
    get-exchange settings digest moment "sell" [] 100 seller_session refl seller_signed_in

revoked_stays_out_example :
    (get (some "s1") 200 (
      after_all settings digest
        (gets (some "s1") 150 ∷ [])
        (revoke (some "s1") (exchange settings digest moment "sell" []).1))).0
    ≡ none
revoked_stays_out_example =
    revoked_stays_out settings digest (gets (some "s1") 150 ∷ [])
      (exchange settings digest moment "sell" []).1 "s1" 200 refl ((λ h. ground arith), tt)

abbrev boss : Principal
boss = server_principal settings "shared-access-manager" "POC Manager" manager

boss_known : principal_of settings digest "boss" ≡ some boss
unfolding sessions_program
boss_known = refl

boss_manages : is_manager boss ≡ true
unfolding sessions_program
boss_manages = refl

abbrev boss_code : String
boss_code = "boss"

manager_code_example :
    (boss_code ≡ settings.action_manager_token)
    × (boss_code ≢ settings.action_salesperson_token)
    × (matches (digest boss_code) settings.user_access_code_hashes ≡ [])
    × ((development settings || not (boss_code == "development-manager")) ≡ true)
manager_code_example = manager_code settings digest boss_code boss boss_known boss_manages
