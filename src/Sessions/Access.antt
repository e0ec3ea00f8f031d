-- ===== src/Sessions/Access.antt =====
-- Who is let in, and for how long.
use btx_omni_prospect.Prelude.{
  ℕ, String, Bool, true, false, not, ◌||◌, ◌+◌, ◌≤◌, Option, none, some, List, [], ◌∷◌, ◌≡◌, refl,
  arith, ◌==◌, string_eq, is_empty, if◌then◌else◌, ltb, inl, inr, Option-cases, eq_of_beq, ◌≢◌,
}
use btx_omni_prospect.Prelude.Dict.{lookup, lookup-insert, lookup-without}
use btx_omni_prospect.Work.Domain.{Principal, salesperson, is_manager}
use btx_omni_prospect.Sessions.Store.{
  Settings, Session, Sessions, Moment, server_principal, new_session, create, matches, identified,
  principal_of, exchange, create_sample_demo_salesperson, get, revoke, development,
}

-- What the users of the store do.
pub data Use : Type 0 where
  exchanges : Moment → (access_code : String) → Use
  demos : Moment → Use
  gets : Option String → (now : ℕ) → Use
  revokes : Option String → Use

unfoldable pub after : Settings → (String → String) → Use → Sessions → Sessions
after settings sha256 (exchanges m code) s = (exchange settings sha256 m code s).1
after settings sha256 (demos m) s = (create_sample_demo_salesperson settings m s).1
after settings sha256 (gets id now) s = (get id now s).1
after settings sha256 (revokes id) s = revoke id s

unfoldable pub after_all : Settings → (String → String) → List Use → Sessions → Sessions
after_all settings sha256 [] s = s
after_all settings sha256 (u ∷ us) s = after_all settings sha256 us (after settings sha256 u s)

-- The token of a session that a use may create.
abbrev pub fresh_token : Use → Option String
fresh_token (exchanges m code) = some m.session_token
fresh_token (demos m) = some m.session_token
fresh_token (gets id now) = none
fresh_token (revokes id) = none

abbrev pub NeverIssued : String → List Use → Type 0
NeverIssued id [] = Unit
NeverIssued id (u ∷ us) = (fresh_token u ≢ some id) × NeverIssued id us

absent_stays :
    (settings : Settings) (sha256 : String → String) (u : Use) (s : Sessions) (id : String)
    → fresh_token u ≢ some id
    → lookup id s ≡ none
    → lookup id (after settings sha256 u s) ≡ none
unfolding after exchange create create_sample_demo_salesperson get revoke new_session
absent_stays settings sha256 (exchanges m code) s id n h =
    elim (Option-cases (principal_of settings sha256 code)) [
      | inl g ↦ ground arith
      | inr (p, g) ↦ ground (
        arith,
        lookup-insert m.session_token id (new_session settings m p) s,
        string_eq.same_iff m.session_token id,
      )
    ]
absent_stays settings sha256 (demos m) s id n h =
    let p = server_principal settings "shared-access" "POC Salesperson" salesperson in
    ground (
      arith,
      lookup-insert m.session_token id (new_session settings m p) s,
      string_eq.same_iff m.session_token id,
    )
absent_stays settings sha256 (gets none now) s id n h = h
absent_stays settings sha256 (gets (some i) now) s id n h = ground (arith, lookup-without i id s)
absent_stays settings sha256 (revokes none) s id n h = h
absent_stays settings sha256 (revokes (some i)) s id n h = ground (arith, lookup-without i id s)

absent_stays_all :
    (settings : Settings) (sha256 : String → String) (us : List Use) (s : Sessions) (id : String)
    → NeverIssued id us
    → lookup id s ≡ none
    → lookup id (after_all settings sha256 us s) ≡ none
unfolding after_all
absent_stays_all settings sha256 [] s id n h = h
absent_stays_all settings sha256 (u ∷ us) s id n h =
    absent_stays_all settings sha256 us (after settings sha256 u s) id n.1
      (absent_stays settings sha256 u s id n.0 h)

revoked_absent :
    (id : String) (s : Sessions) → is_empty id ≡ false → lookup id (revoke (some id) s) ≡ none
unfolding revoke
revoked_absent id s e = ground (arith, lookup-without id id s, string_eq.same_iff id id)

get_absent :
    (id : String) (now : ℕ) (s : Sessions) → lookup id s ≡ none → (get (some id) now s).0 ≡ none
unfolding get
get_absent id now s h = ground arith

-- A session that was revoked is refused at any later time, whatever the store is used for in
-- between, as long as its token is not drawn again.
pub revoked_stays_out :
    (settings : Settings) (sha256 : String → String) (us : List Use) (s : Sessions) (id : String)
    (now : ℕ)
    → is_empty id ≡ false
    → NeverIssued id us
    → (get (some id) now (after_all settings sha256 us (revoke (some id) s))).0 ≡ none
revoked_stays_out settings sha256 us s id now e n =
    get_absent id now (after_all settings sha256 us (revoke (some id) s))
      (absent_stays_all settings sha256 us (revoke (some id) s) id n (revoked_absent id s e))

-- A session answers exactly before its expiry: right after an access code was exchanged, a lookup of
-- its token returns the session if the clock is before its expiry, which is at least a minute after
-- the exchange, and nothing from then on.
pub get-exchange :
    (settings : Settings) (sha256 : String → String) (m : Moment) (code : String) (s : Sessions)
    (now : ℕ) (session : Session)
    → is_empty m.session_token ≡ false
    → (exchange settings sha256 m code s).0 ≡ some session
    → ((get (some session.id) now (exchange settings sha256 m code s).1).0
        ≡ (if ltb now session.expires_at then some session else none))
      × (m.now + 60000000 ≤ session.expires_at)
unfolding exchange create get new_session
get-exchange settings sha256 m code s now session e h =
    elim (Option-cases (principal_of settings sha256 code)) [
      | inl g ↦ ground arith
      | inr (p, g) ↦
          let made = new_session settings m p in
          (
            ground (
              arith,
              lookup-insert m.session_token m.session_token made s,
              string_eq.same_iff m.session_token m.session_token,
            ),
            ground arith,
          )
    ]

identified_manager :
    (settings : Settings) (code : String) (users : List String) (seller boss : Bool) (p : Principal)
    → identified settings code users seller boss ≡ some p
    → is_manager p ≡ true
    → (boss ≡ true)
      × (seller ≡ false)
      × (users ≡ [])
      × ((development settings || not (code == "development-manager")) ≡ true)
unfolding identified server_principal
identified_manager settings code [] true true p h b = ground arith
identified_manager settings code [] true false p h b = ground arith
identified_manager settings code [] false true p h b = (refl, refl, refl, ground arith)
identified_manager settings code [] false false p h b = ground arith
identified_manager settings code (user ∷ users) true boss p h b = ground arith
identified_manager settings code (user ∷ users) false true p h b = ground arith
identified_manager settings code (user ∷ other ∷ users) false false p h b = ground arith
identified_manager settings code (user ∷ []) false false p h b = ground arith

-- An access code opens a manager's session only if it is the manager token and neither the seller
-- token nor the code of a configured user, and the token is not left at its default outside
-- development.
pub manager_code :
    (settings : Settings) (sha256 : String → String) (code : String) (p : Principal)
    → principal_of settings sha256 code ≡ some p
    → is_manager p ≡ true
    → (code ≡ settings.action_manager_token)
      × (code ≢ settings.action_salesperson_token)
      × (matches (sha256 code) settings.user_access_code_hashes ≡ [])
      × ((development settings || not (code == "development-manager")) ≡ true)
unfolding principal_of identified server_principal
manager_code settings sha256 code p h b =
    let users = matches (sha256 code) settings.user_access_code_hashes in
    let (is_boss, no_seller, no_user, gate) =
      identified_manager settings code users (code == settings.action_salesperson_token)
        (code == settings.action_manager_token) p h b in
    (
      eq_of_beq code settings.action_manager_token is_boss,
      λ same. ground (arith, string_eq.same_iff code settings.action_salesperson_token),
      no_user,
      gate,
    )
