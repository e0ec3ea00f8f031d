-- ===== src/Communications/Repository.antt =====
-- `SqlCommunicationRepository`: the rows of the drafts by their identifier, and the audit log in
-- the order of its numbers. A draft reads back as it was written; the database is one that supports
-- `on conflict do nothing`.
use btx_omni_prospect.Prelude.{
  ℕ, String, ◌+◌, Option, none, some, List, [], ◌∷◌, ◌++◌, find, select, ◌==◌, string_eq, nat_eq,
  option_eq, or_default, if◌then◌else◌,
}
use btx_omni_prospect.Prelude.Dict.{lookup, insert, values}
use btx_omni_prospect.Prelude.Result.{ok, err}
use btx_omni_prospect.Prelude.Exec.{Exec}
use btx_omni_prospect.Communications.Drafts.{
  CommunicationDraft, CommunicationAuditEvent, CommunicationError, version_required, stale_version,
  stale_preview, conflicting_identity,
}

pub record Repository : Type 0 where
  pub drafts : List (String × CommunicationDraft)
  pub events : List CommunicationAuditEvent

abbrev pub empty_repository : Repository
empty_repository = record { drafts = []; events = [] }

unfoldable pub get : String → Repository → Option CommunicationDraft
get id r = lookup id r.drafts

unfoldable pub by_idempotency_key : String → Repository → Option CommunicationDraft
by_idempotency_key key r = find (λ d. d.idempotency_key == some key) (values r.drafts)

unfoldable pub history : String → Repository → List CommunicationAuditEvent
history id r = select (λ e. e.communication_id == id) r.events

-- The row of a draft: its key is `draft.idempotency_key or draft.id`.
abbrev pub row : CommunicationDraft → CommunicationDraft
row d = record d { idempotency_key = some (or_default d.idempotency_key d.id) }

-- Write the row and its audit event.
abbrev pub written : CommunicationDraft → CommunicationAuditEvent → Repository → Repository
written d e r = record { drafts = insert d.id (row d) r.drafts; events = r.events ++ e ∷ [] }

-- `save` of a CREATED event: an insert that gives way to a row with the same key.
unfoldable pub insert_draft :
    CommunicationDraft
    → CommunicationAuditEvent
    → Exec Repository CommunicationError CommunicationDraft
insert_draft d e r = elim (by_idempotency_key (or_default d.idempotency_key d.id) r) [
  | some winner ↦ (ok winner, r)
  | none ↦ elim (get d.id r) [
    | some other ↦ (err conflicting_identity, r)
    | none ↦ (ok d, written d e r)
  ]
]

-- `save` of any other event: an update of the row at the expected version.
unfoldable pub update_draft :
    CommunicationDraft
    → CommunicationAuditEvent
    → ℕ
    → Exec Repository CommunicationError CommunicationDraft
update_draft d e expected r =
    if d.version == expected + 1
    then elim (get d.id r) [
      | none ↦ (err stale_version, r)
      | some stored ↦
          if stored.version == expected then (ok d, written d e r) else (err stale_version, r)
    ]
    else (err version_required, r)

unfoldable pub append_audit :
    CommunicationDraft → CommunicationAuditEvent → Exec Repository CommunicationError (Unit {0})
append_audit d e r = elim (get d.id r) [
  | none ↦ (err stale_preview, r)
  | some stored ↦
      if stored.version == d.version
      then (ok tt, record r { events = r.events ++ e ∷ [] })
      else (err stale_preview, r)
]
