-- ===== src/Communications/Creation.antt =====
-- `CommunicationService.create`.
use Prim.Native.String.{◌++◌, count as char_count}
use btx_omni_prospect.Prelude.{
  String, not, ◌&&◌, Option, none, some, List, [], ◌∷◌, ◌==◌, string_eq, nat_eq, option_eq,
  or_default, strip, DateTime, leb, if◌then◌else◌,
}
use btx_omni_prospect.Prelude.Json.{str, arr, items, strs, option_str}
use btx_omni_prospect.Prelude.Result.{Result, ok, err, raise_if, ◌>>=◌, ◌>>◌}
use btx_omni_prospect.Prelude.Exec.{Exec}
use btx_omni_prospect.Work.Domain.{pending, Principal}
use btx_omni_prospect.Communications.Drafts.{
  draft, CommunicationDraft, EventKind, created, CommunicationAuditEvent, CommunicationError,
  bad_retry_key, not_current_user, retry_differs, make_draft, make_event,
}
use btx_omni_prospect.Communications.Repository.{
  Repository, by_idempotency_key, history, insert_draft,
}
use btx_omni_prospect.Communications.Service.{Runtime}

pub record CreateArgs : Type 0 where
  pub account_id : String
  pub subject : String
  pub body : String
  pub recipients : List String
  pub principal : Principal
  pub occurred_at : DateTime
  pub trigger : Option String
  pub evidence_ids : List String
  pub idempotency_key : Option String
  -- the values of `uuid4`, for the request and for the draft
  pub fresh_key : String
  pub fresh_id : String

-- `_creation_fingerprint`
unfoldable pub creation_fingerprint :
    Runtime
    → (account_id subject body : String) → (recipients : List String) → (trigger : Option String)
    → (evidence_ids : List String) → String
creation_fingerprint rt account_id subject body recipients trigger evidence_ids =
    rt.sha256_hexdigest (
      rt.json_dumps_plain (
        arr (
          items (
            str account_id
            ∷ str (strip subject)
            ∷ str (strip body)
            ∷ arr (items (strs recipients))
            ∷ option_str trigger
            ∷ arr (items (strs evidence_ids))
            ∷ []))))

abbrev pub created_fingerprint : EventKind → Option String
created_fingerprint (created f) = some f
created_fingerprint _ = none

-- The fingerprint in the first CREATED event of a history.
abbrev pub first_fingerprint : List CommunicationAuditEvent → Option String
first_fingerprint [] = none
first_fingerprint (e ∷ es) =
    let rest = first_fingerprint es in
    elim (created_fingerprint e.event) [ none ↦ rest | some f ↦ some f ]

unfoldable pub original_fingerprint : Runtime → CommunicationDraft → Repository → String
original_fingerprint rt d r = elim (first_fingerprint (history d.id r)) [
  | some f ↦ f
  | none ↦
      creation_fingerprint rt d.account_id d.subject d.body d.recipients d.trigger d.evidence_ids
]

-- `_creation_replay`
unfoldable pub creation_replay :
    Runtime
    → CommunicationDraft
    → Principal
    → String
    → Repository
    → Result CommunicationError CommunicationDraft
creation_replay rt d p fingerprint r = do
  raise_if (not (d.created_by == p.user_id)) not_current_user
  raise_if (not (original_fingerprint rt d r == fingerprint)) retry_differs
  ok d

unfoldable pub request_key : CreateArgs → String
request_key c = or_default c.idempotency_key c.fresh_key

unfoldable pub creation_key : Runtime → CreateArgs → String
creation_key rt c =
    "comm-create-v2:"
    ++ rt.sha256_hexdigest
        (rt.json_dumps (arr (items (str c.principal.user_id ∷ str (request_key c) ∷ []))))

abbrev pub fingerprint_of : Runtime → CreateArgs → String
fingerprint_of rt c =
    creation_fingerprint rt c.account_id c.subject c.body c.recipients c.trigger c.evidence_ids

unfoldable pub new_draft : Runtime → CreateArgs → CommunicationDraft
new_draft rt c = record {
  id = c.fresh_id;
  account_id = c.account_id;
  subject = strip c.subject;
  body = strip c.body;
  recipients = c.recipients;
  created_by = c.principal.user_id;
  created_at = c.occurred_at;
  updated_at = c.occurred_at;
  approval_status = pending;
  status = draft;
  trigger = c.trigger;
  evidence_ids = c.evidence_ids;
  idempotency_key = some (creation_key rt c);
  sent_at = none;
  version = 1;
}

unfoldable pub creation_plan :
    Runtime → CreateArgs → Result CommunicationError (CommunicationDraft × CommunicationAuditEvent)
creation_plan rt c = do
  d ← make_draft (new_draft rt c)
  e ← make_event d.id c.principal.user_id (created (fingerprint_of rt c)) c.occurred_at
  ok (d, e)

-- What `create` does with the draft that the insert returns.
abbrev pub after_insert :
    Runtime
    → CreateArgs
    → Result CommunicationError CommunicationDraft × Repository
    → Result CommunicationError CommunicationDraft × Repository
after_insert rt c (err e, r) = (err e, r)
after_insert rt c (ok saved, r) = (creation_replay rt saved c.principal (fingerprint_of rt c) r, r)

unfoldable pub store_new :
    Runtime → CreateArgs → Exec Repository CommunicationError CommunicationDraft
store_new rt c r = elim (creation_plan rt c) [
  | err e ↦ (err e, r)
  | ok (d, e) ↦ after_insert rt c (insert_draft d e r)
]

-- The draft of an earlier request: under the caller's own key, or under the raw key where it is the
-- caller's.
unfoldable pub earlier_draft : Runtime → CreateArgs → Repository → Option CommunicationDraft
earlier_draft rt c r = elim (by_idempotency_key (creation_key rt c) r) [
  | some existing ↦ some existing
  | none ↦ elim (by_idempotency_key (request_key c) r) [
    | none ↦ none
    | some legacy ↦ if legacy.created_by == c.principal.user_id then some legacy else none
  ]
]

unfoldable pub create : Runtime → CreateArgs → Exec Repository CommunicationError CommunicationDraft
create rt c r =
    if leb 1 (char_count (request_key c)) && leb (char_count (request_key c)) 128
    then elim (earlier_draft rt c r) [
      | some d ↦ (creation_replay rt d c.principal (fingerprint_of rt c) r, r)
      | none ↦ store_new rt c r
    ]
    else (err bad_retry_key, r)
