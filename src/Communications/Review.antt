-- ===== src/Communications/Review.antt =====
-- Review and delivery of drafts, over every sequence of requests.
use btx_omni_prospect.Prelude.{
  String, Bool, true, false, not, ◌&&◌, ◌||◌, ◌+◌, ◌≤◌, Option, none, some, ◌≡◌, refl, subst, arith,
  ◌==◌, string_eq, nat_eq, inl, inr, Option-cases, Bool-cases, option_eq, is_empty, strip,
}
use btx_omni_prospect.Prelude.Dict.{lookup, insert, lookup-insert}
use btx_omni_prospect.Prelude.Result.{Result, ok, err}
use btx_omni_prospect.Communications.Drafts.{
  draft, ready, sent, canceled, CommunicationDraft, CommunicationAuditEvent, CommunicationError,
  is_sent,
}
use btx_omni_prospect.Communications.Repository.{
  Repository, empty_repository, get, row, update_draft, append_audit,
}
use btx_omni_prospect.Communications.Service.{
  Outcome, keep, change, block, blocked, perform, on_draft, is_approved, has_recipient,
}

abbrev pub is_some {ℓ} : {A : Type ℓ} → Option A → Bool
is_some none = false
is_some (some a) = true

-- The review that a status stands for.
abbrev pub reviewed : CommunicationDraft → Bool
reviewed d = elim d.status [
  | draft ↦ not (is_approved d.approval_status)
  | ready ↦ is_approved d.approval_status
  | sent ↦ is_approved d.approval_status && has_recipient d.recipients
  | canceled ↦ false
]

pub record IsSound (d : CommunicationDraft) : Type 0 where
  pub version_pos : 1 ≤ d.version
  pub review : reviewed d ≡ true
  pub sent_once : is_some d.sent_at ≡ is_sent d.status
  pub created_aware : d.created_at.aware ≡ true
  pub texts : (is_empty (strip d.subject) || is_empty (strip d.body)) ≡ false

pub record IsValid (r : Repository) : Type 0 where
  pub sound : (id : String) (d : CommunicationDraft) → lookup id r.drafts ≡ some d → IsSound d
  pub own_id : (id : String) (d : CommunicationDraft) → lookup id r.drafts ≡ some d → d.id ≡ id

-- One draft was written, over none or over one that was not sent.
pub record Wrote (r s : Repository) : Type 0 where
  pub new : CommunicationDraft
  pub is_sound : IsSound new
  pub stored : s.drafts ≡ insert new.id new r.drafts
  pub over_unsent :
      (old : CommunicationDraft) → lookup new.id r.drafts ≡ some old → is_sent old.status ≡ false

pub data OneStep (r s : Repository) : Type 0 where
  same : s.drafts ≡ r.drafts → OneStep r s
  wrote : Wrote r s → OneStep r s

pub IsValid-empty : IsValid empty_repository
unfolding lookup
IsValid-empty = record { sound = λ id d h. ground arith; own_id = λ id d h. ground arith }

pub OneStep-IsValid : (r s : Repository) → IsValid r → OneStep r s → IsValid s
OneStep-IsValid r s v (same e) = record {
  sound = λ id d h. v.sound id d (ground arith);
  own_id = λ id d h. v.own_id id d (ground arith);
}
OneStep-IsValid r s v (wrote w) = record {
  sound = λ id d h.
      ground (arith, v.sound id d, lookup-insert w.new.id id w.new r.drafts, w.is_sound, w.stored);
  own_id = λ id d h. ground (
    arith,
    v.own_id id d,
    lookup-insert w.new.id id w.new r.drafts,
    w.stored,
    string_eq.same_iff w.new.id id,
  );
}

-- A plan that only ever changes a draft soundly, under its identifier, and not after it was sent.
abbrev pub PlanSound : (CommunicationDraft → Result CommunicationError Outcome) → Type 0
PlanSound plan =
    (d u : CommunicationDraft) (e : CommunicationAuditEvent)
    → IsSound d
    → plan d ≡ ok (change u e)
    → (u.id ≡ d.id) × IsSound u × (is_sent d.status ≡ false)

pub row-IsSound : (d : CommunicationDraft) → IsSound d → IsSound (row d)
row-IsSound d s = record {
  version_pos = s.version_pos;
  review = s.review;
  sent_once = s.sent_once;
  created_aware = s.created_aware;
  texts = s.texts;
}

module _ (r : Repository) (v : IsValid r) where
  updated-OneStep :
      (d u : CommunicationDraft) (e : CommunicationAuditEvent)
      → lookup d.id r.drafts ≡ some d
      → u.id ≡ d.id
      → IsSound u
      → is_sent d.status ≡ false
      → OneStep r (update_draft u e d.version r).1
  unfolding update_draft get
  updated-OneStep d u e g same_id s open_ = elim (Bool-cases (u.version == d.version + 1)) [
    | inl next ↦ wrote (record {
      new = row u;
      is_sound = row-IsSound u s;
      stored = ground arith;
      over_unsent = λ old h. ground arith;
    })
    | inr other ↦ same (ground arith)
  ]

  audited-same :
      (d : CommunicationDraft) (e : CommunicationAuditEvent) → (blocked d e r).1.drafts ≡ r.drafts
  unfolding blocked append_audit
  audited-same d e = ground arith

  performed-OneStep :
      (plan : CommunicationDraft → Result CommunicationError Outcome)
      → PlanSound plan
      → (d : CommunicationDraft) → lookup d.id r.drafts ≡ some d
      → (o : Result CommunicationError Outcome) → plan d ≡ o
      → OneStep r (perform d o r).1
  performed-OneStep plan p d g (err e) h = same refl
  performed-OneStep plan p d g (ok keep) h = same refl
  performed-OneStep plan p d g (ok (change u e)) h =
      let (same_id, s, open_) = p d u e (v.sound d.id d g) h in
      updated-OneStep d u e g same_id s open_
  performed-OneStep plan p d g (ok (block e)) h = same (audited-same d e)

  pub on_draft-OneStep :
      (plan : CommunicationDraft → Result CommunicationError Outcome)
      → PlanSound plan
      → (id : String) → OneStep r (on_draft id plan r).1
  unfolding on_draft get
  on_draft-OneStep plan p id = elim (Option-cases (lookup id r.drafts)) [
    | inl g ↦ same (ground arith)
    | inr (d, g) ↦
        subst (OneStep r) (ground arith)
          (performed-OneStep plan p d (ground (arith, v.own_id id d g)) (plan d) refl)
  ]
