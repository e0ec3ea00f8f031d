-- ===== src/Proposals/Sound.antt =====
-- What the CRM events of one Action say, and that each operation keeps it.
use btx_omni_prospect.Prelude.{
  ◌≤◌, String, Bool, true, false, ◌&&◌, ◌||◌, Option, none, some, List, [], ◌∷◌, ◌++◌, ◌≡◌, refl,
  ◌∙◌, ap, length, length-append, any, all, find, select, select-append, ◌==◌, string_eq, nat_eq,
  option_eq, DateTime, arith, leb,
}
use btx_omni_prospect.Prelude.Result.{ok}
use btx_omni_prospect.Work.Domain.{Principal}
use btx_omni_prospect.Work.CrmRecords.{Proposal, Decision, Attempt}
use btx_omni_prospect.Work.Repository.{ActionAuditEvent, EventName, Metadata, make_event}
use btx_omni_prospect.Proposals.Log.{
  proposal_of, decision_of, attempt_of, gather, consed, proposals, decisions, attempts, decides_on,
  last, completes, is_crm,
}

-- The decision approves the attempt's proposal, and is the one that the attempt names.
abbrev pub approves : Attempt → Decision → Bool
approves t d =
    decides_on t.receipt.proposal_id d
    && (d.decision == "APPROVED" && d.decision_id == t.receipt.decision_id)

abbrev pub saves : String → Proposal → Bool
saves id p = p.proposal_id == id

-- The CRM events of one Action: at most 50 proposals and 50 attempts, each proposal saved once and
-- completed at most once, each attempt approved, each decision about a saved proposal.
pub record IsSound (ps : List Proposal) (ds : List Decision) (ts : List Attempt) : Type 0 where
  pub few_proposals : length ps ≤ 50
  pub few_attempts : length ts ≤ 50
  pub saved_once : (id : String) → length (select (saves id) ps) ≤ 1
  pub completed_once : (id : String) → length (select (completes id) ts) ≤ 1
  pub approved : all (λ t. any (approves t) ds) ts ≡ true
  pub about_saved : all (λ (d : Decision). any (saves d.proposal_id) ps) ds ≡ true

abbrev pub IsLog : List ActionAuditEvent → Type 0
IsLog es = IsSound (proposals es) (decisions es) (attempts es)

module _ {ℓ} {A : Type ℓ} where
  abbrev pub appended : List A → Option A → List A
  appended xs none = xs
  appended xs (some x) = xs ++ x ∷ []

  consed-appended :
      (o p : Option A) (xs : List A) → consed o (appended xs p) ≡ appended (consed o xs) p
  consed-appended none p xs = refl
  consed-appended (some x) none xs = refl
  consed-appended (some x) (some y) xs = refl

  pub gather-snoc :
      (f : EventName → Metadata → Option A) (es : List ActionAuditEvent) (e : ActionAuditEvent)
      → gather f (es ++ e ∷ []) ≡ appended (gather f es) (f e.event e.metadata)
  gather-snoc f [] e = consed-nil (f e.event e.metadata)
    where
      consed-nil : (o : Option A) → consed o [] ≡ appended [] o
      consed-nil none = refl
      consed-nil (some x) = refl
  gather-snoc f (d ∷ es) e =
      ap (consed (f d.event d.metadata)) (gather-snoc f es e)
      ∙ consed-appended (f d.event d.metadata) (f e.event e.metadata) (gather f es)

  pub any-snoc : (p : A → Bool) (xs : List A) (x : A) → any p (xs ++ x ∷ []) ≡ (any p xs || p x)
  any-snoc p [] x = ground arith
  any-snoc p (y ∷ ys) x = ground (arith, any-snoc p ys x)

  pub all-snoc : (p : A → Bool) (xs : List A) (x : A) → all p (xs ++ x ∷ []) ≡ (all p xs && p x)
  all-snoc p [] x = ground arith
  all-snoc p (y ∷ ys) x = ground (arith, all-snoc p ys x)

  pub all-weaken :
      (p q : A → Bool) (xs : List A)
      → ((x : A) → p x ≡ true → q x ≡ true)
      → all p xs ≡ true
      → all q xs ≡ true
  all-weaken p q [] w h = refl
  all-weaken p q (x ∷ xs) w h = ground (arith, w x, all-weaken p q xs w)

  pub find-none : (p : A → Bool) (xs : List A) → find p xs ≡ none → select p xs ≡ []
  find-none p [] h = refl
  find-none p (x ∷ xs) h = ground (arith, find-none p xs)

  pub find-any : (p : A → Bool) (xs : List A) (x : A) → find p xs ≡ some x → any p xs ≡ true
  find-any p (y ∷ ys) x h = ground (arith, find-any p ys x)
  find-any p [] x h = cc

  pub last-any :
      (p : A → Bool) (xs : List A) (x : A) → last xs ≡ some x → p x ≡ true → any p xs ≡ true
  last-any p [] x h y = cc
  last-any p (z ∷ zs) x h y = ground (arith, last-any p zs x)

  pub any-select : (p q : A → Bool) (xs : List A) → any q (select p xs) ≡ any (λ x. p x && q x) xs
  any-select p q [] = refl
  any-select p q (x ∷ xs) = ground (arith, any-select p q xs)

-- A new event about an Action, as `make_event` makes it.
abbrev pub event_of : String → Principal → EventName → DateTime → Metadata → ActionAuditEvent
event_of id p name now m = record {
  id = none;
  action_id = id;
  actor_id = p.user_id;
  event = name;
  occurred_at = now;
  metadata = m;
}

pub make_event-eq-ok :
    (id : String) (p : Principal) (name : EventName) (now : DateTime) (m : Metadata)
    (e : ActionAuditEvent)
    → make_event id p name now m ≡ ok e
    → event_of id p name now m ≡ e
unfolding make_event
make_event-eq-ok id p name now m e h = ground arith

module _ (ps : List Proposal) (ds : List Decision) (ts : List Attempt) (v : IsSound ps ds ts) where
  pub add_proposal :
      (p : Proposal)
      → find (saves p.proposal_id) ps ≡ none
      → leb 50 (length ps) ≡ false
      → IsSound (ps ++ p ∷ []) ds ts
  add_proposal p fresh room = record {
    few_proposals = ground (arith, length-append ps (p ∷ []));
    few_attempts = v.few_attempts;
    saved_once = λ id. ground (
      arith,
      select-append (saves id) ps (p ∷ []),
      length-append (select (saves id) ps) (select (saves id) (p ∷ [])),
      v.saved_once id,
      find-none (saves p.proposal_id) ps fresh,
      string_eq.same_iff p.proposal_id id,
    );
    completed_once = v.completed_once;
    approved = v.approved;
    about_saved =
        all-weaken _ _ ds (λ d h. ground (arith, any-snoc (saves d.proposal_id) ps p))
          v.about_saved;
  }

  pub add_decision :
      (d : Decision) (p : Proposal)
      → find (saves d.proposal_id) ps ≡ some p
      → IsSound ps (ds ++ d ∷ []) ts
  add_decision d p found = record {
    few_proposals = v.few_proposals;
    few_attempts = v.few_attempts;
    saved_once = v.saved_once;
    completed_once = v.completed_once;
    approved = all-weaken _ _ ts (λ t h. ground (arith, any-snoc (approves t) ds d)) v.approved;
    about_saved = ground (
      arith,
      all-snoc (λ (c : Decision). any (saves c.proposal_id) ps) ds d,
      find-any (saves d.proposal_id) ps p,
      v.about_saved,
    );
  }

  pub add_attempt :
      (t : Attempt) (d : Decision)
      → leb 50 (length ts) ≡ false
      → find (completes t.receipt.proposal_id) ts ≡ none
      → last (select (decides_on t.receipt.proposal_id) ds) ≡ some d
      → (d.decision == "APPROVED") ≡ true
      → (d.decision_id == t.receipt.decision_id) ≡ true
      → IsSound ps ds (ts ++ t ∷ [])
  add_attempt t d room fresh latest granted same =
      let pid = t.receipt.proposal_id in
      let grants : Decision → Bool =
        λ c. c.decision == "APPROVED" && c.decision_id == t.receipt.decision_id in
      record {
        few_proposals = v.few_proposals;
        few_attempts = ground (arith, length-append ts (t ∷ []));
        saved_once = v.saved_once;
        completed_once = λ id. ground (
          arith,
          select-append (completes id) ts (t ∷ []),
          length-append (select (completes id) ts) (select (completes id) (t ∷ [])),
          v.completed_once id,
          find-none (completes pid) ts fresh,
          string_eq.same_iff pid id,
        );
        approved = ground (
          arith,
          all-snoc (λ (c : Attempt). any (approves c) ds) ts t,
          last-any grants (select (decides_on pid) ds) d,
          any-select (decides_on pid) grants ds,
          v.approved,
        );
        about_saved = v.about_saved;
      }

module _ (es : List ActionAuditEvent) (v : IsLog es) (e : ActionAuditEvent) where
  pub IsLog-snoc :
      IsSound
        (appended (proposals es) (proposal_of e.event e.metadata))
        (appended (decisions es) (decision_of e.event e.metadata))
        (appended (attempts es) (attempt_of e.event e.metadata))
      → IsLog (es ++ e ∷ [])
  unfolding proposals decisions attempts
  IsLog-snoc h =
      rw (gather-snoc proposal_of es e, gather-snoc decision_of es e, gather-snoc attempt_of es e) h

  pub quiet-IsLog : is_crm e.event ≡ false → IsLog (es ++ e ∷ [])
  quiet-IsLog q =
      let p : proposal_of e.event e.metadata ≡ none = ground arith in
      let d : decision_of e.event e.metadata ≡ none = ground arith in
      let t : attempt_of e.event e.metadata ≡ none = ground arith in IsLog-snoc (rw (p, d, t) v)
