-- ===== src/Communications/Listing.antt =====
-- `CommunicationService.list`.
use btx_omni_prospect.Prelude.{
  Bool, true, List, [], ◌∷◌, ◌≡◌, refl, subst, select, leb, ◌==◌, string_eq, if◌then◌else◌, inl,
  inr, Bool-cases, sym, arith,
}
use mathlib.Core.List.{Perm}
use mathlib.Core.List.Perm
use btx_omni_prospect.Prelude.Dict.{values}
use btx_omni_prospect.Prelude.Sorting.{sorted, insert, sorted-perm}
use btx_omni_prospect.Work.Domain.{Principal, is_manager}
use btx_omni_prospect.Communications.Drafts.{CommunicationDraft}
use btx_omni_prospect.Communications.Repository.{Repository}
use btx_omni_prospect.Communications.Service.{can_manage}

-- The last change first.
abbrev pub later : CommunicationDraft → CommunicationDraft → Bool
later a b = leb b.updated_at.instant a.updated_at.instant

-- `SqlCommunicationRepository.list`; of two drafts with the same time the database may give either
-- first.
unfoldable pub all_drafts : Repository → List CommunicationDraft
all_drafts r = sorted later (values r.drafts)

unfoldable pub list_drafts : Principal → Repository → List CommunicationDraft
list_drafts p r =
    if is_manager p then all_drafts r else select (λ d. d.created_by == p.user_id) (all_drafts r)

module _ (q : CommunicationDraft → Bool) where
  select-insert :
      (x : CommunicationDraft) (ys : List CommunicationDraft)
      → Perm (select q (insert later x ys)) (select q (x ∷ ys))
  unfolding insert
  select-insert x [] = Perm.rfl
  select-insert x (y ∷ ys) =
      let rest = select-insert x ys in
      elim (Bool-cases (later x y)) [
        | inl h ↦ rw h Perm.rfl
        | inr h ↦ elim (Bool-cases (q y)) [
          | inr n ↦ rw (h, n) rest
          | inl k ↦ elim (Bool-cases (q x)) [
            | inr n ↦ rw (h, k, n) (Perm.cons y (rw n at rest))
            | inl t ↦
                rw (h, k, t) (Perm.trans (Perm.cons y (rw t at rest)) (Perm.swap x y (select q ys)))
          ]
        ]
      ]

  select-sorted : (xs : List CommunicationDraft) → Perm (select q (sorted later xs)) (select q xs)
  unfolding sorted
  select-sorted [] = Perm.rfl
  select-sorted (x ∷ xs) = elim (Bool-cases (q x)) [
    | inl t ↦ Perm.trans (select-insert x (sorted later xs)) (rw t (Perm.cons x (select-sorted xs)))
    | inr n ↦ Perm.trans (select-insert x (sorted later xs)) (rw n (select-sorted xs))
  ]

select_all :
    (q : CommunicationDraft → Bool) (xs : List CommunicationDraft)
    → ((d : CommunicationDraft) → q d ≡ true)
    → select q xs ≡ xs
select_all q [] h = refl
select_all q (x ∷ xs) h = ground (arith, select_all q xs h, h x)

select_same :
    (p q : CommunicationDraft → Bool) (xs : List CommunicationDraft)
    → ((d : CommunicationDraft) → p d ≡ q d)
    → select p xs ≡ select q xs
select_same p q [] h = refl
select_same p q (x ∷ xs) h = ground (arith, select_same p q xs h, h x)

-- A principal lists exactly the stored drafts that it may manage, each once for each time that it is
-- stored.
pub list_drafts-perm :
    (p : Principal) (r : Repository)
    → Perm (list_drafts p r) (select (can_manage p) (values r.drafts))
unfolding list_drafts all_drafts
list_drafts-perm p r = elim (Bool-cases (is_manager p)) [
  | inl m ↦
      subst (λ xs. Perm (list_drafts p r) xs)
        (sym (select_all (can_manage p) (values r.drafts) (λ d. unfold can_manage in ground arith)))
        (rw m (sorted-perm later (values r.drafts)))
  | inr n ↦
      subst (λ xs. Perm (list_drafts p r) xs)
        (select_same (λ d. d.created_by == p.user_id) (can_manage p) (values r.drafts)
          (λ d. unfold can_manage in ground arith))
        (rw n (select-sorted (λ d. d.created_by == p.user_id) (values r.drafts)))
]
