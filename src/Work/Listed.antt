-- ===== src/Work/Listed.antt =====
-- In which order `WorkService.list` shows which Actions.
use btx_omni_prospect.Prelude.{
  ℕ, ◌≤◌, Bool, true, false, ◌&&◌, Option, none, some, List, [], ◌∷◌, ◌≡◌, refl, ◌∙◌, arith, any,
  any-select, select, nat_eq, string_eq, inl, inr, Option-cases,
}
use btx_omni_prospect.Prelude.Result.{ok, err}
use btx_omni_prospect.Prelude.Sorting.{Ordered, sorted-Ordered, any-sorted}
use btx_omni_prospect.Work.Domain.{Action, Principal}
use btx_omni_prospect.Work.Repository.{Repository, list_items}
use btx_omni_prospect.Work.Policy.{require_manage}
use btx_omni_prospect.Work.Listing.{action_le, in_scope, list_actions}

-- The Action a may stand before b: it is due if b is, and then not later; and of two with the same due
-- date, or with none, it was not created later.
pub record Precedes (a b : Action) : Type 0 where
  pub due : (e : ℕ) → b.due_date ≡ some e → (d : ℕ) × (a.due_date ≡ some d) × (d ≤ e)
  pub created : a.due_date ≡ b.due_date → a.created_at.instant ≤ b.created_at.instant

Precedes-trans : (a b c : Action) → Precedes a b → Precedes b c → Precedes a c
Precedes-trans a b c h k = record {
  due = λ e q.
      let (m, dated, mid) = k.due e q in
      let (d, first, low) = h.due m dated in (d, first, omega (arith, low, mid));
  created = λ q. elim (Option-cases c.due_date) [
    | inl undated ↦ elim (Option-cases b.due_date) [
      | inl both ↦ omega (arith, h.created (ground arith), k.created (ground arith))
      | inr (m, dated) ↦ ground (arith, h.due m dated)
    ]
    | inr (e, dated) ↦
        let (m, mid, high) = k.due e dated in
        let (d, first, low) = h.due m mid in
        omega (arith, h.created (ground arith), k.created (ground arith))
  ];
}

le-Precedes : (a b : Action) → action_le a b ≡ true → Precedes a b
unfolding action_le
le-Precedes a b h = record {
  due = λ e q. elim (Option-cases a.due_date) [
    | inl undated ↦ (0, ground arith, ground arith)
    | inr (d, dated) ↦ (d, dated, ground arith)
  ];
  created = λ same. elim (Option-cases a.due_date) [
    | inl undated ↦ ground arith
    | inr (d, dated) ↦ ground arith
  ];
}

back-Precedes : (a b : Action) → action_le a b ≡ false → Precedes b a
unfolding action_le
back-Precedes a b h = record {
  due = λ e q. elim (Option-cases b.due_date) [
    | inl undated ↦ (0, ground arith, ground arith)
    | inr (d, dated) ↦ (d, dated, ground arith)
  ];
  created = λ same. elim (Option-cases a.due_date) [
    | inl undated ↦ ground arith
    | inr (d, dated) ↦ ground arith
  ];
}

-- The guard of the requests that change an Action lets the principal pass; without a principal there is
-- no guard.
abbrev pub permits : Option Principal → Action → Bool
permits none a = true
permits (some p) a = elim (require_manage p a) [ ok _ ↦ true | err _ ↦ false ]

permits-eq : (p : Option Principal) (a : Action) → in_scope p a ≡ permits p a
unfolding in_scope require_manage
permits-eq none a = refl
permits-eq (some p) a = ground arith

any-permits :
    (p : Option Principal) (q : Action → Bool) (xs : List Action)
    → any (λ a. in_scope p a && q a) xs ≡ any (λ a. permits p a && q a) xs
any-permits p q [] = refl
any-permits p q (x ∷ xs) = ground (arith, any-permits p q xs, permits-eq p x)

-- The list shows what is due before what is not, by the due date, and Actions with the same due date,
-- or with none, by the time of their creation. It shows an Action with some property exactly when
-- such an Action is stored that the guard of the changes permits to the principal.
pub list_actions-IsListed :
    (p : Option Principal) (r : Repository)
    → Ordered Precedes (list_actions p r)
      × ((q : Action → Bool)
          → any q (list_actions p r) ≡ any (λ a. permits p a && q a) (list_items r))
unfolding list_actions
list_actions-IsListed p r = (
  sorted-Ordered action_le Precedes le-Precedes back-Precedes Precedes-trans
      (select (in_scope p) (list_items r)),
  λ q.
      any-sorted action_le q (select (in_scope p) (list_items r))
      ∙ any-select q (in_scope p) (list_items r)
      ∙ any-permits p q (list_items r),
)
