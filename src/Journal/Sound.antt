-- ===== src/Journal/Sound.antt =====
-- What holds of the rows of every run, and that each transaction on them keeps it.
use btx_omni_prospect.Prelude.{
  ℕ, suc, ◌+◌, ◌≤◌, String, Bool, true, false, Option, none, some, List, [], ◌∷◌, ◌++◌, ◌≡◌, refl,
  ap, map, any, length, arith, if◌then◌else◌, nat_eq,
}
use btx_omni_prospect.Prelude.Result.{ok}
use btx_omni_prospect.Journal.Records.{
  StepStatus, Step, Entry, is_started, is_completed_step, is_running, count,
}
use btx_omni_prospect.Journal.Operations.{
  AcquireArgs, within_bounds, new_entry, interrupted, acquire_entry, last_number,
}

abbrev pub is_some {ℓ} : {A : Type ℓ} → Option A → Bool
is_some none = false
is_some (some a) = true

-- The steps are numbered from k + 1 on.
abbrev pub IsNumbered : ℕ → List Step → Type 0
IsNumbered k [] = Unit
IsNumbered k (s ∷ ss) = (s.number ≡ k + 1) × IsNumbered (k + 1) ss

pub record IsSound (e : Entry) : Type 0 where
  pub attempts : e.run.attempt_count ≤ 3
  pub budget : length e.steps ≤ 12
  pub leased : is_some e.run.lease_token ≡ is_running e.run.status
  pub timed : is_some e.run.lease_until ≡ is_running e.run.status
  pub one_call : count is_started e.steps ≤ (if is_running e.run.status then 1 else 0)
  pub counted : e.run.completed_steps ≡ count is_completed_step e.steps
  pub numbered : IsNumbered 0 e.steps

pub new_entry-IsSound : (a : AcquireArgs) → IsSound (new_entry a)
unfolding new_entry
new_entry-IsSound a = ground arith

pub count-any :
    (ss : List Step) → any (λ s. is_started s.status) ss ≡ false → count is_started ss ≡ 0
count-any [] h = refl
count-any (s ∷ ss) h = ground (arith, count-any ss)

module _ (now : ℕ) where
  started-interrupted : (ss : List Step) → count is_started (map (interrupted now) ss) ≡ 0
  unfolding interrupted
  started-interrupted [] = refl
  started-interrupted (s ∷ ss) = ground (arith, started-interrupted ss)

  completed-interrupted :
      (ss : List Step)
      → count is_completed_step (map (interrupted now) ss) ≡ count is_completed_step ss
  unfolding interrupted
  completed-interrupted [] = refl
  completed-interrupted (s ∷ ss) = ground (arith, completed-interrupted ss)

  length-interrupted : (ss : List Step) → length (map (interrupted now) ss) ≡ length ss
  length-interrupted [] = refl
  length-interrupted (s ∷ ss) = ap suc (length-interrupted ss)

  IsNumbered-interrupted :
      (k : ℕ) (ss : List Step) → IsNumbered k ss → IsNumbered k (map (interrupted now) ss)
  unfolding interrupted
  IsNumbered-interrupted k [] h = tt
  IsNumbered-interrupted k (s ∷ ss) h = (ground arith, IsNumbered-interrupted (k + 1) ss h.1)

pub acquire_entry-IsSound :
    (a : AcquireArgs) (e f : Entry) (t : Option String)
    → within_bounds a ≡ true
    → IsSound e
    → acquire_entry a e ≡ ok (t, f)
    → IsSound f
unfolding acquire_entry
acquire_entry-IsSound a e f t b s h = ground (
  arith,
  started-interrupted a.now.instant e.steps,
  completed-interrupted a.now.instant e.steps,
  length-interrupted a.now.instant e.steps,
  IsNumbered-interrupted a.now.instant 0 e.steps s.numbered,
)

-- A numbered list ends with its length.
last_number-eq :
    (k : ℕ) (s : Step) (ss : List Step)
    → IsNumbered k (s ∷ ss)
    → last_number (s ∷ ss) ≡ k + length (s ∷ ss)
unfolding last_number
last_number-eq k s [] h = omega arith
last_number-eq k s (t ∷ ts) h = omega (arith, last_number-eq (k + 1) t ts h.1)

pub last_number-length : (ss : List Step) → IsNumbered 0 ss → last_number ss ≡ length ss
unfolding last_number
last_number-length [] h = refl
last_number-length (s ∷ ss) h = unfold last_number in omega (arith, last_number-eq 0 s ss h)

pub IsNumbered-snoc :
    (k : ℕ) (ss : List Step) (s : Step)
    → IsNumbered k ss
    → s.number ≡ k + length ss + 1
    → IsNumbered k (ss ++ s ∷ [])
IsNumbered-snoc k [] s h n = (omega arith, tt)
IsNumbered-snoc k (t ∷ ts) s h n = (h.0, IsNumbered-snoc (k + 1) ts s h.1 (omega arith))

pub count-snoc :
    (p : StepStatus → Bool) (ss : List Step) (s : Step)
    → count p (ss ++ s ∷ []) ≡ count p ss + (if p s.status then 1 else 0)
count-snoc p [] s = ground arith
count-snoc p (t ∷ ts) s = ground (arith, count-snoc p ts s)
