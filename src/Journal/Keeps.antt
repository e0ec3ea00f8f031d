-- ===== src/Journal/Keeps.antt =====
-- Each transaction on the rows of a run keeps what holds of them.
use btx_omni_prospect.Prelude.{
  ℕ, suc, ◌+◌, ◌≤◌, String, Bool, true, none, some, List, [], ◌∷◌, ◌≡◌, refl, ap, map, length,
  length-append, arith, if◌then◌else◌, nat_eq, ◌==◌, Bool-cases, inl, inr, Option-cases,
}
use btx_omni_prospect.Prelude.Result.{ok}
use btx_omni_prospect.Journal.Records.{
  StepStatus, Step, Entry, is_started, is_completed_step, is_running, count,
}
use btx_omni_prospect.Journal.Operations.{
  last_number, start_entry, finished_step, find_step, complete_found, complete_entry, finish_entry,
  publish_entry, Library, bounded,
}
use btx_omni_prospect.Journal.Sound.{
  IsNumbered, IsSound, count-any, last_number-length, IsNumbered-snoc, count-snoc,
}

pub start_entry-IsSound :
    (tool hash : String) (now max_steps : ℕ) (e f : Entry) (n : ℕ)
    → max_steps ≤ 12
    → is_running e.run.status ≡ true
    → IsSound e
    → start_entry tool hash now max_steps e ≡ ok (n, f)
    → IsSound f
unfolding start_entry
start_entry-IsSound tool hash now max_steps e f n b r s h =
    let new : Step = record {
      number = last_number e.steps + 1;
      tool = tool;
      arguments_hash = hash;
      status = StepStatus.started;
      started_at = now;
      completed_at = none;
      result = none;
    } in
    ground (
      arith,
      count-any e.steps,
      last_number-length e.steps s.numbered,
      IsNumbered-snoc 0 e.steps new s.numbered,
      count-snoc is_started e.steps new,
      count-snoc is_completed_step e.steps new,
      length-append e.steps (new ∷ []),
      s.attempts,
      s.budget,
      s.leased,
      s.timed,
      s.counted,
    )

module _ (failure : Bool) (n : ℕ) (encoded : String) (now : ℕ) where
  -- A number that the list has passed is not found again.
  same_beyond :
      (k : ℕ) (ss : List Step)
      → IsNumbered k ss
      → n ≤ k
      → map (finished_step failure n encoded now) ss ≡ ss
  unfolding finished_step
  same_beyond k [] h b = refl
  same_beyond k (s ∷ ss) h b =
      ground (arith, same_beyond (k + 1) ss h.1, nat_eq.same_iff s.number n)

  IsNumbered-finished :
      (k : ℕ) (ss : List Step)
      → IsNumbered k ss
      → IsNumbered k (map (finished_step failure n encoded now) ss)
  unfolding finished_step
  IsNumbered-finished k [] h = tt
  IsNumbered-finished k (s ∷ ss) h = (ground arith, IsNumbered-finished (k + 1) ss h.1)

  length-finished :
      (ss : List Step) → length (map (finished_step failure n encoded now) ss) ≡ length ss
  length-finished [] = refl
  length-finished (s ∷ ss) = ap suc (length-finished ss)

  -- Ending a call that was admitted takes it from the started ones.
  count-finished :
      (k : ℕ) (ss : List Step) (s : Step)
      → IsNumbered k ss
      → find_step n ss ≡ some s
      → is_started s.status ≡ true
      → (count is_started (map (finished_step failure n encoded now) ss) + 1 ≡ count is_started ss)
        × (count is_completed_step (map (finished_step failure n encoded now) ss)
            ≡ count is_completed_step ss + (if failure then 0 else 1))
  unfolding finished_step find_step
  count-finished k [] s h g t = ground arith
  count-finished k (x ∷ ss) s h g t = elim (Bool-cases (x.number == n)) [
    | inl there ↦ ground (arith, same_beyond (k + 1) ss h.1, nat_eq.same_iff x.number n)
    | inr not_there ↦ ground (arith, count-finished (k + 1) ss s h.1)
  ]

  complete_found-IsSound :
      (e f : Entry) (s : Step)
      → find_step n e.steps ≡ some s
      → IsSound e
      → complete_found failure n encoded now e s ≡ ok (tt, f)
      → IsSound f
  unfolding complete_found
  complete_found-IsSound e f s g v h = ground (
    arith,
    count-finished 0 e.steps s v.numbered g,
    IsNumbered-finished 0 e.steps v.numbered,
    length-finished e.steps,
    v.attempts,
    v.budget,
    v.leased,
    v.timed,
    v.counted,
    v.one_call,
  )

  pub complete_entry-IsSound :
      (e f : Entry) → IsSound e → complete_entry failure n encoded now e ≡ ok (tt, f) → IsSound f
  unfolding complete_entry
  complete_entry-IsSound e f v h = elim (Option-cases (find_step n e.steps)) [
    | inl g ↦ ground arith
    | inr (s, g) ↦ complete_found-IsSound e f s g v (ground arith)
  ]

pub finish_entry-IsSound :
    (encoded : String) (now : ℕ) (complete : Bool) (e f : Entry)
    → IsSound e
    → finish_entry encoded now complete e ≡ ok (tt, f)
    → IsSound f
unfolding finish_entry
finish_entry-IsSound encoded now complete e f v h =
    ground (arith, count-any e.steps, v.attempts, v.budget, v.counted, v.numbered)

pub publish_entry-IsSound :
    (l : Library) (outcome : String) (now : ℕ) (e f : Entry)
    → IsSound e
    → publish_entry l outcome now e ≡ ok (tt, f)
    → IsSound f
unfolding publish_entry bounded
publish_entry-IsSound l outcome now e f v h =
    ground (arith, v.attempts, v.budget, v.leased, v.timed, v.counted, v.one_call, v.numbered)
