-- ===== src/Work/Validity/Sound.antt =====
-- What holds of every stored Action.
use btx_omni_prospect.Prelude.{
  ◌≤◌, Bool, true, false, Option, none, some, ◌≡◌, any, strip, is_empty,
}
use btx_omni_prospect.Work.Domain.{ActionStatus, open_, in_progress, Action}
use btx_omni_prospect.Work.Transition.{is_completed, is_canceled, approval_cleared, is_open_subtask}
use btx_omni_prospect.Work.Subtasks.{is_some}

-- No previous status, or one of active work.
abbrev pub restorable : Option ActionStatus → Bool
restorable none = true
restorable (some open_) = true
restorable (some in_progress) = true
restorable (some _) = false

pub record IsSound (a : Action) : Type 0 where
  pub version_pos : 1 ≤ a.version
  pub created_aware : a.created_at.aware ≡ true
  pub titled : is_empty (strip a.title) ≡ false
  pub completed_at_iff : is_some a.completed_at ≡ is_completed a.status
  pub canceled_at_iff : is_some a.canceled_at ≡ is_canceled a.status
  pub previous_active : restorable a.previous_status ≡ true
  pub canceled_has_previous : is_canceled a.status ≡ true → is_some a.previous_status ≡ true
  pub completed_cleared : is_completed a.status ≡ true → approval_cleared a.approval_status ≡ true
  pub completed_closed : is_completed a.status ≡ true → any is_open_subtask a.subtasks ≡ false
