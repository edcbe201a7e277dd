-- ===== src/Workflow/TaskGraph.antt =====
-- The graph of the task transitions.
use udyog_setu.Common.{some, Bool, true, false, ◌≡◌, refl, ◌≢◌, ◌⊎◌, arith}
use udyog_setu.Vocabulary.TaskStatuses.{TaskStatus}
use udyog_setu.Workflow.Transition.{Transition}
use udyog_setu.Workflow.TaskMachine.{get_task_transition}

-- A path of allowed transitions.
pub data TaskReach : TaskStatus → TaskStatus → Type 0 where
  here : {s : TaskStatus} → TaskReach s s
  next :
      {s u : TaskStatus} (t : TaskStatus) (e : Transition)
      → get_task_transition s t ≡ some e
      → TaskReach t u
      → TaskReach s u

step :
    {s u : TaskStatus} (t : TaskStatus) {e : Transition}
    → get_task_transition s t ≡ some e
    → TaskReach t u
    → TaskReach s u
step t {e} p r = next t e p r

from_review : TaskReach TaskStatus.under_review TaskStatus.closed
unfolding get_task_transition
from_review = step TaskStatus.rejected refl (step TaskStatus.closed refl here)

from_inspected : TaskReach TaskStatus.inspection_completed TaskStatus.closed
unfolding get_task_transition
from_inspected = step TaskStatus.under_review refl from_review

from_response : TaskReach TaskStatus.response_received TaskStatus.closed
unfolding get_task_transition
from_response = step TaskStatus.under_review refl from_review

-- Every status but `cancelled` has a path of allowed transitions to `closed`.
pub tasks_can_close : (s : TaskStatus) → s ≢ TaskStatus.cancelled → TaskReach s TaskStatus.closed
unfolding get_task_transition
tasks_can_close TaskStatus.pending h =
    step TaskStatus.assigned refl (step TaskStatus.under_review refl from_review)
tasks_can_close TaskStatus.assigned h = step TaskStatus.under_review refl from_review
tasks_can_close TaskStatus.under_review h = from_review
tasks_can_close TaskStatus.query_raised h = step TaskStatus.response_received refl from_response
tasks_can_close TaskStatus.response_received h = from_response
tasks_can_close TaskStatus.inspection_required h =
    step TaskStatus.inspection_scheduled refl
      (step TaskStatus.inspection_completed refl from_inspected)
tasks_can_close TaskStatus.inspection_scheduled h =
    step TaskStatus.inspection_completed refl from_inspected
tasks_can_close TaskStatus.inspection_completed h = from_inspected
tasks_can_close TaskStatus.fee_demanded h =
    step TaskStatus.fee_paid refl (step TaskStatus.under_review refl from_review)
tasks_can_close TaskStatus.fee_paid h = step TaskStatus.under_review refl from_review
tasks_can_close TaskStatus.approved h =
    step TaskStatus.certificate_issued refl (step TaskStatus.closed refl here)
tasks_can_close TaskStatus.rejected h = step TaskStatus.closed refl here
tasks_can_close TaskStatus.returned h = step TaskStatus.response_received refl from_response
tasks_can_close TaskStatus.certificate_issued h = step TaskStatus.closed refl here
tasks_can_close TaskStatus.cancelled h = absurd (h refl)
tasks_can_close TaskStatus.closed h = here

-- Paths from `approved` stay among these.
abbrev after_approval : TaskStatus → Bool
after_approval TaskStatus.approved = true
after_approval TaskStatus.certificate_issued = true
after_approval TaskStatus.closed = true
after_approval _ = false

stays_approved :
    (s t : TaskStatus) {e : Transition}
    → get_task_transition s t ≡ some e
    → after_approval s ≡ true
    → after_approval t ≡ true
unfolding get_task_transition
stays_approved TaskStatus.approved t p h = ground arith
stays_approved _ t p h = ground arith

path_stays_approved :
    {s t : TaskStatus} → TaskReach s t → after_approval s ≡ true → after_approval t ≡ true
path_stays_approved here h = h
path_stays_approved (next {s} t e p r) h = path_stays_approved r (stays_approved s t p h)

-- An approved task is never reviewed or rejected again: on every path of transitions it is approved,
-- has its certificate, or is closed.
pub approval_is_final :
    (t : TaskStatus)
    → TaskReach TaskStatus.approved t
    → (t ≡ TaskStatus.approved) ⊎ ((t ≡ TaskStatus.certificate_issued) ⊎ (t ≡ TaskStatus.closed))
approval_is_final t r = let h = path_stays_approved r refl in ground arith
