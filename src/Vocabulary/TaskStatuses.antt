-- ===== src/Vocabulary/TaskStatuses.antt =====
-- packages/shared/src/constants/task-status.constants.js: the statuses of an approval task.
use udyog_setu.Common.{ℕ, Bool, true, List, [], ◌∷◌, ◌≡◌, arith, ◌==◌, any, all}

pub data TaskStatus : Type 0 where
  pending : TaskStatus
  assigned : TaskStatus
  under_review : TaskStatus
  query_raised : TaskStatus
  response_received : TaskStatus
  inspection_required : TaskStatus
  inspection_scheduled : TaskStatus
  inspection_completed : TaskStatus
  fee_demanded : TaskStatus
  fee_paid : TaskStatus
  approved : TaskStatus
  rejected : TaskStatus
  returned : TaskStatus
  certificate_issued : TaskStatus
  cancelled : TaskStatus
  closed : TaskStatus

-- The position in the enumeration, by which two statuses are compared.
abbrev pub index : TaskStatus → ℕ
index pending = 0
index assigned = 1
index under_review = 2
index query_raised = 3
index response_received = 4
index inspection_required = 5
index inspection_scheduled = 6
index inspection_completed = 7
index fee_demanded = 8
index fee_paid = 9
index approved = 10
index rejected = 11
index returned = 12
index certificate_issued = 13
index cancelled = 14
index closed = 15

-- `a === b`.
abbrev pub same : TaskStatus → TaskStatus → Bool
same a b = index a == index b

-- `[...].includes(s)`.
abbrev pub one_of : List TaskStatus → TaskStatus → Bool
one_of ts s = any (λ t. same t s) ts

-- All of them.
unfoldable pub task_status_values : List TaskStatus
task_status_values =
    pending ∷ assigned ∷ under_review ∷ query_raised ∷ response_received ∷ inspection_required
    ∷ inspection_scheduled ∷ inspection_completed ∷ fee_demanded ∷ fee_paid ∷ approved ∷ rejected
    ∷ returned ∷ certificate_issued ∷ cancelled ∷ closed ∷ []

-- What an evaluation finds for every listed status holds of any status.
pub task_status_values_complete :
    (p : TaskStatus → Bool) → all p task_status_values ≡ true → (s : TaskStatus) → p s ≡ true
unfolding task_status_values
task_status_values_complete p h pending = ground arith
task_status_values_complete p h _ = ground arith

pub same_sound : (a b : TaskStatus) → same a b ≡ true → a ≡ b
same_sound pending b h = ground arith
same_sound _ b h = ground arith
