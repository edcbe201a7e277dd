-- ===== src/Workflow/AggregateLaws.antt =====
-- What the aggregate status of a case depends on, and what it shows of the tasks.
use udyog_setu.Common.{
  true, false, not, ◌&&◌, ◌≡◌, refl, ◌≢◌, ◌⊎◌, List, [], ◌∷◌, keep, any, all, is_empty, All, arith,
  none, Permᴰ, any-perm, all-perm, keep-perm, is_empty-perm,
}
use mathlib.Core.Bool.{false≢true}
use udyog_setu.Vocabulary.CaseStatuses.{CaseStatus}
use udyog_setu.Vocabulary.CaseStatuses
use udyog_setu.Vocabulary.TaskStatuses.{TaskStatus}
use udyog_setu.Vocabulary.TaskStatuses
use udyog_setu.Workflow.CaseMachine.{get_case_transition}
use udyog_setu.Workflow.Documents.{CaseDoc, TaskDoc}
use udyog_setu.Workflow.Guards.{
  all_mandatory_tasks_approved, any_mandatory_task_rejected, all_required_fees_paid,
  all_required_inspections_completed, all_required_certificates_issued, has_pending_inspection,
  is_mandatory_task, is_settled, has_certificate, has_fee_stage, has_inspection_stage,
}
use udyog_setu.Workflow.Aggregate.{
  is_active, has_query, has_fee_demand, derive_late, derive_active, derive_aggregate_case_status,
}

abbrev pub with_status : CaseDoc → CaseStatus → CaseDoc
with_status c s = record c { status = s }

late_settles :
    (s : CaseStatus) (tasks : List TaskDoc)
    → derive_late (derive_late s tasks) tasks ≡ derive_late s tasks
unfolding derive_late
late_settles CaseStatus.draft tasks = ground arith
late_settles _ tasks = ground arith

late-ne-scheduled :
    (s : CaseStatus) (tasks : List TaskDoc)
    → CaseStatuses.same s CaseStatus.inspection_scheduled ≡ false
    → CaseStatuses.same (derive_late s tasks) CaseStatus.inspection_scheduled ≡ false
unfolding derive_late
late-ne-scheduled CaseStatus.draft tasks h = ground arith
late-ne-scheduled _ tasks h = ground arith

active_settles :
    (s : CaseStatus) (tasks : List TaskDoc)
    → derive_active (derive_active (derive_active s tasks) tasks) tasks
      ≡ derive_active (derive_active s tasks) tasks
unfolding derive_active
active_settles s tasks = ground (
  arith,
  late_settles s tasks,
  late_settles CaseStatus.inspection_completed tasks,
  late-ne-scheduled s tasks,
  late-ne-scheduled (derive_late s tasks) tasks,
  late-ne-scheduled CaseStatus.inspection_completed tasks,
)

-- A second recalculation may move the case again, but a third changes nothing: the aggregate status is
-- settled after two, whatever the tasks are.
pub derive_settles :
    (c : CaseDoc) (tasks : List TaskDoc)
    → let derive = λ (s : CaseStatus). derive_aggregate_case_status (with_status c s) tasks in
      derive (derive (derive c.status)) ≡ derive (derive c.status)
unfolding derive_aggregate_case_status
derive_settles c tasks = ground (arith, active_settles c.status (keep is_active tasks))

-- The aggregate status is `approved` only if the case was approved already, or it has mandatory tasks and
-- all of them are approved, have their certificate or are closed, cancelled tasks aside.
pub approved_needs_all :
    (c : CaseDoc) (tasks : List TaskDoc)
    → derive_aggregate_case_status c tasks ≡ CaseStatus.approved
    → (c.status ≡ CaseStatus.approved)
      ⊎ (all_mandatory_tasks_approved (keep is_active tasks) ≡ true)
unfolding derive_aggregate_case_status derive_active derive_late
approved_needs_all c tasks h = ground arith

All-of-All :
    (tasks : List TaskDoc)
    → All (λ t. t.status ≡ TaskStatus.approved) tasks
    → (keep is_active tasks ≡ tasks)
      × (any_mandatory_task_rejected tasks ≡ false)
      × (any has_query tasks ≡ false)
      × (any has_pending_inspection tasks ≡ false)
      × (any has_fee_demand tasks ≡ false)
unfolding any_mandatory_task_rejected
All-of-All [] h = (refl, refl, refl, refl, refl)
All-of-All (t ∷ tasks) h = ground (arith, All-of-All tasks h.1)

late-perm :
    (s : CaseStatus) {xs ys : List TaskDoc} → Permᴰ xs ys → derive_late s xs ≡ derive_late s ys
unfolding derive_late all_mandatory_tasks_approved all_required_fees_paid
    all_required_certificates_issued
late-perm s h = ground (
  arith,
  any-perm has_fee_demand h,
  is_empty-perm (keep-perm is_settled h),
  all-perm has_certificate (keep-perm is_settled h),
  is_empty-perm (keep-perm is_mandatory_task h),
  all-perm is_settled (keep-perm is_mandatory_task h),
  is_empty-perm (keep-perm has_fee_stage h),
  all-perm (λ (t : TaskDoc). not (TaskStatuses.same t.status TaskStatus.fee_demanded))
      (keep-perm has_fee_stage h),
  all-perm (λ (t : TaskDoc). not (has_query t)) h,
)

active-perm :
    (s : CaseStatus) {xs ys : List TaskDoc} → Permᴰ xs ys → derive_active s xs ≡ derive_active s ys
unfolding derive_active any_mandatory_task_rejected all_required_inspections_completed
active-perm s h = ground (
  arith,
  any-perm (λ (t : TaskDoc). is_mandatory_task t && TaskStatuses.same t.status TaskStatus.rejected)
      h,
  any-perm has_query h,
  any-perm has_pending_inspection h,
  is_empty-perm (keep-perm has_inspection_stage h),
  all-perm (λ (t : TaskDoc). not (has_pending_inspection t)) (keep-perm has_inspection_stage h),
  late-perm s h,
)

-- The aggregate status does not depend on the order in which the database returns the tasks.
pub derive-perm :
    (c : CaseDoc) (xs ys : List TaskDoc)
    → Permᴰ xs ys
    → derive_aggregate_case_status c xs ≡ derive_aggregate_case_status c ys
unfolding derive_aggregate_case_status
derive-perm c xs ys h =
    ground
      (arith, is_empty-perm (keep-perm is_active h), active-perm c.status (keep-perm is_active h))

rejected_stays :
    (tasks : List TaskDoc)
    → any_mandatory_task_rejected tasks ≡ true
    → (is_empty (keep is_active tasks) ≡ false)
      × (any_mandatory_task_rejected (keep is_active tasks) ≡ true)
unfolding any_mandatory_task_rejected
rejected_stays [] h = absurd (false≢true h)
rejected_stays (t ∷ tasks) h = ground (arith, rejected_stays tasks)

-- For a withdrawn or closed case, one rejected mandatory task makes the derived aggregate status `rejected`,
-- to which the table has no transition from there.
pub rejection_overrides_final :
    (c : CaseDoc) (tasks : List TaskDoc)
    → (c.status ≡ CaseStatus.withdrawn) ⊎ (c.status ≡ CaseStatus.closed)
    → any_mandatory_task_rejected tasks ≡ true
    → (derive_aggregate_case_status c tasks ≡ CaseStatus.rejected)
      × (get_case_transition c.status CaseStatus.rejected ≡ none)
unfolding derive_aggregate_case_status derive_active get_case_transition
rejection_overrides_final c tasks final rejected =
    let (some_left, still) = rejected_stays tasks rejected in ground arith

abbrev IsApproved : List TaskDoc → Type 0
IsApproved = All (λ t. t.status ≡ TaskStatus.approved)

approved_settled :
    (tasks : List TaskDoc)
    → IsApproved tasks
    → (keep is_settled tasks ≡ tasks) × (all is_settled (keep is_mandatory_task tasks) ≡ true)
approved_settled [] h = (refl, refl)
approved_settled (t ∷ tasks) h = ground (arith, approved_settled tasks h.1)

approved_without_certificate :
    (tasks : List TaskDoc)
    → IsApproved tasks
    → is_empty tasks ≡ false
    → all has_certificate tasks ≡ false
approved_without_certificate [] h n = ground arith
approved_without_certificate (t ∷ tasks) h n = ground arith

mandatory_left :
    (tasks : List TaskDoc)
    → any is_mandatory_task tasks ≡ true
    → (is_empty tasks ≡ false) × (is_empty (keep is_mandatory_task tasks) ≡ false)
mandatory_left [] h = absurd (false≢true h)
mandatory_left (t ∷ tasks) h = ground (arith, mandatory_left tasks)

-- When every task is approved and one of them is mandatory, the status derived for a case is `approved`,
-- whatever status the case has but `inspection_scheduled`.
pub unanimous_approval_approves :
    (c : CaseDoc) (tasks : List TaskDoc)
    → All (λ t. t.status ≡ TaskStatus.approved) tasks
    → any is_mandatory_task tasks ≡ true
    → c.status ≢ CaseStatus.inspection_scheduled
    → derive_aggregate_case_status c tasks ≡ CaseStatus.approved
unfolding derive_aggregate_case_status derive_active derive_late all_mandatory_tasks_approved
    all_required_certificates_issued
unanimous_approval_approves c tasks approved mandatory elsewhere = ground (
  arith,
  All-of-All tasks approved,
  approved_settled tasks approved,
  approved_without_certificate tasks approved,
  mandatory_left tasks mandatory,
  CaseStatuses.same_sound c.status CaseStatus.inspection_scheduled,
)
