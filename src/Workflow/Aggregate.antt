-- ===== src/Workflow/Aggregate.antt =====
-- services/orchestration-service/src/services/orchestration.service.js, `deriveAggregateCaseStatus`:
-- the status that a case takes from the statuses of its tasks.
use udyog_setu.Common.{Bool, not, ◌&&◌, List, [], ◌∷◌, keep, any, all, is_empty, if◌then◌else◌}
use udyog_setu.Vocabulary.CaseStatuses.{CaseStatus}
use udyog_setu.Vocabulary.CaseStatuses
use udyog_setu.Vocabulary.TaskStatuses.{TaskStatus}
use udyog_setu.Vocabulary.TaskStatuses
use udyog_setu.Workflow.Documents.{CaseDoc, TaskDoc}
use udyog_setu.Workflow.Guards.{
  all_mandatory_tasks_approved, any_mandatory_task_rejected, all_required_fees_paid,
  all_required_inspections_completed, all_required_certificates_issued, has_pending_inspection,
}

abbrev pub is_active : TaskDoc → Bool
is_active t = not (TaskStatuses.same t.status TaskStatus.cancelled)

abbrev pub has_query : TaskDoc → Bool
has_query t = TaskStatuses.same t.status TaskStatus.query_raised

abbrev pub has_fee_demand : TaskDoc → Bool
has_fee_demand t = TaskStatuses.same t.status TaskStatus.fee_demanded

-- The statuses from which a case goes on to scrutiny when no task says otherwise.
abbrev resumable : List CaseStatus
resumable =
    CaseStatus.submitted ∷ CaseStatus.reopened ∷ CaseStatus.response_submitted ∷ CaseStatus.fee_paid
    ∷ CaseStatus.amended ∷ []

-- The tests from the status of the fees on.
unfoldable pub derive_late : CaseStatus → List TaskDoc → CaseStatus
derive_late status tasks =
    if any has_fee_demand tasks
    then CaseStatus.fee_demanded
    else if all_required_certificates_issued tasks
    then CaseStatus.certificate_issued
    else if all_mandatory_tasks_approved tasks
    then CaseStatus.approved
    else if all_required_fees_paid tasks
        && CaseStatuses.one_of (CaseStatus.fee_demanded ∷ CaseStatus.fee_paid ∷ []) status
    then CaseStatus.fee_paid
    else if all (λ t. not (has_query t)) tasks && CaseStatuses.same status CaseStatus.query_raised
    then CaseStatus.under_scrutiny
    else if CaseStatuses.one_of resumable status
    then CaseStatus.under_scrutiny
    else status

unfoldable pub derive_active : CaseStatus → List TaskDoc → CaseStatus
derive_active status tasks =
    if any_mandatory_task_rejected tasks
    then CaseStatus.rejected
    else if any has_query tasks
    then CaseStatus.query_raised
    else if any has_pending_inspection tasks
    then CaseStatus.inspection_scheduled
    else if all_required_inspections_completed tasks
        && CaseStatuses.same status CaseStatus.inspection_scheduled
    then CaseStatus.inspection_completed
    else derive_late status tasks

unfoldable pub derive_aggregate_case_status : CaseDoc → List TaskDoc → CaseStatus
derive_aggregate_case_status c tasks =
    let active_tasks = keep is_active tasks in
    if is_empty active_tasks
    then if CaseStatuses.same c.status CaseStatus.submitted
      then CaseStatus.under_scrutiny
      else c.status
    else derive_active c.status active_tasks
