-- ===== src/Workflow/TaskMachine.antt =====
-- services/orchestration-service/src/state-machines/task-state-machine.js: the transitions of an approval task.
use udyog_setu.Common.{Option, none, some, true}
use udyog_setu.Vocabulary.EventNames
use udyog_setu.Vocabulary.Permissions
use udyog_setu.Vocabulary.TaskStatuses.{TaskStatus}
use udyog_setu.Workflow.Transition.{Transition, entry, SlaAction}

-- The entry of the table from one status to another; `none` where the table has no entry.
unfoldable pub get_task_transition : TaskStatus → TaskStatus → Option Transition
get_task_transition TaskStatus.pending TaskStatus.assigned =
    some (record (entry Permissions.task_assign EventNames.task_assigned) {
      sla_action = some SlaAction.start;
    })
get_task_transition TaskStatus.pending TaskStatus.cancelled =
    some (record (entry Permissions.task_update EventNames.task_status_changed) {
      reason_required = true;
    })
get_task_transition TaskStatus.assigned TaskStatus.under_review =
    some (entry Permissions.task_update EventNames.task_review_started)
get_task_transition TaskStatus.assigned TaskStatus.cancelled =
    some (record (entry Permissions.task_update EventNames.task_status_changed) {
      reason_required = true;
    })
get_task_transition TaskStatus.under_review TaskStatus.query_raised =
    some (record (entry Permissions.task_raise_query EventNames.task_query_raised) {
      sla_action = some SlaAction.pause;
    })
get_task_transition TaskStatus.under_review TaskStatus.inspection_required =
    some (entry Permissions.inspection_schedule EventNames.task_inspection_required)
get_task_transition TaskStatus.under_review TaskStatus.fee_demanded =
    some (entry Permissions.fee_create_demand EventNames.task_fee_demanded)
get_task_transition TaskStatus.under_review TaskStatus.approved =
    some (entry Permissions.task_approve EventNames.task_approved)
get_task_transition TaskStatus.under_review TaskStatus.rejected =
    some
      (record (entry Permissions.task_reject EventNames.task_rejected) { reason_required = true })
get_task_transition TaskStatus.under_review TaskStatus.returned =
    some
      (record (entry Permissions.task_update EventNames.task_returned) { reason_required = true })
get_task_transition TaskStatus.query_raised TaskStatus.response_received =
    some (record (entry Permissions.task_respond_query EventNames.task_response_submitted) {
      sla_action = some SlaAction.resume;
    })
get_task_transition TaskStatus.response_received TaskStatus.under_review =
    some (entry Permissions.task_update EventNames.task_review_started)
get_task_transition TaskStatus.inspection_required TaskStatus.inspection_scheduled =
    some (entry Permissions.inspection_schedule EventNames.task_inspection_scheduled)
get_task_transition TaskStatus.inspection_scheduled TaskStatus.inspection_completed =
    some (entry Permissions.inspection_update EventNames.task_inspection_completed)
get_task_transition TaskStatus.inspection_completed TaskStatus.under_review =
    some (entry Permissions.task_update EventNames.task_review_started)
get_task_transition TaskStatus.fee_demanded TaskStatus.fee_paid =
    some (entry Permissions.fee_mark_paid EventNames.task_fee_paid)
get_task_transition TaskStatus.fee_paid TaskStatus.under_review =
    some (entry Permissions.task_update EventNames.task_review_started)
get_task_transition TaskStatus.approved TaskStatus.certificate_issued =
    some (entry Permissions.certificate_issue EventNames.task_certificate_issued)
get_task_transition TaskStatus.certificate_issued TaskStatus.closed =
    some (entry Permissions.task_update EventNames.task_closed)
get_task_transition TaskStatus.rejected TaskStatus.closed =
    some (record (entry Permissions.task_update EventNames.task_closed) { reason_required = true })
get_task_transition TaskStatus.returned TaskStatus.response_received =
    some (record (entry Permissions.task_respond_query EventNames.task_response_submitted) {
      sla_action = some SlaAction.resume;
    })
get_task_transition _ _ = none
