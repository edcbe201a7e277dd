-- ===== src/Workflow/CaseMachine.antt =====
-- services/orchestration-service/src/state-machines/case-state-machine.js: the transitions of a case.
use udyog_setu.Common.{Option, none, some, true, [], ◌∷◌}
use udyog_setu.Vocabulary.EventNames
use udyog_setu.Vocabulary.Permissions
use udyog_setu.Vocabulary.CaseStatuses.{CaseStatus}
use udyog_setu.Vocabulary.TaskStatuses.{TaskStatus}
use udyog_setu.Workflow.Transition.{Transition, entry, SlaAction}

-- The entry of the table from one status to another; `none` where the table has no entry.
unfoldable pub get_case_transition : CaseStatus → CaseStatus → Option Transition
get_case_transition CaseStatus.draft CaseStatus.submitted =
    some (record (entry Permissions.case_submit EventNames.case_submitted) {
      sla_action = some SlaAction.start;
    })
get_case_transition CaseStatus.draft CaseStatus.withdrawn =
    some
      (record (entry Permissions.case_update EventNames.case_withdrawn) { reason_required = true })
get_case_transition CaseStatus.submitted CaseStatus.under_scrutiny =
    some (record (entry Permissions.task_update EventNames.case_scrutiny_started) {
      system_triggered = true;
    })
get_case_transition CaseStatus.submitted CaseStatus.withdrawn =
    some
      (record (entry Permissions.case_update EventNames.case_withdrawn) { reason_required = true })
get_case_transition CaseStatus.under_scrutiny CaseStatus.query_raised =
    some (record (entry Permissions.task_raise_query EventNames.case_query_raised) {
      sla_action = some SlaAction.pause;
      system_triggered = true;
      requires_any_task_status = some (TaskStatus.query_raised ∷ []);
    })
get_case_transition CaseStatus.under_scrutiny CaseStatus.inspection_scheduled =
    some (record (entry Permissions.inspection_schedule EventNames.case_inspection_scheduled) {
      system_triggered = true;
      requires_any_task_status =
          some (TaskStatus.inspection_required ∷ TaskStatus.inspection_scheduled ∷ []);
    })
get_case_transition CaseStatus.under_scrutiny CaseStatus.approved =
    some (record (entry Permissions.task_approve EventNames.case_approved) {
      system_triggered = true;
      requires_all_mandatory_tasks_status =
          some (TaskStatus.approved ∷ TaskStatus.certificate_issued ∷ TaskStatus.closed ∷ []);
    })
get_case_transition CaseStatus.under_scrutiny CaseStatus.rejected =
    some (record (entry Permissions.task_reject EventNames.case_rejected) {
      system_triggered = true;
      reason_required = true;
      requires_any_task_status = some (TaskStatus.rejected ∷ []);
    })
get_case_transition CaseStatus.under_scrutiny CaseStatus.amendment_requested =
    some (record (entry Permissions.case_update EventNames.case_amendment_requested) {
      reason_required = true;
    })
get_case_transition CaseStatus.under_scrutiny CaseStatus.fee_demanded =
    some (record (entry Permissions.fee_create_demand EventNames.case_fee_demanded) {
      system_triggered = true;
      requires_any_task_status = some (TaskStatus.fee_demanded ∷ []);
    })
get_case_transition CaseStatus.query_raised CaseStatus.response_submitted =
    some (record (entry Permissions.task_respond_query EventNames.case_response_submitted) {
      sla_action = some SlaAction.resume;
    })
get_case_transition CaseStatus.response_submitted CaseStatus.under_scrutiny =
    some (record (entry Permissions.task_update EventNames.case_scrutiny_started) {
      system_triggered = true;
    })
get_case_transition CaseStatus.inspection_scheduled CaseStatus.inspection_completed =
    some (record (entry Permissions.inspection_update EventNames.case_inspection_completed) {
      system_triggered = true;
      requires_all_mandatory_tasks_status = some (
          TaskStatus.inspection_completed ∷ TaskStatus.approved ∷ TaskStatus.rejected
          ∷ TaskStatus.fee_demanded ∷ TaskStatus.fee_paid ∷ TaskStatus.certificate_issued
          ∷ TaskStatus.closed ∷ []);
    })
get_case_transition CaseStatus.inspection_completed CaseStatus.fee_demanded =
    some (record (entry Permissions.fee_create_demand EventNames.case_fee_demanded) {
      system_triggered = true;
      requires_any_task_status = some (TaskStatus.fee_demanded ∷ []);
    })
get_case_transition CaseStatus.inspection_completed CaseStatus.approved =
    some (record (entry Permissions.task_approve EventNames.case_approved) {
      system_triggered = true;
      requires_all_mandatory_tasks_status =
          some (TaskStatus.approved ∷ TaskStatus.certificate_issued ∷ TaskStatus.closed ∷ []);
    })
get_case_transition CaseStatus.inspection_completed CaseStatus.rejected =
    some (record (entry Permissions.task_reject EventNames.case_rejected) {
      system_triggered = true;
      reason_required = true;
      requires_any_task_status = some (TaskStatus.rejected ∷ []);
    })
get_case_transition CaseStatus.fee_demanded CaseStatus.fee_paid =
    some (record (entry Permissions.fee_mark_paid EventNames.case_fee_paid) {
      system_triggered = true;
      requires_all_mandatory_tasks_status = some (
          TaskStatus.fee_paid ∷ TaskStatus.approved ∷ TaskStatus.certificate_issued
          ∷ TaskStatus.closed ∷ []);
    })
get_case_transition CaseStatus.fee_paid CaseStatus.under_scrutiny =
    some (record (entry Permissions.task_update EventNames.case_scrutiny_started) {
      system_triggered = true;
    })
get_case_transition CaseStatus.approved CaseStatus.certificate_issued =
    some (record (entry Permissions.certificate_issue EventNames.case_certificate_issued) {
      system_triggered = true;
      requires_all_mandatory_tasks_status =
          some (TaskStatus.certificate_issued ∷ TaskStatus.closed ∷ []);
    })
get_case_transition CaseStatus.certificate_issued CaseStatus.closed =
    some (record (entry Permissions.case_update EventNames.case_closed) {
      sla_action = some SlaAction.complete;
      system_triggered = true;
      reason_required = true;
    })
get_case_transition CaseStatus.rejected CaseStatus.reopened =
    some
      (record (entry Permissions.case_update EventNames.case_reopened) { reason_required = true })
get_case_transition CaseStatus.closed CaseStatus.reopened =
    some
      (record (entry Permissions.case_update EventNames.case_reopened) { reason_required = true })
get_case_transition CaseStatus.reopened CaseStatus.under_scrutiny =
    some (record (entry Permissions.task_update EventNames.case_scrutiny_started) {
      system_triggered = true;
    })
get_case_transition CaseStatus.amendment_requested CaseStatus.amended =
    some (record (entry Permissions.case_update EventNames.case_amended) { reason_required = true })
get_case_transition CaseStatus.amended CaseStatus.under_scrutiny =
    some (record (entry Permissions.task_update EventNames.case_scrutiny_started) {
      system_triggered = true;
    })
get_case_transition _ _ = none
