-- ===== src/Tests/GuardTests.antt =====
-- The guards at concrete requests.
use udyog_setu.Common.{some, true, false, ◌&&◌, not, ◌≡◌, ◌↔◌, refl, if◌then◌else◌}
use udyog_setu.Vocabulary.CaseStatuses.{CaseStatus}
use udyog_setu.Vocabulary.TaskStatuses.{TaskStatus}
use udyog_setu.Vocabulary.EventNames
use udyog_setu.Vocabulary.Permissions
use udyog_setu.Workflow.Transition.{Transition, entry}
use udyog_setu.Workflow.CaseMachine.{get_case_transition}
use udyog_setu.Workflow.TaskMachine.{get_task_transition}
use udyog_setu.Workflow.Dependencies.{assert_dependencies_satisfied}
use udyog_setu.Workflow.Errors.{ok}
use udyog_setu.Workflow.Guards.{
  has_required_permission, can_actor_perform_transition, has_required_documents, has_reason,
  ensure_reason_if_required, ensure_task_prerequisites, assert_case_transition_allowed,
  assert_task_transition_allowed,
}
use udyog_setu.Workflow.GuardLaws.{
  assert_case_transition_allowed_iff, case_transition_needs_right, MayUse,
}
use udyog_setu.Workflow.TaskLaws.{assert_task_transition_allowed_iff}
use udyog_setu.Tests.Samples.{request, case_at, task_at}

abbrev scrutiny : Transition
scrutiny = record (entry Permissions.task_update EventNames.case_scrutiny_started) {
  system_triggered = true;
}

assert_case_transition_allowed_iff_example :
    (assert_case_transition_allowed (case_at CaseStatus.submitted) CaseStatus.under_scrutiny request
      ≡ ok scrutiny)
    ↔ ((get_case_transition CaseStatus.submitted CaseStatus.under_scrutiny ≡ some scrutiny)
        × ((scrutiny.reason_required && not (has_reason request)) ≡ false)
        × (can_actor_perform_transition request.actor scrutiny request ≡ true))
assert_case_transition_allowed_iff_example =
    assert_case_transition_allowed_iff (case_at CaseStatus.submitted) CaseStatus.under_scrutiny
      request scrutiny

case_transition_needs_right_example :
    MayUse request.actor (if request.override then Permissions.case_update else scrutiny.permission)
unfolding assert_case_transition_allowed get_case_transition ensure_reason_if_required
    can_actor_perform_transition has_required_permission
case_transition_needs_right_example =
    case_transition_needs_right (case_at CaseStatus.submitted) CaseStatus.under_scrutiny request
      scrutiny refl

abbrev certificate : Transition
certificate = entry Permissions.certificate_issue EventNames.task_certificate_issued

assert_task_transition_allowed_iff_example :
    (assert_task_transition_allowed
        (some (case_at CaseStatus.approved))
        (task_at TaskStatus.approved)
        TaskStatus.certificate_issued
        request
      ≡ ok certificate)
    ↔ ((get_task_transition TaskStatus.approved TaskStatus.certificate_issued ≡ some certificate)
        × ((certificate.reason_required && not (has_reason request)) ≡ false)
        × (can_actor_perform_transition request.actor certificate request ≡ true)
        × (has_required_documents (some (case_at CaseStatus.approved)) (task_at TaskStatus.approved)
            ≡ true)
        × (ensure_task_prerequisites
              (task_at TaskStatus.approved)
              TaskStatus.certificate_issued
              request
            ≡ ok tt)
        × (assert_dependencies_satisfied
              (some (case_at CaseStatus.approved))
              (task_at TaskStatus.approved)
              TaskStatus.certificate_issued
            ≡ ok tt))
assert_task_transition_allowed_iff_example =
    assert_task_transition_allowed_iff (some (case_at CaseStatus.approved))
      (task_at TaskStatus.approved) TaskStatus.certificate_issued request certificate
