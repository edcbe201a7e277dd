-- ===== src/Tests/RequestTests.antt =====
-- The requests of the orchestration service at a world with one case, one task and one timer.
use udyog_setu.Common.{ℕ, some, none, List, [], ◌∷◌, ◌≡◌, ◌≢◌, refl, Option}
use udyog_setu.Vocabulary.CaseStatuses.{CaseStatus}
use udyog_setu.Vocabulary.TaskStatuses.{TaskStatus}
use udyog_setu.Vocabulary.TimerStatuses.{TimerStatus}
use udyog_setu.Store.{Collection, logged}
use udyog_setu.Workflow.Transition.{Transition}
use udyog_setu.Workflow.Documents.{CaseDoc, TaskDoc, Query}
use udyog_setu.Workflow.Errors.{Result, ok, err}
use udyog_setu.Workflow.TaskMachine.{get_task_transition}
use udyog_setu.Workflow.Dependencies.{get_blocking_dependencies, assert_dependencies_satisfied}
use udyog_setu.Workflow.Guards.{
  has_required_permission, can_actor_perform_transition, has_required_documents,
  ensure_reason_if_required, ensure_checklist, ensure_task_prerequisites,
  assert_task_transition_allowed, any_mandatory_task_rejected, all_required_inspections_completed,
  all_required_certificates_issued, all_mandatory_tasks_approved, all_required_fees_paid,
}
use udyog_setu.Workflow.Aggregate.{derive_aggregate_case_status, derive_active, derive_late}
use udyog_setu.Orchestration.Apply.{
  apply_case_transition, apply_task_transition, applied_task_metadata, validate_case, validate_task,
  raised_query,
}
use udyog_setu.Orchestration.World.{
  case_id, task_id, World, append_domain_event, create_transition_artifacts,
}
use udyog_setu.Orchestration.Requests.{
  Mode, direct, transactional, tasks_of, visible, transition_case, transition_task, move_task,
  settle, task_timer_step, report_task, recalculate_case_aggregate_status,
}
use udyog_setu.Orchestration.RequestLaws.{submission_never_succeeds}
use udyog_setu.Orchestration.EffectLaws.{transition_task-stores, transition_task-aggregates}
use udyog_setu.Tests.Samples.{request, request_body, case_at, task_at}
use udyog_setu.Tests.SlaTests.{Timers, store_of, valid_store}

abbrev Cases : Collection CaseDoc case_id
Cases = logged CaseDoc case_id

abbrev Tasks : Collection TaskDoc task_id
Tasks = logged TaskDoc task_id

abbrev world_at : CaseStatus → TaskStatus → World Cases Tasks Timers
world_at c t = record {
  cases = case_at c ∷ [];
  tasks = task_at t ∷ [];
  clocks = store_of TimerStatus.running;
  next_task_id = 8;
  audit = [];
}

abbrev reviewing : World Cases Tasks Timers
reviewing = world_at CaseStatus.under_scrutiny TaskStatus.under_review

abbrev result_or :
    World Cases Tasks Timers × TaskDoc
    → Result (World Cases Tasks Timers × TaskDoc)
    → World Cases Tasks Timers × TaskDoc
result_or d (ok r) = r
result_or d (err e) = d

abbrev rejected : Mode → World Cases Tasks Timers × TaskDoc
rejected mode =
    result_or (reviewing, task_at TaskStatus.under_review)
      (transition_task Cases Tasks Timers 80 mode 50 3 TaskStatus.rejected request_body request
        reviewing)

rejects :
    (mode : Mode)
    → transition_task Cases Tasks Timers 80 mode 50 3 TaskStatus.rejected request_body request
        reviewing
      ≡ ok (rejected mode)
unfolding transition_task assert_task_transition_allowed get_task_transition
    ensure_reason_if_required can_actor_perform_transition has_required_permission
    has_required_documents ensure_task_prerequisites ensure_checklist assert_dependencies_satisfied
    get_blocking_dependencies move_task settle task_timer_step report_task
    recalculate_case_aggregate_status validate_task validate_case apply_task_transition
    apply_case_transition derive_aggregate_case_status derive_active any_mandatory_task_rejected
    append_domain_event create_transition_artifacts applied_task_metadata
    all_required_inspections_completed derive_late all_required_certificates_issued
    all_mandatory_tasks_approved all_required_fees_paid
rejects direct = refl
rejects transactional = refl

transition_task-stores_example :
    (t : TaskDoc) × (e : Transition) × (Tasks.get 3 reviewing.tasks ≡ some t)
    × (get_task_transition t.status TaskStatus.rejected ≡ some e)
    × (Tasks.get 3 (rejected direct).0.tasks ≡ some (rejected direct).1)
    × ((rejected direct).1.status ≡ TaskStatus.rejected)
    × ((k : ℕ) → k ≢ 3 → Tasks.get k (rejected direct).0.tasks ≡ Tasks.get k reviewing.tasks)
transition_task-stores_example =
    transition_task-stores Cases Tasks Timers 80 direct 50 3 TaskStatus.rejected request_body
      request reviewing (rejected direct) (rejects direct)

transition_task-aggregates_example :
    (c d : CaseDoc) × (Cases.get (rejected transactional).1.case_id reviewing.cases ≡ some c)
    × (Cases.get (rejected transactional).1.case_id (rejected transactional).0.cases ≡ some d)
    × (d.status
        ≡ derive_aggregate_case_status c (
            tasks_of Cases Tasks Timers 80 c.id
              (visible Cases Tasks Timers 80 transactional reviewing (rejected transactional).0)))
transition_task-aggregates_example =
    transition_task-aggregates Cases Tasks Timers 80 transactional 50 3 TaskStatus.rejected
      request_body request reviewing (rejected transactional) (rejects transactional)

submission_never_succeeds_example :
    transition_case Cases Tasks Timers 80 50 7 CaseStatus.submitted request_body request
      (world_at CaseStatus.draft TaskStatus.pending)
    ≢ ok (world_at CaseStatus.submitted TaskStatus.pending, case_at CaseStatus.submitted)
submission_never_succeeds_example =
    submission_never_succeeds Cases Tasks Timers 80 50 7 request_body request
      (world_at CaseStatus.draft TaskStatus.pending)
      (world_at CaseStatus.submitted TaskStatus.pending, case_at CaseStatus.submitted) valid_store

abbrev thread : List Query
thread = raised_query 40 request_body request ∷ raised_query 50 request_body request ∷ []

abbrev entry_of : Option Transition → Transition → Transition
entry_of none d = d
entry_of (some t) d = t
