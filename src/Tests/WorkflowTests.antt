-- ===== src/Tests/WorkflowTests.antt =====
-- The state machines and the aggregate status at concrete cases.
use udyog_setu.Common.{arith, none, List, [], ◌∷◌, ◌≡◌, inr, refl}
use udyog_setu.Vocabulary.CaseStatuses.{CaseStatus}
use udyog_setu.Vocabulary.TaskStatuses.{TaskStatus}
use udyog_setu.Workflow.CaseMachine.{get_case_transition}
use udyog_setu.Workflow.Documents.{TaskDoc}
use udyog_setu.Workflow.Guards.{any_mandatory_task_rejected}
use udyog_setu.Workflow.Aggregate.{derive_aggregate_case_status}
use udyog_setu.Workflow.AggregateLaws.{unanimous_approval_approves, rejection_overrides_final}
use udyog_setu.Tests.Samples.{case_at, task_at}

abbrev two_tasks : List TaskDoc
two_tasks = task_at TaskStatus.approved ∷ record (task_at TaskStatus.approved) { id = 5 } ∷ []

unanimous_approval_approves_example :
    derive_aggregate_case_status (case_at CaseStatus.under_scrutiny) two_tasks ≡ CaseStatus.approved
unanimous_approval_approves_example =
    unanimous_approval_approves (case_at CaseStatus.under_scrutiny) two_tasks (refl, (refl, tt))
      refl (λ h. ground (arith, h))

rejection_overrides_final_example :
    (derive_aggregate_case_status (case_at CaseStatus.closed) (task_at TaskStatus.rejected ∷ [])
      ≡ CaseStatus.rejected)
    × (get_case_transition CaseStatus.closed CaseStatus.rejected ≡ none)
unfolding any_mandatory_task_rejected
rejection_overrides_final_example =
    rejection_overrides_final (case_at CaseStatus.closed) (task_at TaskStatus.rejected ∷ [])
      (inr refl) refl
