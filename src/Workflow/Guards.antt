-- ===== src/Workflow/Guards.antt =====
-- services/orchestration-service/src/guards/transition-guards.js: who may make a transition, and
-- what it needs.
use udyog_setu.Common.{
  String, Option, none, some, Bool, true, false, not, ◌&&◌, ◌||◌, List, [], ◌∷◌, keep, first, any,
  all, includes, is_empty, truthy, if◌then◌else◌, str_eq,
}
use udyog_setu.Vocabulary.CaseStatuses.{CaseStatus}
use udyog_setu.Vocabulary.CaseStatuses
use udyog_setu.Vocabulary.TaskStatuses.{TaskStatus}
use udyog_setu.Vocabulary.TaskStatuses
use udyog_setu.Vocabulary.Permissions
use udyog_setu.Vocabulary.Roles
use udyog_setu.Workflow.Transition.{Transition}
use udyog_setu.Workflow.CaseMachine.{get_case_transition}
use udyog_setu.Workflow.TaskMachine.{get_task_transition}
use udyog_setu.Workflow.Dependencies.{assert_dependencies_satisfied}
use udyog_setu.Workflow.Documents.{Actor, Context, Payload, CaseDoc, TaskDoc, ChecklistItem, Query}
use udyog_setu.Workflow.Errors.{
  Result, ok, err, ◌>>=◌, ◌>>◌, invalid_transition, closed_case, immutable_task, reason_missing,
  actor_not_allowed, documents_missing, checklist_incomplete, payment_reference_missing,
  certificate_reference_missing,
}

-- `actor.primaryRole === role`.
abbrev pub is_primary : Actor → String → Bool
is_primary a role = elim a.primary_role [ none ↦ false | some r ↦ str_eq r role ]

abbrev pub has_role : Actor → String → Bool
has_role a role = includes a.roles role || is_primary a role

unfoldable pub has_required_permission : Option Actor → String → Bool
has_required_permission none permission = str_eq permission ""
has_required_permission (some a) permission =
    str_eq permission ""
    || has_role a Roles.admin
    || has_role a Roles.system
    || includes a.permissions permission

abbrev pub is_system : Option Actor → Bool
is_system none = false
is_system (some a) = is_primary a Roles.system

unfoldable pub can_actor_perform_transition : Option Actor → Transition → Context → Bool
can_actor_perform_transition actor t context =
    if context.override
    then has_required_permission actor Permissions.case_update
    else if t.system_triggered
    then has_required_permission actor t.permission || is_system actor
    else has_required_permission actor t.permission

abbrev pub is_case_mutable : CaseDoc → Bool
is_case_mutable c = not (CaseStatuses.same c.status CaseStatus.closed)

abbrev pub is_task_mutable : TaskDoc → Bool
is_task_mutable t =
    not (TaskStatuses.one_of (TaskStatus.closed ∷ TaskStatus.cancelled ∷ []) t.status)

-- Only the value `false` makes a task optional.
abbrev pub is_mandatory_task : TaskDoc → Bool
is_mandatory_task t = elim t.metadata.is_mandatory [ none ↦ true | some b ↦ b ]

abbrev pub is_open : Query → Bool
is_open q = str_eq q.status "open"

unfoldable pub has_open_query : TaskDoc → Bool
has_open_query t = TaskStatuses.same t.status TaskStatus.query_raised || any is_open t.query_thread

unfoldable pub has_unpaid_fee : TaskDoc → Bool
has_unpaid_fee t = TaskStatuses.same t.status TaskStatus.fee_demanded

abbrev pub has_pending_inspection : TaskDoc → Bool
has_pending_inspection t =
    TaskStatuses.one_of (TaskStatus.inspection_required ∷ TaskStatus.inspection_scheduled ∷ [])
      t.status

abbrev available_documents : Option CaseDoc → List String
available_documents none = []
available_documents (some c) = c.metadata.document_types

unfoldable pub has_required_documents : Option CaseDoc → TaskDoc → Bool
has_required_documents c t =
    let required = t.metadata.required_documents in
    is_empty required || all (includes (available_documents c)) required

abbrev pub is_settled : TaskDoc → Bool
is_settled t =
    TaskStatuses.one_of
      (TaskStatus.approved ∷ TaskStatus.certificate_issued ∷ TaskStatus.closed ∷ []) t.status

unfoldable pub all_mandatory_tasks_approved : List TaskDoc → Bool
all_mandatory_tasks_approved tasks =
    let mandatory_tasks = keep is_mandatory_task tasks in
    not (is_empty mandatory_tasks) && all is_settled mandatory_tasks

unfoldable pub any_mandatory_task_rejected : List TaskDoc → Bool
any_mandatory_task_rejected =
    any (λ t. is_mandatory_task t && TaskStatuses.same t.status TaskStatus.rejected)

abbrev pub has_fee_stage : TaskDoc → Bool
has_fee_stage t =
    TaskStatuses.one_of
      (TaskStatus.fee_demanded ∷ TaskStatus.fee_paid ∷ TaskStatus.approved
        ∷ TaskStatus.certificate_issued ∷ TaskStatus.closed ∷ [])
      t.status

unfoldable pub all_required_fees_paid : List TaskDoc → Bool
all_required_fees_paid tasks =
    let fee_tasks = keep has_fee_stage tasks in
    not (is_empty fee_tasks)
    && all (λ t. not (TaskStatuses.same t.status TaskStatus.fee_demanded)) fee_tasks

abbrev pub has_inspection_stage : TaskDoc → Bool
has_inspection_stage t =
    TaskStatuses.one_of
      (TaskStatus.inspection_required ∷ TaskStatus.inspection_scheduled
        ∷ TaskStatus.inspection_completed ∷ TaskStatus.approved ∷ TaskStatus.rejected
        ∷ TaskStatus.closed ∷ [])
      t.status

unfoldable pub all_required_inspections_completed : List TaskDoc → Bool
all_required_inspections_completed tasks =
    let inspection_tasks = keep has_inspection_stage tasks in
    not (is_empty inspection_tasks) && all (λ t. not (has_pending_inspection t)) inspection_tasks

abbrev pub has_certificate : TaskDoc → Bool
has_certificate t =
    TaskStatuses.one_of (TaskStatus.certificate_issued ∷ TaskStatus.closed ∷ []) t.status

unfoldable pub all_required_certificates_issued : List TaskDoc → Bool
all_required_certificates_issued tasks =
    let approved_tasks = keep is_settled tasks in
    not (is_empty approved_tasks) && all has_certificate approved_tasks

-- `context.payload?.field`.
abbrev pub payload_text : (Payload → Option String) → Context → Option String
payload_text field context = elim context.payload [ none ↦ none | some p ↦ field p ]

abbrev pub has_reason : Context → Bool
has_reason context =
    truthy context.reason
    || truthy (payload_text (λ p. p.reason) context)
    || truthy context.override_reason

unfoldable pub ensure_reason_if_required : Transition → Context → Result (Unit {0})
ensure_reason_if_required t context =
    if t.reason_required && not (has_reason context) then err reason_missing else ok tt

abbrev pub is_incomplete : ChecklistItem → Bool
is_incomplete item = item.required && not (str_eq item.status "completed")

unfoldable pub ensure_checklist : TaskDoc → TaskStatus → Result (Unit {0})
ensure_checklist t next =
    if TaskStatuses.same next TaskStatus.approved
    then elim (first is_incomplete t.checklist) [
      | none ↦ ok tt
      | some item ↦ err (checklist_incomplete item.code)
    ]
    else ok tt

unfoldable pub ensure_task_prerequisites : TaskDoc → TaskStatus → Context → Result (Unit {0})
ensure_task_prerequisites t next context = do
  ensure_checklist t next
  if TaskStatuses.same next TaskStatus.fee_paid
        && not (truthy (payload_text (λ p. p.payment_reference) context))
      then err payment_reference_missing
      else if TaskStatuses.same next TaskStatus.certificate_issued
          && not (truthy (payload_text (λ p. p.certificate_number) context))
          && not (truthy (payload_text (λ p. p.document_id) context))
      then err certificate_reference_missing
      else ok tt

-- The entry of the table, or the error that there is none.
abbrev or_invalid : Option Transition → Result Transition
or_invalid none = err invalid_transition
or_invalid (some t) = ok t

abbrev check : Bool → Result (Unit {0}) → Result (Unit {0})
check true failure = failure
check false failure = ok tt

unfoldable pub can_transition_case : Option CaseDoc → CaseStatus → Context → Bool
can_transition_case none next context = false
can_transition_case (some c) next context = elim (get_case_transition c.status next) [
  | none ↦ false
  | some t ↦
      if not (is_case_mutable c) && not (CaseStatuses.same next CaseStatus.reopened)
      then false
      else can_actor_perform_transition context.actor t context
]

unfoldable pub can_transition_task : Option TaskDoc → TaskStatus → Context → Bool
can_transition_task none next context = false
can_transition_task (some d) next context = elim (get_task_transition d.status next) [
  | none ↦ false
  | some t ↦
      if not (is_task_mutable d) && not (TaskStatuses.same next TaskStatus.closed)
      then false
      else can_actor_perform_transition context.actor t context
]

unfoldable pub assert_case_transition_allowed : CaseDoc → CaseStatus → Context → Result Transition
assert_case_transition_allowed c next context = do
  t ← or_invalid (get_case_transition c.status next)
  check (not (is_case_mutable c) && not (CaseStatuses.same next CaseStatus.reopened))
      (err closed_case)
  ensure_reason_if_required t context
  check (not (can_actor_perform_transition context.actor t context)) (err actor_not_allowed)
  ok t

unfoldable pub assert_task_transition_allowed :
    Option CaseDoc → TaskDoc → TaskStatus → Context → Result Transition
assert_task_transition_allowed c d next context = do
  t ← or_invalid (get_task_transition d.status next)
  check (not (is_task_mutable d) && not (TaskStatuses.same next TaskStatus.closed))
      (err immutable_task)
  ensure_reason_if_required t context
  check (not (can_actor_perform_transition context.actor t context)) (err actor_not_allowed)
  check (not (has_required_documents c d)) (err documents_missing)
  ensure_task_prerequisites d next context
  assert_dependencies_satisfied c d next
  ok t
