-- ===== src/Orchestration/Apply.antt =====
-- The fields that a transition writes into a case or a task, and the validation of the documents when
-- they are saved, services/case-service/src/models/Case.js and ApprovalTask.js.
use Prim.Native.String.{◌++◌ as text_append}
use udyog_setu.Common.{
  ℕ, String, Option, none, some, Bool, true, false, not, ◌&&◌, List, [], ◌∷◌, ◌++◌, any, includes,
  is_empty, is_some, truthy, if◌then◌else◌,
}
use udyog_setu.Vocabulary.CaseStatuses.{CaseStatus}
use udyog_setu.Vocabulary.CaseStatuses
use udyog_setu.Vocabulary.TaskStatuses.{TaskStatus}
use udyog_setu.Vocabulary.TaskStatuses
use udyog_setu.Vocabulary.Departments
use udyog_setu.Workflow.Documents.{
  Payload, Context, CaseDoc, CaseMetadata, Requirement, TaskDoc, TaskMetadata, Query, Decision,
}
use udyog_setu.Workflow.Guards.{is_open}

-- `context.actor?.id`.
abbrev pub actor_id : Context → Option ℕ
actor_id context = elim context.actor [ none ↦ none | some a ↦ a.id ]

-- `a || b`, of texts and of ids.
abbrev pub or_text : Option String → Option String → Option String
or_text a b = if truthy a then a else b

abbrev pub or_id : Option ℕ → Option ℕ → Option ℕ
or_id none b = b
or_id (some a) b = some a

abbrev text_or : Option String → String → String
text_or none d = d
text_or (some s) d = if truthy (some s) then s else d

unfoldable pub applied_metadata : ℕ → CaseStatus → Payload → CaseMetadata → CaseMetadata
applied_metadata now CaseStatus.amendment_requested payload m = record m {
  amendment_pending = some payload;
}
applied_metadata now CaseStatus.amended payload m = record m {
  last_amendment_applied_at = some now;
}
applied_metadata now _ payload m = m

unfoldable pub apply_case_transition : ℕ → CaseStatus → Payload → CaseDoc → CaseDoc
apply_case_transition now next payload c = record c {
  status = next;
  current_stage = next;
  last_activity_at = some now;
  submitted_at =
      if CaseStatuses.same next CaseStatus.submitted && not (is_some c.submitted_at)
      then some now
      else c.submitted_at;
  closed_at = if CaseStatuses.same next CaseStatus.closed then some now else c.closed_at;
  reopened_at = if CaseStatuses.same next CaseStatus.reopened then some now else c.reopened_at;
  metadata = applied_metadata now next payload c.metadata;
}

-- The last open query is answered, and no other.
unfoldable pub answer_last_open : Option ℕ → ℕ → List Query → List Query
answer_last_open by now [] = []
answer_last_open by now (q ∷ qs) =
    let rest = answer_last_open by now qs in
    if any is_open qs
    then q ∷ rest
    else if is_open q
    then record q { responded_by = by; responded_at = some now; status = "answered" } ∷ qs
    else q ∷ qs

unfoldable pub raised_query : ℕ → Payload → Context → Query
raised_query now payload context = record {
  message = text_or (or_text payload.message payload.reason) "Query raised";
  raised_by = actor_id context;
  raised_at = now;
  responded_by = none;
  responded_at = none;
  status = "open";
}

unfoldable pub decide : ℕ → TaskStatus → Payload → Context → Decision
decide now next payload context = record {
  outcome = next;
  reason = or_text payload.reason none;
  decided_by = actor_id context;
  decided_at = now;
}

unfoldable pub applied_task_metadata : ℕ → TaskStatus → Payload → TaskMetadata → TaskMetadata
applied_task_metadata now TaskStatus.response_received payload m = record m {
  last_response = some payload;
}
applied_task_metadata now TaskStatus.fee_paid payload m = record m {
  payment_reference = payload.payment_reference;
  payment_recorded_at = some now;
}
applied_task_metadata now TaskStatus.certificate_issued payload m = record m {
  certificate_number = or_text payload.certificate_number none;
  certificate_document_id = or_text payload.document_id none;
  certificate_issued_at = some now;
}
applied_task_metadata now _ payload m = m

abbrev pub completing : List TaskStatus
completing =
    TaskStatus.rejected ∷ TaskStatus.approved ∷ TaskStatus.certificate_issued ∷ TaskStatus.closed
    ∷ TaskStatus.cancelled ∷ []

unfoldable pub apply_task_transition : ℕ → TaskStatus → Payload → Context → TaskDoc → TaskDoc
apply_task_transition now next payload context t = record t {
  status = next;
  updated_by = actor_id context;
  correlation_id = context.correlation_id;
  assigned_officer_id =
      if TaskStatuses.same next TaskStatus.assigned
      then or_id payload.officer_id (or_id (actor_id context) t.assigned_officer_id)
      else t.assigned_officer_id;
  query_thread =
      if TaskStatuses.same next TaskStatus.query_raised
      then t.query_thread ++ raised_query now payload context ∷ []
      else if TaskStatuses.same next TaskStatus.response_received
      then answer_last_open (actor_id context) now t.query_thread
      else t.query_thread;
  decision =
      if TaskStatuses.one_of (TaskStatus.rejected ∷ TaskStatus.approved ∷ []) next
      then some (decide now next payload context)
      else t.decision;
  completed_at = if TaskStatuses.one_of completing next then some now else t.completed_at;
  metadata = applied_task_metadata now next payload t.metadata;
}

-- What the hooks of the schemas ask of a document that is saved.
unfoldable pub validate_case : CaseDoc → Bool
validate_case c =
    let submitted_or_later =
      not (CaseStatuses.one_of (CaseStatus.draft ∷ CaseStatus.withdrawn ∷ []) c.status) in
    not (submitted_or_later && is_empty c.required_departments)
    && not (submitted_or_later && not (is_some c.submitted_at))

unfoldable pub validate_task : TaskDoc → Bool
validate_task t =
    let assigned =
      not (TaskStatuses.one_of (TaskStatus.pending ∷ TaskStatus.cancelled ∷ []) t.status) in
    not (assigned && not (is_some t.due_at))

abbrev department_codes : List String
department_codes =
    Departments.pollution ∷ Departments.power ∷ Departments.fire ∷ Departments.industrial_safety
    ∷ Departments.labour ∷ []

abbrev task_types : List String
task_types =
    "consent" ∷ "power_connection" ∷ "fire_noc" ∷ "factory_license" ∷ "labour_registration"
    ∷ "inspection" ∷ "certificate" ∷ "other" ∷ []

-- What the schema asks of a new task besides.
unfoldable pub validate_new_task : TaskDoc → Bool
validate_new_task t =
    includes department_codes t.department_code
    && includes task_types t.task_type
    && includes ("low" ∷ "normal" ∷ "high" ∷ "critical" ∷ []) t.priority
    && truthy t.universal_case_id
    && validate_task t

-- A task that a case gets at its submission; it has neither decision nor query nor officer.
unfoldable pub build_task_from_requirement : ℕ → ℕ → CaseDoc → Requirement → Context → TaskDoc
build_task_from_requirement now id c requirement context = record {
  id = id;
  case_id = c.id;
  universal_case_id = c.universal_case_id;
  department_code = requirement.department_code;
  task_type = text_or requirement.required_approval_type "other";
  title = text_append requirement.department_code (text_append " review for " c.title);
  status = TaskStatus.pending;
  priority = text_or c.priority "normal";
  checklist = [];
  query_thread = [];
  assigned_officer_id = none;
  decision = none;
  due_at = c.due_at;
  warning_at = c.warning_at;
  created_at = now;
  completed_at = none;
  updated_by = actor_id context;
  correlation_id = context.correlation_id;
  metadata = record {
    is_mandatory = some (elim requirement.is_mandatory [ none ↦ true | some b ↦ b ]);
    required_documents = [];
    last_response = none;
    payment_reference = none;
    payment_recorded_at = none;
    certificate_number = none;
    certificate_document_id = none;
    certificate_issued_at = none;
  };
  is_deleted = false;
}
