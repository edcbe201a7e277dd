-- ===== src/Tests/Samples.antt =====
-- Cases, tasks, timers and requests for the tests.
use udyog_setu.Common.{none, some, true, false, [], ◌∷◌}
use udyog_setu.Vocabulary.CaseStatuses.{CaseStatus}
use udyog_setu.Vocabulary.TaskStatuses.{TaskStatus}
use udyog_setu.Vocabulary.TimerStatuses.{TimerStatus}
use udyog_setu.Workflow.Documents.{Actor, Payload, Context, not_finite, CaseDoc, TaskDoc}
use udyog_setu.Sla.Timer.{Timer}

abbrev pub administrator : Actor
administrator = record {
  id = some 1;
  name = some "Asha";
  email = none;
  role = none;
  primary_role = some "admin";
  roles = [];
  permissions = [];
}

abbrev pub request_body : Payload
request_body = record {
  reason = some "checked";
  message = none;
  officer_id = none;
  payment_reference = some "PAY-7";
  certificate_number = some "CERT-3";
  document_id = none;
}

abbrev pub request : Context
request = record {
  actor = some administrator;
  user = none;
  override = false;
  override_reason = none;
  reason = some "checked";
  payload = some request_body;
  correlation_id = some "r-1";
}

abbrev pub case_at : CaseStatus → CaseDoc
case_at s = record {
  id = 7;
  universal_case_id = some "US360-7";
  title = "New mill";
  status = s;
  current_stage = s;
  priority = none;
  required_departments =
      record {
        department_code = "power";
        required_approval_type = some "power_connection";
        is_mandatory = none;
      }
      ∷ [];
  approval_tracks = [];
  due_at = some 900;
  warning_at = some 700;
  last_activity_at = none;
  submitted_at = some 10;
  closed_at = none;
  reopened_at = none;
  metadata = record {
    document_types = "layout_plan" ∷ [];
    factory_details_provided = true;
    caf_industrial_safety = true;
    caf_employee_count = not_finite;
    amendment_pending = none;
    last_amendment_applied_at = none;
  };
}

abbrev pub task_at : TaskStatus → TaskDoc
task_at s = record {
  id = 3;
  case_id = 7;
  universal_case_id = some "US360-7";
  department_code = "power";
  task_type = "power_connection";
  title = "power review for New mill";
  status = s;
  priority = "normal";
  checklist = [];
  query_thread = [];
  assigned_officer_id = none;
  decision = none;
  due_at = some 900;
  warning_at = some 700;
  created_at = 20;
  completed_at = none;
  updated_by = none;
  correlation_id = none;
  metadata = record {
    is_mandatory = some true;
    required_documents = [];
    last_response = none;
    payment_reference = none;
    payment_recorded_at = none;
    certificate_number = none;
    certificate_document_id = none;
    certificate_issued_at = none;
  };
  is_deleted = false;
}

abbrev pub timer_at : TimerStatus → Timer
timer_at s = record {
  id = 4;
  case_id = some 7;
  task_id = some 3;
  grievance_id = none;
  entity_type = none;
  universal_case_id = some "US360-7";
  department_code = some "power";
  timer_type = "approval";
  status = s;
  starts_at = 20;
  due_at = 900;
  warning_at = 700;
  paused_at = none;
  resumed_at = none;
  completed_at = none;
  breached_at = none;
  pause_history = [];
  escalation_level = 0;
  is_deleted = false;
}
