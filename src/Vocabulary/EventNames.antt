-- ===== src/Vocabulary/EventNames.antt =====
-- packages/shared/src/constants/event-names.constants.js: the names of the case, task and SLA events.
use Prim.Native.String.{String}

abbrev pub case_draft_created : String
case_draft_created = "case.draft_created.v1"

abbrev pub case_submitted : String
case_submitted = "case.submitted.v1"

abbrev pub case_amended : String
case_amended = "case.amended.v1"

abbrev pub case_resubmitted : String
case_resubmitted = "case.resubmitted.v1"

abbrev pub case_status_changed : String
case_status_changed = "case.status_changed.v1"

abbrev pub case_closed : String
case_closed = "case.closed.v1"

abbrev pub case_reopened : String
case_reopened = "case.reopened.v1"

abbrev pub case_withdrawn : String
case_withdrawn = "case.withdrawn.v1"

abbrev pub case_scrutiny_started : String
case_scrutiny_started = "case.scrutiny_started.v1"

abbrev pub case_query_raised : String
case_query_raised = "case.query_raised.v1"

abbrev pub case_response_submitted : String
case_response_submitted = "case.response_submitted.v1"

abbrev pub case_inspection_scheduled : String
case_inspection_scheduled = "case.inspection_scheduled.v1"

abbrev pub case_inspection_completed : String
case_inspection_completed = "case.inspection_completed.v1"

abbrev pub case_fee_demanded : String
case_fee_demanded = "case.fee_demanded.v1"

abbrev pub case_fee_paid : String
case_fee_paid = "case.fee_paid.v1"

abbrev pub case_approved : String
case_approved = "case.approved.v1"

abbrev pub case_rejected : String
case_rejected = "case.rejected.v1"

abbrev pub case_certificate_issued : String
case_certificate_issued = "case.certificate_issued.v1"

abbrev pub case_amendment_requested : String
case_amendment_requested = "case.amendment_requested.v1"

abbrev pub task_created : String
task_created = "task.created.v1"

abbrev pub task_assigned : String
task_assigned = "task.assigned.v1"

abbrev pub task_review_started : String
task_review_started = "task.review_started.v1"

abbrev pub task_checklist_updated : String
task_checklist_updated = "task.checklist_updated.v1"

abbrev pub task_query_raised : String
task_query_raised = "task.query_raised.v1"

abbrev pub task_response_submitted : String
task_response_submitted = "task.response_submitted.v1"

abbrev pub task_inspection_required : String
task_inspection_required = "task.inspection_required.v1"

abbrev pub task_inspection_scheduled : String
task_inspection_scheduled = "task.inspection_scheduled.v1"

abbrev pub task_inspection_completed : String
task_inspection_completed = "task.inspection_completed.v1"

abbrev pub task_fee_demanded : String
task_fee_demanded = "task.fee_demanded.v1"

abbrev pub task_fee_paid : String
task_fee_paid = "task.fee_paid.v1"

abbrev pub task_approved : String
task_approved = "task.approved.v1"

abbrev pub task_rejected : String
task_rejected = "task.rejected.v1"

abbrev pub task_returned : String
task_returned = "task.returned.v1"

abbrev pub task_certificate_issued : String
task_certificate_issued = "task.certificate_issued.v1"

abbrev pub task_closed : String
task_closed = "task.closed.v1"

abbrev pub task_status_changed : String
task_status_changed = "task.status_changed.v1"

abbrev pub sla_timer_started : String
sla_timer_started = "sla.timer_started.v1"

abbrev pub sla_timer_paused : String
sla_timer_paused = "sla.timer_paused.v1"

abbrev pub sla_timer_resumed : String
sla_timer_resumed = "sla.timer_resumed.v1"

abbrev pub sla_warning : String
sla_warning = "sla.warning.v1"

abbrev pub sla_breached : String
sla_breached = "sla.breached.v1"

abbrev pub sla_completed : String
sla_completed = "sla.completed.v1"

abbrev pub sla_cancelled : String
sla_cancelled = "sla.cancelled.v1"

abbrev pub sla_escalated : String
sla_escalated = "sla.escalated.v1"
