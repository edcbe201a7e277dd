-- ===== src/Vocabulary/Permissions.antt =====
-- packages/shared/src/constants/permission.constants.js: the permissions, as the texts that tokens carry.
use Prim.Native.String.{String}
use mathlib.Core.List.{List, [], ◌∷◌}

abbrev pub auth_login : String
auth_login = "auth.login"

abbrev pub auth_logout : String
auth_logout = "auth.logout"

abbrev pub auth_refresh_token : String
auth_refresh_token = "auth.refresh_token"

abbrev pub user_read : String
user_read = "user.read"

abbrev pub user_create : String
user_create = "user.create"

abbrev pub user_update : String
user_update = "user.update"

abbrev pub user_disable : String
user_disable = "user.disable"

abbrev pub role_read : String
role_read = "role.read"

abbrev pub role_manage : String
role_manage = "role.manage"

abbrev pub organisation_read : String
organisation_read = "organisation.read"

abbrev pub organisation_update : String
organisation_update = "organisation.update"

abbrev pub case_read : String
case_read = "case.read"

abbrev pub case_read_own : String
case_read_own = "case.read_own"

abbrev pub case_create : String
case_create = "case.create"

abbrev pub case_submit : String
case_submit = "case.submit"

abbrev pub case_update : String
case_update = "case.update"

abbrev pub case_assign : String
case_assign = "case.assign"

abbrev pub case_view_all : String
case_view_all = "case.view_all"

abbrev pub task_read : String
task_read = "task.read"

abbrev pub task_read_department : String
task_read_department = "task.read_department"

abbrev pub task_assign : String
task_assign = "task.assign"

abbrev pub task_update : String
task_update = "task.update"

abbrev pub task_scrutinise : String
task_scrutinise = "task.scrutinise"

abbrev pub task_raise_query : String
task_raise_query = "task.raise_query"

abbrev pub task_respond_query : String
task_respond_query = "task.respond_query"

abbrev pub task_comment : String
task_comment = "task.comment"

abbrev pub task_approve : String
task_approve = "task.approve"

abbrev pub task_reject : String
task_reject = "task.reject"

abbrev pub task_return : String
task_return = "task.return"

abbrev pub document_read : String
document_read = "document.read"

abbrev pub document_upload : String
document_upload = "document.upload"

abbrev pub document_download : String
document_download = "document.download"

abbrev pub document_verify : String
document_verify = "document.verify"

abbrev pub document_reject : String
document_reject = "document.reject"

abbrev pub document_delete : String
document_delete = "document.delete"

abbrev pub inspection_schedule : String
inspection_schedule = "inspection.schedule"

abbrev pub inspection_update : String
inspection_update = "inspection.update"

abbrev pub inspection_complete : String
inspection_complete = "inspection.complete"

abbrev pub fee_create_demand : String
fee_create_demand = "fee.create_demand"

abbrev pub fee_update : String
fee_update = "fee.update"

abbrev pub fee_mark_paid : String
fee_mark_paid = "fee.mark_paid"

abbrev pub certificate_issue : String
certificate_issue = "certificate.issue"

abbrev pub certificate_revoke : String
certificate_revoke = "certificate.revoke"

abbrev pub certificate_verify : String
certificate_verify = "certificate.verify"

abbrev pub comment_create : String
comment_create = "comment.create"

abbrev pub comment_read : String
comment_read = "comment.read"

abbrev pub sla_read : String
sla_read = "sla.read"

abbrev pub sla_escalate : String
sla_escalate = "sla.escalate"

abbrev pub grievance_create : String
grievance_create = "grievance.create"

abbrev pub grievance_read : String
grievance_read = "grievance.read"

abbrev pub grievance_respond : String
grievance_respond = "grievance.respond"

abbrev pub grievance_resolve : String
grievance_resolve = "grievance.resolve"

abbrev pub notification_read : String
notification_read = "notification.read"

abbrev pub notification_send : String
notification_send = "notification.send"

abbrev pub integration_read : String
integration_read = "integration.read"

abbrev pub integration_manage : String
integration_manage = "integration.manage"

abbrev pub retry_read : String
retry_read = "retry.read"

abbrev pub retry_manage : String
retry_manage = "retry.manage"

abbrev pub audit_read : String
audit_read = "audit.read"

abbrev pub audit_export : String
audit_export = "audit.export"

abbrev pub audit_integrity_verify : String
audit_integrity_verify = "audit.integrity_verify"

abbrev pub operations_view : String
operations_view = "operations.view"

abbrev pub diagnostics_view : String
diagnostics_view = "diagnostics.view"

abbrev pub diagnostics_run : String
diagnostics_run = "diagnostics.run"

abbrev pub replay_view : String
replay_view = "replay.view"

abbrev pub replay_execute : String
replay_execute = "replay.execute"

abbrev pub stuck_case_view : String
stuck_case_view = "stuck_case.view"

abbrev pub stuck_case_manage : String
stuck_case_manage = "stuck_case.manage"

abbrev pub queue_manage : String
queue_manage = "queue.manage"

abbrev pub adapter_manage : String
adapter_manage = "adapter.manage"

abbrev pub digilocker_consent : String
digilocker_consent = "digilocker.consent"

abbrev pub digilocker_retrieve : String
digilocker_retrieve = "digilocker.retrieve"

abbrev pub digilocker_verify : String
digilocker_verify = "digilocker.verify"

abbrev pub digilocker_import : String
digilocker_import = "digilocker.import"

abbrev pub dashboard_investor : String
dashboard_investor = "dashboard.investor"

abbrev pub dashboard_department : String
dashboard_department = "dashboard.department"

abbrev pub dashboard_supervisor : String
dashboard_supervisor = "dashboard.supervisor"

abbrev pub dashboard_nodal : String
dashboard_nodal = "dashboard.nodal"

abbrev pub dashboard_admin : String
dashboard_admin = "dashboard.admin"

abbrev pub dashboard_audit : String
dashboard_audit = "dashboard.audit"

abbrev pub analytics_view : String
analytics_view = "analytics.view"

abbrev pub analytics_view_department : String
analytics_view_department = "analytics.view_department"

abbrev pub analytics_view_all : String
analytics_view_all = "analytics.view_all"

abbrev pub analytics_view_pii : String
analytics_view_pii = "analytics.view_pii"

abbrev pub analytics_export : String
analytics_export = "analytics.export"

abbrev pub analytics_rebuild : String
analytics_rebuild = "analytics.rebuild"

abbrev pub analytics_review_pack : String
analytics_review_pack = "analytics.review_pack"

abbrev pub analytics_officer_workload : String
analytics_officer_workload = "analytics.officer_workload"

abbrev pub system_internal_call : String
system_internal_call = "system.internal_call"

-- `Object.values` of the table.
unfoldable pub permission_values : List String
permission_values =
    auth_login ∷ auth_logout ∷ auth_refresh_token ∷ user_read ∷ user_create ∷ user_update
    ∷ user_disable ∷ role_read ∷ role_manage ∷ organisation_read ∷ organisation_update ∷ case_read
    ∷ case_read_own ∷ case_create ∷ case_submit ∷ case_update ∷ case_assign ∷ case_view_all
    ∷ task_read ∷ task_read_department ∷ task_assign ∷ task_update ∷ task_scrutinise
    ∷ task_raise_query ∷ task_respond_query ∷ task_comment ∷ task_approve ∷ task_reject
    ∷ task_return ∷ document_read ∷ document_upload ∷ document_download ∷ document_verify
    ∷ document_reject ∷ document_delete ∷ inspection_schedule ∷ inspection_update
    ∷ inspection_complete ∷ fee_create_demand ∷ fee_update ∷ fee_mark_paid ∷ certificate_issue
    ∷ certificate_revoke ∷ certificate_verify ∷ comment_create ∷ comment_read ∷ sla_read
    ∷ sla_escalate ∷ grievance_create ∷ grievance_read ∷ grievance_respond ∷ grievance_resolve
    ∷ notification_read ∷ notification_send ∷ integration_read ∷ integration_manage ∷ retry_read
    ∷ retry_manage ∷ audit_read ∷ audit_export ∷ audit_integrity_verify ∷ operations_view
    ∷ diagnostics_view ∷ diagnostics_run ∷ replay_view ∷ replay_execute ∷ stuck_case_view
    ∷ stuck_case_manage ∷ queue_manage ∷ adapter_manage ∷ digilocker_consent ∷ digilocker_retrieve
    ∷ digilocker_verify ∷ digilocker_import ∷ dashboard_investor ∷ dashboard_department
    ∷ dashboard_supervisor ∷ dashboard_nodal ∷ dashboard_admin ∷ dashboard_audit ∷ analytics_view
    ∷ analytics_view_department ∷ analytics_view_all ∷ analytics_view_pii ∷ analytics_export
    ∷ analytics_rebuild ∷ analytics_review_pack ∷ analytics_officer_workload ∷ system_internal_call
    ∷ []
