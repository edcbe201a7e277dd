-- ===== src/Gateway/RolePermissions.antt =====
-- packages/shared/src/constants/role-permissions.constants.js: the permissions that a role carries.
use udyog_setu.Common.{String, not, List, [], ◌∷◌, keep, str_eq, if◌then◌else◌}
use udyog_setu.Vocabulary.Roles
use udyog_setu.Vocabulary.Permissions

abbrev investor_permissions : List String
investor_permissions =
    Permissions.auth_login ∷ Permissions.auth_logout ∷ Permissions.auth_refresh_token
    ∷ Permissions.organisation_read ∷ Permissions.case_read_own ∷ Permissions.case_create
    ∷ Permissions.case_submit ∷ Permissions.document_read ∷ Permissions.document_upload
    ∷ Permissions.task_respond_query ∷ Permissions.grievance_create ∷ Permissions.grievance_read
    ∷ Permissions.notification_read ∷ Permissions.dashboard_investor ∷ []

abbrev department_officer_permissions : List String
department_officer_permissions =
    Permissions.auth_login ∷ Permissions.auth_logout ∷ Permissions.auth_refresh_token
    ∷ Permissions.case_read ∷ Permissions.task_read ∷ Permissions.task_read_department
    ∷ Permissions.task_update ∷ Permissions.task_scrutinise ∷ Permissions.task_raise_query
    ∷ Permissions.task_comment ∷ Permissions.document_read ∷ Permissions.document_download
    ∷ Permissions.document_verify ∷ Permissions.document_reject ∷ Permissions.inspection_schedule
    ∷ Permissions.inspection_update ∷ Permissions.inspection_complete
    ∷ Permissions.fee_create_demand ∷ Permissions.certificate_issue ∷ Permissions.comment_create
    ∷ Permissions.comment_read ∷ Permissions.sla_read ∷ Permissions.grievance_read
    ∷ Permissions.notification_read ∷ Permissions.dashboard_department
    ∷ Permissions.analytics_view_department ∷ []

abbrev department_supervisor_permissions : List String
department_supervisor_permissions =
    Permissions.auth_login ∷ Permissions.auth_logout ∷ Permissions.auth_refresh_token
    ∷ Permissions.case_read ∷ Permissions.task_read ∷ Permissions.task_read_department
    ∷ Permissions.task_assign ∷ Permissions.task_update ∷ Permissions.task_scrutinise
    ∷ Permissions.task_comment ∷ Permissions.task_approve ∷ Permissions.task_reject
    ∷ Permissions.task_return ∷ Permissions.document_read ∷ Permissions.document_download
    ∷ Permissions.document_verify ∷ Permissions.document_reject ∷ Permissions.inspection_schedule
    ∷ Permissions.inspection_update ∷ Permissions.inspection_complete
    ∷ Permissions.fee_create_demand ∷ Permissions.fee_update ∷ Permissions.certificate_issue
    ∷ Permissions.comment_create ∷ Permissions.comment_read ∷ Permissions.sla_read
    ∷ Permissions.sla_escalate ∷ Permissions.grievance_read ∷ Permissions.notification_read
    ∷ Permissions.dashboard_department ∷ Permissions.dashboard_supervisor
    ∷ Permissions.analytics_view ∷ Permissions.analytics_view_department
    ∷ Permissions.analytics_officer_workload ∷ Permissions.analytics_review_pack ∷ []

abbrev nodal_officer_permissions : List String
nodal_officer_permissions =
    Permissions.auth_login ∷ Permissions.auth_logout ∷ Permissions.auth_refresh_token
    ∷ Permissions.case_read ∷ Permissions.case_view_all ∷ Permissions.task_read
    ∷ Permissions.task_read_department ∷ Permissions.comment_create ∷ Permissions.comment_read
    ∷ Permissions.grievance_read ∷ Permissions.notification_read ∷ Permissions.dashboard_nodal
    ∷ Permissions.sla_read ∷ Permissions.sla_escalate ∷ Permissions.audit_read
    ∷ Permissions.analytics_view ∷ Permissions.analytics_view_all
    ∷ Permissions.analytics_review_pack ∷ []

abbrev auditor_permissions : List String
auditor_permissions =
    Permissions.auth_login ∷ Permissions.auth_logout ∷ Permissions.auth_refresh_token
    ∷ Permissions.case_read ∷ Permissions.case_view_all ∷ Permissions.document_read
    ∷ Permissions.document_download ∷ Permissions.comment_read ∷ Permissions.sla_read
    ∷ Permissions.audit_read ∷ Permissions.audit_export ∷ Permissions.dashboard_audit
    ∷ Permissions.analytics_view ∷ Permissions.analytics_export ∷ []

abbrev system_permissions : List String
system_permissions =
    Permissions.system_internal_call ∷ Permissions.notification_send ∷ Permissions.retry_manage
    ∷ Permissions.integration_manage ∷ Permissions.auth_refresh_token ∷ []

-- Every permission but that of an internal call.
abbrev admin_permissions : List String
admin_permissions =
    keep (λ p. not (str_eq p Permissions.system_internal_call)) Permissions.permission_values

-- `ROLE_PERMISSIONS[role] || []`.
unfoldable pub role_permissions : String → List String
unfolding Permissions.permission_values
role_permissions role =
    if str_eq role Roles.investor
    then investor_permissions
    else if str_eq role Roles.department_officer
    then department_officer_permissions
    else if str_eq role Roles.department_supervisor
    then department_supervisor_permissions
    else if str_eq role Roles.nodal_officer
    then nodal_officer_permissions
    else if str_eq role Roles.admin
    then admin_permissions
    else if str_eq role Roles.auditor
    then auditor_permissions
    else if str_eq role Roles.system
    then system_permissions
    else []
