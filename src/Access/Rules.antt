-- ===== src/Access/Rules.antt =====
-- web/src/services/abacService.js and web/src/services/permissionService.js. A field of a document or a
-- user is missing, null or a text, which JavaScript's `String` and `===` tell apart.
use udyog_setu.Common.{
  String, Option, none, some, Bool, true, false, not, ◌&&◌, ◌||◌, List, [], ◌∷◌, ◌++◌, any, all,
  includes, str_eq, if◌then◌else◌,
}
use udyog_setu.Gateway.RolePermissions.{role_permissions}
use udyog_setu.Approval.Tracks.{unique}

pub data Field : Type 0 where
  undefined null : Field
  text : String → Field

abbrev pub is_truthy : Field → Bool
is_truthy (text s) = not (str_eq s "")
is_truthy _ = false

-- `a || b`, `String(a)` and `a === b`.
abbrev pub or_field : Field → Field → Field
or_field a b = if is_truthy a then a else b

abbrev pub to_text : Field → String
to_text undefined = "undefined"
to_text null = "null"
to_text (text s) = s

abbrev pub same_text : Field → Field → Bool
same_text a b = str_eq (to_text a) (to_text b)

abbrev pub strictly_equal : Field → Field → Bool
strictly_equal undefined undefined = true
strictly_equal null null = true
strictly_equal (text a) (text b) = str_eq a b
strictly_equal _ _ = false

pub record User : Type 0 where
  pub id : Field
  pub mongo_id : Field
  pub primary_role : Field
  pub role : Field
  pub roles : Option (List String)
  pub permissions : List String
  pub organisation_id : Field
  pub investor_id : Field
  pub department_id : Field
  pub department : Field
  pub department_code : Field

pub record CaseFields : Type 0 where
  pub applicant_user_id : Field
  pub created_by : Field
  pub organisation_id : Field
  pub investor_id : Field
  -- The departments of `approvals`, where that is an array.
  pub approvals : Option (List Field)
  -- The codes of `requiredDepartments`.
  pub required_departments : List Field

pub record TaskFields : Type 0 where
  pub department_id : Field
  pub department : Field
  pub department_code : Field

unfoldable pub get_role : User → Field
get_role u = or_field (or_field u.primary_role u.role) null

abbrev pub is_one_of : List String → Field → Bool
is_one_of roles (text r) = includes roles r
is_one_of roles _ = false

abbrev pub role_permissions_of : List String → List String
role_permissions_of [] = []
role_permissions_of (r ∷ rs) = role_permissions r ++ role_permissions_of rs

abbrev pub roles_of : User → List String
roles_of u = elim u.roles [ some roles ↦ roles | none ↦ to_text u.role ∷ [] ]

unfoldable pub resolve_permissions : User → List String
resolve_permissions u = unique (u.permissions ++ role_permissions_of (roles_of u))

unfoldable pub has_permission : User → String → Bool
has_permission u permission = includes (resolve_permissions u) permission

unfoldable pub has_any_permission : User → List String → Bool
has_any_permission u = any (has_permission u)

unfoldable pub has_all_permissions : User → List String → Bool
has_all_permissions u = all (has_permission u)

unfoldable pub is_admin_like : User → Bool
is_admin_like u =
    is_one_of ("admin" ∷ "auditor" ∷ "nodal_officer" ∷ []) (or_field u.primary_role u.role)

unfoldable pub can_access_organisation : User → Field → Bool
can_access_organisation u organisation_id =
    if is_admin_like u || is_one_of ("admin" ∷ []) (get_role u)
    then true
    else is_truthy organisation_id
      && is_truthy u.organisation_id
      && same_text u.organisation_id organisation_id

abbrev pub officers : List String
officers = "department_officer" ∷ "department_supervisor" ∷ []

unfoldable pub can_access_case : Option User → Option CaseFields → Bool
can_access_case none c = false
can_access_case (some u) none = false
can_access_case (some u) (some c) =
    if is_one_of ("admin" ∷ "auditor" ∷ "nodal_officer" ∷ []) (get_role u)
    then true
    else if is_one_of ("investor" ∷ []) (get_role u)
    then same_text (or_field c.applicant_user_id c.created_by) (or_field u.id u.mongo_id)
      || (is_truthy u.organisation_id && same_text c.organisation_id u.organisation_id)
      || (is_truthy u.investor_id && same_text c.investor_id u.investor_id)
    else if is_one_of officers (get_role u)
    then elim c.approvals [
      | some departments ↦
          any (λ d. same_text d (or_field u.department_id u.department)) departments
      | none ↦ any (λ d. strictly_equal d u.department_code) c.required_departments
    ]
    else false

unfoldable pub can_modify_case : User → Option CaseFields → Bool
can_modify_case u c =
    let role = get_role u in
    if is_one_of ("admin" ∷ []) role
    then true
    else if is_one_of ("investor" ∷ []) role
    then can_access_case (some u) c
    else is_one_of ("department_officer" ∷ "department_supervisor" ∷ "nodal_officer" ∷ []) role
      && can_access_case (some u) c

unfoldable pub can_access_task : Option User → Option TaskFields → Bool
can_access_task none t = false
can_access_task (some u) none = false
can_access_task (some u) (some t) =
    if is_one_of ("admin" ∷ "auditor" ∷ "nodal_officer" ∷ []) (get_role u)
    then true
    else if is_one_of ("investor" ∷ []) (get_role u)
    then false
    else let own = or_field u.department_id u.department in
      let its = or_field t.department_id t.department in
      (is_truthy own && is_truthy its && same_text its own)
      || (is_truthy t.department_code
          && is_truthy u.department_code
          && strictly_equal t.department_code u.department_code)

unfoldable pub can_assign_task : User → Option TaskFields → Bool
can_assign_task u t =
    if is_one_of ("admin" ∷ []) (get_role u)
    then true
    else if not (is_one_of ("department_supervisor" ∷ []) (get_role u))
    then false
    else can_access_task (some u) t

unfoldable pub can_view_audit : Option User → Bool
can_view_audit none = false
can_view_audit (some u) = is_one_of ("admin" ∷ "auditor" ∷ []) (get_role u)

unfoldable pub can_manage_integration : Option User → Bool
can_manage_integration none = false
can_manage_integration (some u) = is_one_of ("admin" ∷ []) (get_role u)
