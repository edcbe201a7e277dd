-- ===== src/Tests/AccessTests.antt =====
-- The access rules for concrete users.
use udyog_setu.Common.{some, none, true, false, [], ◌∷◌, ◌≡◌, refl}
use udyog_setu.Access.Rules.{
  User, CaseFields, TaskFields, undefined, null, text, get_role, can_access_case, can_modify_case,
  can_access_task, can_assign_task,
}
use udyog_setu.Access.RuleLaws.{rights_are_nested}

abbrev investor : User
investor = record {
  id = text "u1";
  mongo_id = undefined;
  primary_role = text "investor";
  role = text "investor";
  roles = none;
  permissions = [];
  organisation_id = text "o1";
  investor_id = text "p1";
  department_id = null;
  department = null;
  department_code = null;
}

abbrev other_case : CaseFields
other_case = record {
  applicant_user_id = undefined;
  created_by = text "u2";
  organisation_id = text "o1";
  investor_id = undefined;
  approvals = none;
  required_departments = [];
}

abbrev fire_task : TaskFields
fire_task = record {
  department_id = undefined;
  department = text "d1";
  department_code = text "fire";
}

-- A case of the organisation is reached; without the ids of a department, an officer reaches an approval
-- that names none.
shared_case : can_access_case (some investor) (some other_case) ≡ true
unfolding can_access_case get_role
shared_case = refl

unnamed_department :
    can_access_case
      (some (record investor { primary_role = text "department_officer" }))
      (some (record other_case { approvals = some (null ∷ []) }))
    ≡ true
unfolding can_access_case get_role
unnamed_department = refl

rights_are_nested_example :
    (can_modify_case investor (some other_case) ≡ true
      → can_access_case (some investor) (some other_case) ≡ true)
    × (can_assign_task investor (some fire_task) ≡ true
        → can_access_task (some investor) (some fire_task) ≡ true)
    × (get_role investor ≡ text "auditor"
        → (can_modify_case investor (some other_case) ≡ false)
          × (can_assign_task investor (some fire_task) ≡ false))
rights_are_nested_example = rights_are_nested investor other_case fire_task
