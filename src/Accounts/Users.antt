-- ===== src/Accounts/Users.antt =====
-- web/src/models/User.js, its hook and methods. An email stands for its lower-case form. The
-- profile (name, phone, organisation, investor, preferences) and the validation of the enumerations,
-- which is Mongoose's, are left out.
use udyog_setu.Common.{
  ℕ, suc, String, Option, none, some, Bool, false, ◌||◌, List, [], ◌∷◌, ◌++◌, ◌+◌, ◌*◌, includes,
  is_empty, truthy, str_eq, ltb, leb, ◌==◌, if◌then◌else◌,
}
use udyog_setu.Gateway.RolePermissions.{role_permissions}
use udyog_setu.Approval.Tracks.{unique}

pub data AccountStatus : Type 0 where
  invited active suspended locked disabled : AccountStatus

abbrev pub account_index : AccountStatus → ℕ
account_index invited = 0
account_index active = 1
account_index suspended = 2
account_index locked = 3
account_index disabled = 4

abbrev pub has_status : AccountStatus → AccountStatus → Bool
has_status a b = account_index a == account_index b

pub record User : Type 0 where
  pub id : ℕ
  pub email : String
  pub password_hash : String
  pub role : String
  pub roles : List String
  pub primary_role : Option String
  pub permissions : List String
  pub department : Option String
  pub department_id : Option String
  pub status : AccountStatus
  pub email_verified_at : Option ℕ
  pub phone_verified_at : Option ℕ
  pub last_login_at : Option ℕ
  pub failed_login_attempts : ℕ
  pub locked_until : Option ℕ
  pub password_changed_at : Option ℕ
  pub password_reset_token_hash : Option String
  pub password_reset_expires_at : Option ℕ
  pub email_verification_token_hash : Option String
  pub email_verification_expires_at : Option ℕ
  pub otp_hash : Option String
  pub otp_expires_at : Option ℕ
  pub otp_attempts : ℕ

abbrev pub user_id : User → ℕ
user_id u = u.id

abbrev pub current_role : String → String
current_role role = if str_eq role "supervisor" then "department_supervisor" else role

abbrev pub primary_or : String → Option String → String
primary_or role none = role
primary_or role (some p) = if truthy (some p) then current_role p else role

abbrev pub roles_with : String → List String → List String
roles_with primary roles =
    let known = if is_empty roles then primary ∷ [] else roles in
    if includes known primary then known else known ++ (primary ∷ [])

abbrev pub permissions_of : List String → List String
permissions_of [] = []
permissions_of (role ∷ roles) = role_permissions role ++ permissions_of roles

abbrev pub filled : Option String → Option String → Option String
filled a b = if truthy a then a else if truthy b then b else a

-- The hook `pre('validate')`, which runs at every save.
unfoldable pub sync_role_fields : User → User
sync_role_fields u =
    let role = current_role u.role in
    let primary = primary_or role u.primary_role in
    let roles = roles_with primary u.roles in
    record u {
      role = role;
      primary_role = some primary;
      roles = roles;
      permissions = if is_empty u.permissions then unique (permissions_of roles) else u.permissions;
      department_id = filled u.department_id u.department;
      department = filled u.department u.department_id;
    }

abbrev pub later_than : ℕ → Option ℕ → Bool
later_than now none = false
later_than now (some t) = ltb now t

unfoldable pub is_locked : ℕ → User → Bool
is_locked now u = later_than now u.locked_until || has_status u.status locked

-- The two methods up to their saves.
unfoldable pub increment_failed_login : ℕ → User → User
increment_failed_login now u =
    let counted = record u { failed_login_attempts = suc u.failed_login_attempts } in
    if leb 5 (suc u.failed_login_attempts)
    then record counted { locked_until = some (now + 15 * 60 * 1000); status = locked }
    else counted

unfoldable pub reset_failed_login : User → User
reset_failed_login u = record u {
  failed_login_attempts = 0;
  locked_until = none;
  status = if has_status u.status locked then active else u.status;
}
