-- ===== src/Gateway/RoleLaws.antt =====
-- Which roles carry which permissions.
use udyog_setu.Common.{
  String, false, ◌&&◌, [], includes, str_eq, eq_iff, ◌≡◌, inl, inr, refl, sym, subst, arith,
  Bool-cases,
}
use udyog_setu.Vocabulary.Roles
use udyog_setu.Vocabulary.Permissions
use udyog_setu.Gateway.RolePermissions.{role_permissions}

-- A role that is none of the known ones carries nothing.
record Unknown (role : String) : Type 0 where
  carries_nothing : role_permissions role ≡ []
  not_admin : str_eq role Roles.admin ≡ false
  not_system : str_eq role Roles.system ≡ false

at_role :
    (P : String → Type 0) (role known : String)
    → P known
    → (str_eq role known ≡ false → P role)
    → P role
at_role P role known at other = elim (Bool-cases (str_eq role known)) [
  | inl same ↦ subst P (sym ((eq_iff role known).0 same)) at
  | inr differ ↦ other differ
]

-- What holds of each known role and of any unknown one holds of every role.
every_role :
    (P : String → Type 0)
    → P Roles.investor
    → P Roles.department_officer
    → P Roles.department_supervisor
    → P Roles.nodal_officer
    → P Roles.admin
    → P Roles.auditor
    → P Roles.system
    → ((role : String) → Unknown role → P role)
    → (role : String) → P role
unfolding role_permissions
every_role P a b c d e f g unknown role = at_role P role Roles.investor a (λ na.
    at_role P role Roles.department_officer b (λ nb.
      at_role P role Roles.department_supervisor c (λ nc.
        at_role P role Roles.nodal_officer d (λ nd. at_role P role Roles.admin e (λ ne.
          at_role P role Roles.auditor f (λ nf. at_role P role Roles.system g (λ ng.
            unknown role (record {
              carries_nothing = rw (na, nb, nc, nd, ne, nf, ng) refl;
              not_admin = ne;
              not_system = ng;
            }))))))))

-- Of all roles, only the administrator carries the permission to update any case, and only the system
-- that of an internal call.
pub exclusive_permissions :
    (role : String)
    → (includes (role_permissions role) Permissions.case_update ≡ str_eq role Roles.admin)
      × (includes (role_permissions role) Permissions.system_internal_call
          ≡ str_eq role Roles.system)
unfolding role_permissions Permissions.permission_values
exclusive_permissions =
    every_role
      (λ role.
        (includes (role_permissions role) Permissions.case_update ≡ str_eq role Roles.admin)
        × (includes (role_permissions role) Permissions.system_internal_call
            ≡ str_eq role Roles.system))
      (refl, refl) (refl, refl) (refl, refl) (refl, refl) (refl, refl) (refl, refl) (refl, refl)
      (λ role u. ground (arith, u.carries_nothing, u.not_admin, u.not_system))

-- Besides the administrator, no role both raises queries on a task and decides it.
pub duties_are_separate :
    (role : String)
    → str_eq role Roles.admin ≡ false
    → (includes (role_permissions role) Permissions.task_raise_query
        && includes (role_permissions role) Permissions.task_approve)
      ≡ false
unfolding role_permissions Permissions.permission_values
duties_are_separate role h = ground arith
