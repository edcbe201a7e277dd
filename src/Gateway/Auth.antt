-- ===== src/Gateway/Auth.antt =====
-- apps/gateway/src/middleware/auth.middleware.js. The verification of tokens is a parameter.
use udyog_setu.Common.{
  String, Option, none, some, Bool, true, false, ◌&&◌, ◌||◌, List, [], ◌∷◌, ◌++◌, any, all,
  includes, truthy, str_eq, if◌then◌else◌,
}
use udyog_setu.Vocabulary.Permissions
use udyog_setu.Vocabulary.Roles
use udyog_setu.Gateway.RolePermissions.{role_permissions}

-- The `authorization` header: missing, of another scheme, or `Bearer ` with what follows it.
pub data Authorization : Type 0 where
  absent other_scheme : Authorization
  bearer : String → Authorization

-- A user has roles, a service only a primary role and a name.
pub record Principal : Type 0 where
  pub id : String
  pub roles : Option (List String)
  pub primary_role : Option String
  pub permissions : List String
  pub service_name : Option String

pub record Webhook : Type 0 where
  pub verified : Bool
  pub bypassed : Bool
  pub webhook_id : Option String

pub record Request : Type 0 where
  pub authorization : Authorization
  pub service_token : Option String
  pub webhook : Option Webhook
  pub user : Option Principal
  pub service_user : Option Principal
  -- `context.actor`.
  pub actor : Option Principal

pub data Denial : Type 0 where
  auth_required token_expired token_invalid service_auth_required access_denied : Denial

pub data Access : Type 0 where
  next : Request → Access
  denied : Denial → Access

-- What `jwt.verify` makes of a token: the user of its claims, or why it is refused. A service token
-- yields the claims of the service.
pub data Verified (A : Type 0) : Type 0 where
  valid : A → Verified A
  expired invalid : Verified A

pub record Service : Type 0 where
  pub sub : String
  pub service_name : Option String

pub record Tokens : Type 0 where
  pub verify_user : String → Verified Principal
  pub verify_service : String → Verified Service
  pub internal_service_token : String

abbrev pub token_of : Authorization → Option String
token_of absent = none
token_of other_scheme = none
token_of (bearer token) = if truthy (some token) then some token else none

abbrev pub is_bearer : Authorization → Bool
is_bearer (bearer token) = true
is_bearer _ = false

abbrev pub system_principal : String → String → Principal
system_principal id service_name = record {
  id = id;
  roles = none;
  primary_role = some Roles.system;
  permissions = Permissions.system_internal_call ∷ [];
  service_name = some service_name;
}

abbrev pub carrying : Principal → Request → Request
carrying p r = record r { service_user = some p; actor = some p }

abbrev pub as_service : Request → String → String → Access
as_service r id service_name = next (carrying (system_principal id service_name) r)

-- `claims.serviceName || claims.sub`.
abbrev pub name_or_sub : Service → String
name_or_sub s = elim s.service_name [
  | none ↦ s.sub
  | some name ↦ if str_eq name "" then s.sub else name
]

module _ (tokens : Tokens) where
  unfoldable pub attach_current_actor : Request → Request
  attach_current_actor r = elim (token_of r.authorization) [
    | none ↦ r
    | some token ↦ elim (tokens.verify_user token) [
      | valid user ↦ record r { user = some user; actor = some user }
      | expired ↦ r
      | invalid ↦ r
    ]
  ]

  unfoldable pub require_auth : Request → Access
  require_auth r = elim (token_of r.authorization) [
    | none ↦ denied auth_required
    | some token ↦ elim (tokens.verify_user token) [
      | valid user ↦ next (record r { user = some user; actor = some user })
      | expired ↦ denied token_expired
      | invalid ↦ denied token_invalid
    ]
  ]

  -- What a bearer token does not grant, the static token may.
  unfoldable pub by_static_token : Request → Access
  by_static_token r = elim r.service_token [
    | none ↦ denied service_auth_required
    | some token ↦
        if truthy (some token) && str_eq token tokens.internal_service_token
        then as_service r "internal-static-token" "static-token"
        else denied service_auth_required
  ]

  unfoldable pub require_service_auth : Request → Access
  require_service_auth r = elim (token_of r.authorization) [
    | none ↦ by_static_token r
    | some token ↦ elim (tokens.verify_service token) [
      | valid service ↦ as_service r service.sub (name_or_sub service)
      | expired ↦ by_static_token r
      | invalid ↦ by_static_token r
    ]
  ]

  abbrev webhook_name : Option String → String
  webhook_name none = "verified-webhook"
  webhook_name (some id) = if truthy (some id) then id else "verified-webhook"

  unfoldable pub allow_service_auth_or_verified_webhook : Request → Access
  allow_service_auth_or_verified_webhook r =
      if is_bearer r.authorization || truthy r.service_token
      then require_service_auth r
      else elim r.webhook [
        | none ↦ denied service_auth_required
        | some w ↦
            if w.verified || w.bypassed
            then as_service r (webhook_name w.webhook_id) "verified-webhook"
            else denied service_auth_required
      ]

-- `actor.roles.flatMap(...)`.
abbrev pub permissions_of_roles : List String → List String
permissions_of_roles [] = []
permissions_of_roles (r ∷ rs) = role_permissions r ++ permissions_of_roles rs

abbrev permissions_of_primary : Option String → List String
permissions_of_primary none = []
permissions_of_primary (some r) = role_permissions r

abbrev permissions_by_role : Principal → List String
permissions_by_role p = elim p.roles [
  | none ↦ permissions_of_primary p.primary_role
  | some rs ↦ permissions_of_roles rs
]

unfoldable pub all_permissions : Principal → List String
all_permissions p = p.permissions ++ permissions_by_role p

abbrev pub principal_of : Request → Option Principal
principal_of r = elim r.user [ none ↦ r.service_user | some u ↦ some u ]

unfoldable pub require_permission : List String → Request → Access
require_permission permissions r = elim (principal_of r) [
  | none ↦ denied auth_required
  | some p ↦ if all (includes (all_permissions p)) permissions then next r else denied access_denied
]

unfoldable pub require_any_permission : List String → Request → Access
require_any_permission permissions r = elim (principal_of r) [
  | none ↦ denied auth_required
  | some p ↦ if any (includes (all_permissions p)) permissions then next r else denied access_denied
]
