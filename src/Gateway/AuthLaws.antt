-- ===== src/Gateway/AuthLaws.antt =====
-- What the middleware lets through.
use udyog_setu.Common.{
  String, some, true, ◌&&◌, List, all, includes, str_eq, eq_iff, truthy, ◌≡◌, ◌↔◌, ◌⊎◌, inl, inr,
  refl, arith, Bool-cases, Option-cases,
}
use udyog_setu.Gateway.Auth.{
  Authorization, absent, other_scheme, bearer, Principal, Request, next, Verified, valid, expired,
  invalid, Tokens, token_of, system_principal, carrying, name_or_sub, Service, by_static_token,
  require_service_auth, all_permissions, principal_of, require_permission,
}

Verified-cases :
    {A : Type 0} (v : Verified A) → ((a : A) × (v ≡ valid a)) ⊎ ((v ≡ expired) ⊎ (v ≡ invalid))
Verified-cases (valid a) = inl (a, refl)
Verified-cases expired = inr (inl refl)
Verified-cases invalid = inr (inr refl)

-- Why a call counts as a service's: a token that verifies, or the static token.
abbrev pub ServiceProof : Tokens → Request → Type 0
ServiceProof tokens r =
    ((token : String) × (service : Service) × (r.authorization ≡ bearer token)
      × (tokens.verify_service token ≡ valid service))
    ⊎ ((r.service_token ≡ some tokens.internal_service_token) × (truthy r.service_token ≡ true))

token_of-bearer : (a : Authorization) (token : String) → token_of a ≡ some token → a ≡ bearer token
token_of-bearer absent token h = absurd (ground arith)
token_of-bearer other_scheme token h = absurd (ground arith)
token_of-bearer (bearer t) token h = ground arith

by_static_token_sound :
    (tokens : Tokens) (r s : Request)
    → by_static_token tokens r ≡ next s
    → ((r.service_token ≡ some tokens.internal_service_token) × (truthy r.service_token ≡ true))
      × ((id : String) × (name : String) × (s ≡ carrying (system_principal id name) r))
unfolding by_static_token
by_static_token_sound tokens r s h = elim (Option-cases r.service_token) [
  | inl missing ↦ absurd (ground arith)
  | inr (token, given) ↦
      elim (Bool-cases (truthy (some token) && str_eq token tokens.internal_service_token)) [
        | inl same ↦ (
          (ground (arith, eq_iff token tokens.internal_service_token), ground arith),
          ("internal-static-token", "static-token", ground arith),
        )
        | inr differs ↦ absurd (ground arith)
      ]
]

-- A request is taken for a service's only with a bearer token that verifies as a service token or with
-- the configured static token, which is not empty; it then carries exactly the right of an internal
-- call, as its service and as the actor of its context, and its user is left as it was.
pub require_service_auth_sound :
    (tokens : Tokens) (r s : Request)
    → require_service_auth tokens r ≡ next s
    → ServiceProof tokens r
      × ((id : String) × (name : String) × (s ≡ carrying (system_principal id name) r))
unfolding require_service_auth
require_service_auth_sound tokens r s h = elim (Option-cases (token_of r.authorization)) [
  | inl missing ↦
      let (static, made) = by_static_token_sound tokens r s (ground arith) in (inr static, made)
  | inr (token, given) ↦ elim (Verified-cases (tokens.verify_service token)) [
    | inl (service, good) ↦ (
      inl (token, service, token_of-bearer r.authorization token given, good),
      (service.sub, name_or_sub service, ground arith),
    )
    | inr bad ↦
        let (static, made) = by_static_token_sound tokens r s (ground arith) in (inr static, made)
  ]
]

-- A route that asks for permissions lets a request through, unchanged, exactly when its user, or else
-- its service, holds every one of them.
pub require_permission_iff :
    (permissions : List String) (r s : Request)
    → (require_permission permissions r ≡ next s) ↔ (
        (p : Principal) × (principal_of r ≡ some p)
        × (all (includes (all_permissions p)) permissions ≡ true)
        × (r ≡ s))
unfolding require_permission
require_permission_iff permissions r s = elim (Option-cases (principal_of r)) [
  | inl nobody ↦ (λ h. absurd (ground arith), λ (p, found, held, same). absurd (ground arith))
  | inr (p, found) ↦ elim (Bool-cases (all (includes (all_permissions p)) permissions)) [
    | inl held ↦ (λ h. (p, found, held, ground arith), λ (q, known, holds, same). ground arith)
    | inr lacks ↦ (λ h. absurd (ground arith), λ (q, known, holds, same). absurd (ground arith))
  ]
]
