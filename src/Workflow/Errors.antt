-- ===== src/Workflow/Errors.antt =====
-- The errors that the orchestration service throws, and a result that may be one of them.
use udyog_setu.Common.{ℕ, String, List, ◌≡◌, refl, ◌⊎◌, inl, inr}

pub data Error : Type 0 where
  invalid_transition : Error
  closed_case : Error
  immutable_task : Error
  reason_missing : Error
  actor_not_allowed : Error
  documents_missing : Error
  checklist_incomplete : String → Error
  payment_reference_missing : Error
  certificate_reference_missing : Error
  dependencies_blocked : List String → Error
  case_not_found : Error
  task_not_found : Error
  case_missing : Error
  validation_failed : String → Error

-- The status of the HTTP response: that of the AppError, and 500 for any other error.
pub http_status : Error → ℕ
http_status invalid_transition = 409
http_status closed_case = 409
http_status immutable_task = 409
http_status reason_missing = 400
http_status actor_not_allowed = 403
http_status documents_missing = 409
http_status (checklist_incomplete code) = 409
http_status payment_reference_missing = 400
http_status certificate_reference_missing = 400
http_status (dependencies_blocked keys) = 409
http_status case_not_found = 500
http_status task_not_found = 500
http_status case_missing = 500
http_status (validation_failed message) = 500

pub data Result {ℓ} (A : Type ℓ) : Type ℓ where
  ok : A → Result A
  err : Error → Result A

infixl 5 ◌>>=◌ ◌>>◌
abbrev pub ◌>>=◌ {ℓ κ} : {A : Type ℓ} {B : Type κ} → Result A → (A → Result B) → Result B
ok a >>= f = f a
err e >>= f = err e

abbrev pub ◌>>◌ {ℓ} : {B : Type ℓ} → Result (Unit {0}) → Result B → Result B
ok tt >> k = k
err e >> k = err e

pub Result-cases {ℓ} :
    {A : Type ℓ} (m : Result A) → ((a : A) × (m ≡ ok a)) ⊎ ((e : Error) × (m ≡ err e))
Result-cases (ok a) = inl (a, refl)
Result-cases (err e) = inr (e, refl)
