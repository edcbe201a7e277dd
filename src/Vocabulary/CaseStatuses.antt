-- ===== src/Vocabulary/CaseStatuses.antt =====
-- packages/shared/src/constants/case-status.constants.js: the statuses of a case.
use udyog_setu.Common.{ℕ, Bool, true, List, [], ◌∷◌, ◌≡◌, arith, ◌==◌, any, all}

pub data CaseStatus : Type 0 where
  draft : CaseStatus
  submitted : CaseStatus
  under_scrutiny : CaseStatus
  query_raised : CaseStatus
  response_submitted : CaseStatus
  inspection_scheduled : CaseStatus
  inspection_completed : CaseStatus
  fee_demanded : CaseStatus
  fee_paid : CaseStatus
  approved : CaseStatus
  rejected : CaseStatus
  certificate_issued : CaseStatus
  amendment_requested : CaseStatus
  amended : CaseStatus
  closed : CaseStatus
  reopened : CaseStatus
  withdrawn : CaseStatus

-- The position in the enumeration, by which two statuses are compared.
abbrev pub index : CaseStatus → ℕ
index draft = 0
index submitted = 1
index under_scrutiny = 2
index query_raised = 3
index response_submitted = 4
index inspection_scheduled = 5
index inspection_completed = 6
index fee_demanded = 7
index fee_paid = 8
index approved = 9
index rejected = 10
index certificate_issued = 11
index amendment_requested = 12
index amended = 13
index closed = 14
index reopened = 15
index withdrawn = 16

-- `a === b`.
abbrev pub same : CaseStatus → CaseStatus → Bool
same a b = index a == index b

-- `[...].includes(s)`.
abbrev pub one_of : List CaseStatus → CaseStatus → Bool
one_of ts s = any (λ t. same t s) ts

-- All of them.
unfoldable pub case_status_values : List CaseStatus
case_status_values =
    draft ∷ submitted ∷ under_scrutiny ∷ query_raised ∷ response_submitted ∷ inspection_scheduled
    ∷ inspection_completed ∷ fee_demanded ∷ fee_paid ∷ approved ∷ rejected ∷ certificate_issued
    ∷ amendment_requested ∷ amended ∷ closed ∷ reopened ∷ withdrawn ∷ []

-- What an evaluation finds for every listed status holds of any status.
pub case_status_values_complete :
    (p : CaseStatus → Bool) → all p case_status_values ≡ true → (s : CaseStatus) → p s ≡ true
unfolding case_status_values
case_status_values_complete p h draft = ground arith
case_status_values_complete p h _ = ground arith

pub same_sound : (a b : CaseStatus) → same a b ≡ true → a ≡ b
same_sound draft b h = ground arith
same_sound _ b h = ground arith
