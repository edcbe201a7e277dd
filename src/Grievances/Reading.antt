-- ===== src/Grievances/Reading.antt =====
-- services/case-service/src/services/grievance.service.js, the operations that read, with the scope of a
-- user's list from services/case-service/src/repositories/grievance.repository.js. The order and the
-- pages of a list are left out.
use udyog_setu.Common.{
  ℕ, String, Option, none, some, Bool, true, false, not, ◌&&◌, List, [], ◌∷◌, map, keep, includes,
  str_eq, if◌then◌else◌,
}
use udyog_setu.Store.{Collection}
use udyog_setu.Grievances.Records.{
  Visibility, internal, audit_only, Grievance, grievance_id, find_active,
}
use udyog_setu.Grievances.Service.{Answer, ok, err, grievance_not_found, access_denied}

pub record User : Type 0 where
  pub primary_role : Option String
  pub role : Option String
  pub organisation_id : Option String
  pub department_code : Option String

-- `user.primaryRole || user.role`.
abbrev pub role_of : User → String
role_of u = elim u.primary_role [
  | none ↦ elim u.role [ none ↦ "" | some r ↦ r ]
  | some p ↦ if str_eq p "" then elim u.role [ none ↦ "" | some r ↦ r ] else p
]

-- `String(a || '') === String(b || '')`, and `a === b`.
abbrev pub text_of : Option String → String
text_of none = ""
text_of (some s) = s

abbrev pub same_option : Option String → Option String → Bool
same_option none none = true
same_option (some a) (some b) = str_eq a b
same_option _ _ = false

abbrev pub is_officer : String → Bool
is_officer = includes ("department_officer" ∷ "department_supervisor" ∷ [])

unfoldable pub can_view : User → Grievance → Bool
can_view u g =
    let role = role_of u in
    if includes ("admin" ∷ "nodal_officer" ∷ "auditor" ∷ []) role
    then true
    else if str_eq role "investor"
    then str_eq (text_of g.organisation_id) (text_of u.organisation_id)
    else if is_officer role
    then same_option g.department_code u.department_code
    else false

abbrev pub is_hidden : Visibility → Bool
is_hidden internal = true
is_hidden audit_only = true
is_hidden _ = false

-- The messages that a user sees.
unfoldable pub redacted : User → Grievance → Grievance
redacted u g =
    if str_eq (role_of u) "investor"
    then record g { messages = keep (λ m. not (is_hidden m.visibility)) g.messages }
    else g

-- The filters of a caller: on the fields that the query sets too, and on others.
pub record Filters : Type 0 where
  pub is_deleted : Option Bool
  pub organisation_id : Option String
  pub department_code : Option String
  pub others : Grievance → Bool

abbrev pub same_flag : Bool → Option Bool → Bool
same_flag deleted none = not deleted
same_flag deleted (some flag) = if flag then deleted else not deleted

abbrev pub matches : Option String → Option String → Bool
matches value none = true
matches value (some text) = same_option value (some text)

-- The query of a list: the filters of the caller, overruled by the scope of the user.
unfoldable pub in_scope : User → Filters → Grievance → Bool
in_scope u filters g =
    let role = role_of u in
    same_flag g.is_deleted filters.is_deleted
    && (if str_eq role "investor"
        then same_option g.organisation_id u.organisation_id
        else matches g.organisation_id filters.organisation_id)
    && (if is_officer role
        then same_option g.department_code u.department_code
        else matches g.department_code filters.department_code)
    && filters.others g

module _ (G : Collection Grievance grievance_id) where
  unfoldable pub list_grievances : User → Filters → G.Docs → List Grievance
  list_grievances u filters s = map (redacted u) (G.find (in_scope u filters) s)

  unfoldable pub get_grievance_detail : User → ℕ → G.Docs → Answer Grievance
  get_grievance_detail u id s = elim (find_active G id s) [
    | none ↦ err grievance_not_found
    | some g ↦ if not (can_view u g) then err access_denied else ok (redacted u g)
  ]
