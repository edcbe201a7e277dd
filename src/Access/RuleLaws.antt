-- ===== src/Access/RuleLaws.antt =====
-- What the access rules allow.
use udyog_setu.Common.{
  String, some, Bool, true, false, ◌&&◌, ◌||◌, [], ◌∷◌, ◌≡◌, refl, inl, inr, str_eq, arith,
  Bool-cases,
}
use udyog_setu.Access.Rules.{
  Field, undefined, null, text, or_field, same_text, User, CaseFields, get_role, is_one_of,
  can_access_case, can_modify_case, TaskFields, can_access_task, can_assign_task,
}

-- The field holds this text.
abbrev pub holds : String → Field → Bool
holds s (text t) = str_eq t s
holds s _ = false

-- A text that `String` makes of no missing field.
abbrev pub IsProper : String → Type 0
IsProper s = (str_eq s "" ≡ false) × (str_eq "undefined" s ≡ false) × (str_eq "null" s ≡ false)

same_text-holds : (f : Field) (s : String) → IsProper s → same_text f (text s) ≡ holds s f
same_text-holds undefined s h = h.1
same_text-holds null s h = h.2
same_text-holds (text t) s h = refl

-- An investor reaches exactly the cases that name the investor as the applicant, or as the creator where
-- there is no applicant, and those of the investor's organisation and investor profile; a field that a
-- case lacks is never matched. The ids of the investor are proper texts.
pub investor_reaches_own_cases :
    (u : User) (c : CaseFields) (id organisation profile : String)
    → get_role u ≡ text "investor"
    → or_field u.id u.mongo_id ≡ text id
    → u.organisation_id ≡ text organisation
    → u.investor_id ≡ text profile
    → IsProper id
    → IsProper organisation
    → IsProper profile
    → can_access_case (some u) (some c) ≡ (
        holds id (or_field c.applicant_user_id c.created_by)
        || holds organisation c.organisation_id
        || holds profile c.investor_id)
unfolding can_access_case
investor_reaches_own_cases u c id organisation profile role is_id is_organisation is_profile
      proper_id proper_organisation proper_profile =
    rw
      (
        role,
        is_id,
        is_organisation,
        is_profile,
        proper_organisation.0,
        proper_profile.0,
        same_text-holds (or_field c.applicant_user_id c.created_by) id proper_id,
        same_text-holds c.organisation_id organisation proper_organisation,
        same_text-holds c.investor_id profile proper_profile,
      )
      refl

and_right : (a b : Bool) → (a && b) ≡ true → b ≡ true
and_right true b h = h
and_right false b h = ground arith

admin_is_staff :
    (f : Field)
    → is_one_of ("admin" ∷ []) f ≡ true
    → is_one_of ("admin" ∷ "auditor" ∷ "nodal_officer" ∷ []) f ≡ true
admin_is_staff undefined h = h
admin_is_staff null h = h
admin_is_staff (text r) h = ground arith

admin_reads :
    (u : User) (c : CaseFields) (t : TaskFields)
    → is_one_of ("admin" ∷ []) (get_role u) ≡ true
    → (can_access_case (some u) (some c) ≡ true) × (can_access_task (some u) (some t) ≡ true)
unfolding can_access_case can_access_task
admin_reads u c t admin = rw (admin_is_staff (get_role u) admin) (refl, refl)

modify_needs_access :
    (u : User) (c : CaseFields)
    → is_one_of ("admin" ∷ []) (get_role u) ≡ false
    → can_modify_case u (some c) ≡ true
    → can_access_case (some u) (some c) ≡ true
unfolding can_modify_case
modify_needs_access u c other h = elim (Bool-cases (is_one_of ("investor" ∷ []) (get_role u))) [
  | inl investor ↦ rw (can_modify_case, other, investor) at h
  | inr neither ↦ and_right _ _ (rw (can_modify_case, other, neither) at h)
]

assign_needs_access :
    (u : User) (t : TaskFields)
    → is_one_of ("admin" ∷ []) (get_role u) ≡ false
    → can_assign_task u (some t) ≡ true
    → can_access_task (some u) (some t) ≡ true
unfolding can_assign_task
assign_needs_access u t other h =
    elim (Bool-cases (is_one_of ("department_supervisor" ∷ []) (get_role u))) [
      | inl supervisor ↦ rw (can_assign_task, other, supervisor) at h
      | inr neither ↦ ground (arith, (rw (can_assign_task, other, neither) at h))
    ]

auditor_changes_nothing :
    (u : User) (c : CaseFields) (t : TaskFields)
    → get_role u ≡ text "auditor"
    → (can_modify_case u (some c) ≡ false) × (can_assign_task u (some t) ≡ false)
unfolding can_modify_case can_assign_task
auditor_changes_nothing u c t auditor = rw auditor (refl, refl)

-- Whoever may modify a case may read it, and whoever may assign a task may read that; an auditor may do
-- neither.
pub rights_are_nested :
    (u : User) (c : CaseFields) (t : TaskFields)
    → (can_modify_case u (some c) ≡ true → can_access_case (some u) (some c) ≡ true)
      × (can_assign_task u (some t) ≡ true → can_access_task (some u) (some t) ≡ true)
      × (get_role u ≡ text "auditor"
          → (can_modify_case u (some c) ≡ false) × (can_assign_task u (some t) ≡ false))
rights_are_nested u c t = elim (Bool-cases (is_one_of ("admin" ∷ []) (get_role u))) [
  | inl admin ↦
      let reads = admin_reads u c t admin in
      (λ h. reads.0, λ h. reads.1, auditor_changes_nothing u c t)
  | inr other ↦
      (modify_needs_access u c other, assign_needs_access u t other, auditor_changes_nothing u c t)
]
