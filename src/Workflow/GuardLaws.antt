-- ===== src/Workflow/GuardLaws.antt =====
-- What the guards on case transitions let through.
use udyog_setu.Common.{
  String, Option, none, some, Bool, true, false, not, ◌&&◌, ◌≡◌, refl, ◌↔◌, ◌⊎◌, inl, inr, includes,
  str_eq, arith, Option-cases, Bool-cases, all, if◌then◌else◌,
}
use udyog_setu.Vocabulary.CaseStatuses.{CaseStatus, case_status_values, case_status_values_complete}
use udyog_setu.Vocabulary.CaseStatuses
use udyog_setu.Vocabulary.Permissions
use udyog_setu.Vocabulary.Roles
use udyog_setu.Workflow.Transition.{Transition}
use udyog_setu.Workflow.CaseMachine.{get_case_transition}
use udyog_setu.Workflow.Documents.{Actor, Context, CaseDoc}
use udyog_setu.Workflow.Guards.{
  has_role, is_system, has_required_permission, can_actor_perform_transition, has_reason,
  ensure_reason_if_required, can_transition_case, assert_case_transition_allowed,
}
use udyog_setu.Workflow.Errors.{
  Error, ok, err, invalid_transition, reason_missing, actor_not_allowed,
}

-- From `closed` the table leads to `reopened` only, so the guard on closed cases adds nothing to it.
closed_only_reopens :
    (s next : CaseStatus) {t : Transition}
    → get_case_transition s next ≡ some t
    → (not (not (CaseStatuses.same s CaseStatus.closed))
        && not (CaseStatuses.same next CaseStatus.reopened))
      ≡ false
unfolding get_case_transition
closed_only_reopens CaseStatus.closed next h = ground arith
closed_only_reopens _ next h = ground arith

-- The guard accepts a case transition with an entry exactly when the table has that entry, a reason is
-- given where the entry requires one, and the actor may make the transition.
pub assert_case_transition_allowed_iff :
    (c : CaseDoc) (next : CaseStatus) (context : Context) (t : Transition)
    → (assert_case_transition_allowed c next context ≡ ok t) ↔ (
        (get_case_transition c.status next ≡ some t)
        × ((t.reason_required && not (has_reason context)) ≡ false)
        × (can_actor_perform_transition context.actor t context ≡ true))
unfolding assert_case_transition_allowed ensure_reason_if_required
assert_case_transition_allowed_iff c next context t =
    elim (Option-cases (get_case_transition c.status next)) [
      | inl missing ↦ ground arith
      | inr (u, found) ↦ ground (arith, closed_only_reopens c.status next found)
    ]

-- The two ways in which a case transition is refused besides a missing entry: the guard on closed
-- cases is never the one that refuses.
pub assert_case_transition_allowed_errors :
    (c : CaseDoc) (next : CaseStatus) (context : Context) (e : Error)
    → assert_case_transition_allowed c next context ≡ err e
    → ((e ≡ invalid_transition) × (get_case_transition c.status next ≡ none))
      ⊎ ((t : Transition) × (get_case_transition c.status next ≡ some t)
          × (((e ≡ reason_missing) × (t.reason_required ≡ true) × (has_reason context ≡ false))
              ⊎ ((e ≡ actor_not_allowed)
                  × (can_actor_perform_transition context.actor t context ≡ false))))
unfolding assert_case_transition_allowed ensure_reason_if_required
assert_case_transition_allowed_errors c next context e h =
    elim (Option-cases (get_case_transition c.status next)) [
      | inl missing ↦ inl (ground arith, missing)
      | inr (u, found) ↦ inr (u, found, ground (arith, closed_only_reopens c.status next found))
    ]

-- The check of `canTransitionCase` agrees with the assertion, but for the reason.
pub can_transition_case_iff :
    (c : CaseDoc) (next : CaseStatus) (context : Context)
    → (can_transition_case (some c) next context ≡ true) ↔ (
        (t : Transition) × (get_case_transition c.status next ≡ some t)
        × (can_actor_perform_transition context.actor t context ≡ true))
unfolding can_transition_case
can_transition_case_iff c next context = elim (Option-cases (get_case_transition c.status next)) [
  | inl missing ↦ (λ h. ground arith, λ w. ground arith)
  | inr (u, found) ↦ (
    λ h. (u, found, ground (arith, closed_only_reopens c.status next found)),
    λ w. ground (arith, closed_only_reopens c.status next found),
  )
]

has_permission : Option Transition → Bool
has_permission none = true
has_permission (some t) = not (str_eq t.permission "")

table_has_permission :
    all
      (λ a. all (λ b. has_permission (get_case_transition a b)) case_status_values)
      case_status_values
    ≡ true
unfolding get_case_transition has_permission case_status_values
table_has_permission = refl

every_has_permission : (a b : CaseStatus) → has_permission (get_case_transition a b) ≡ true
every_has_permission a =
    case_status_values_complete (λ b. has_permission (get_case_transition a b))
      (case_status_values_complete
        (λ c. all (λ b. has_permission (get_case_transition c b)) case_status_values)
        table_has_permission a)

permission_of :
    (o : Option Transition) {t : Transition}
    → has_permission o ≡ true
    → o ≡ some t
    → str_eq t.permission "" ≡ false
unfolding has_permission
permission_of none h e = cc
permission_of (some u) h e = ground arith

-- What the source asks of an actor for a permission that is not empty.
abbrev pub MayUse : Option Actor → String → Type 0
MayUse actor permission =
    (a : Actor) × (actor ≡ some a)
    × ((has_role a Roles.admin ≡ true)
        ⊎ ((has_role a Roles.system ≡ true) ⊎ (includes a.permissions permission ≡ true)))

MayUse-of_permission :
    (actor : Option Actor) (permission : String)
    → str_eq permission "" ≡ false
    → has_required_permission actor permission ≡ true
    → MayUse actor permission
unfolding has_required_permission
MayUse-of_permission none p n h = ground arith
MayUse-of_permission (some a) p n h = (a, refl, ground arith)

MayUse-of_system :
    (actor : Option Actor) (permission : String) → is_system actor ≡ true → MayUse actor permission
MayUse-of_system none p h = cc
MayUse-of_system (some a) p h = (a, refl, ground arith)

MayUse-of_can :
    (actor : Option Actor) (t : Transition) (context : Context)
    → str_eq t.permission "" ≡ false
    → can_actor_perform_transition actor t context ≡ true
    → MayUse actor (if context.override then Permissions.case_update else t.permission)
unfolding can_actor_perform_transition
MayUse-of_can actor t context n h = elim (Bool-cases context.override) [
  | inl forced ↦ rw forced (MayUse-of_permission actor Permissions.case_update refl (ground arith))
  | inr plain ↦ rw plain (elim (Bool-cases (has_required_permission actor t.permission)) [
    | inl held ↦ MayUse-of_permission actor t.permission n held
    | inr other ↦ MayUse-of_system actor t.permission (ground arith)
  ])
]

-- Nobody moves a case without a right to: behind every accepted transition there is an actor who is an
-- administrator or the system, or who holds the permission of the entry, or, with an override, the
-- permission to update cases.
pub case_transition_needs_right :
    (c : CaseDoc) (next : CaseStatus) (context : Context) (t : Transition)
    → assert_case_transition_allowed c next context ≡ ok t
    → MayUse context.actor (if context.override then Permissions.case_update else t.permission)
case_transition_needs_right c next context t h =
    let (found, given, allowed) = (assert_case_transition_allowed_iff c next context t).0 h in
    MayUse-of_can context.actor t context
      (permission_of (get_case_transition c.status next) (every_has_permission c.status next) found)
      allowed
