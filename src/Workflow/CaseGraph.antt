-- ===== src/Workflow/CaseGraph.antt =====
-- The graph of the case transitions.
use udyog_setu.Common.{
  Option, none, some, Bool, true, false, ◌≡◌, refl, ◌≢◌, String, str_eq, arith, if◌then◌else◌, all,
  Option-cases, inl, inr,
}
use mathlib.Core.Bool.{false≢true}
use udyog_setu.Vocabulary.CaseStatuses.{CaseStatus, case_status_values, case_status_values_complete}
use udyog_setu.Vocabulary.CaseStatuses
use udyog_setu.Vocabulary.EventNames
use udyog_setu.Workflow.Transition.{Transition}
use udyog_setu.Workflow.CaseMachine.{get_case_transition}

-- A path of allowed transitions.
pub data CaseReach : CaseStatus → CaseStatus → Type 0 where
  here : {s : CaseStatus} → CaseReach s s
  next :
      {s u : CaseStatus} (t : CaseStatus) (e : Transition)
      → get_case_transition s t ≡ some e
      → CaseReach t u
      → CaseReach s u

step :
    {s u : CaseStatus} (t : CaseStatus) {e : Transition}
    → get_case_transition s t ≡ some e
    → CaseReach t u
    → CaseReach s u
step t {e} p r = next t e p r

from_certificate : CaseReach CaseStatus.certificate_issued CaseStatus.closed
unfolding get_case_transition
from_certificate = step CaseStatus.closed refl here

from_approved : CaseReach CaseStatus.approved CaseStatus.closed
unfolding get_case_transition
from_approved = step CaseStatus.certificate_issued refl from_certificate

from_scrutiny : CaseReach CaseStatus.under_scrutiny CaseStatus.closed
unfolding get_case_transition
from_scrutiny = step CaseStatus.approved refl from_approved

-- Every status but `withdrawn` has a path of allowed transitions to `closed`.
pub reach_closed : (s : CaseStatus) → s ≢ CaseStatus.withdrawn → CaseReach s CaseStatus.closed
unfolding get_case_transition
reach_closed CaseStatus.draft h =
    step CaseStatus.submitted refl (step CaseStatus.under_scrutiny refl from_scrutiny)
reach_closed CaseStatus.submitted h = step CaseStatus.under_scrutiny refl from_scrutiny
reach_closed CaseStatus.under_scrutiny h = from_scrutiny
reach_closed CaseStatus.query_raised h =
    step CaseStatus.response_submitted refl (step CaseStatus.under_scrutiny refl from_scrutiny)
reach_closed CaseStatus.response_submitted h = step CaseStatus.under_scrutiny refl from_scrutiny
reach_closed CaseStatus.inspection_scheduled h =
    step CaseStatus.inspection_completed refl (step CaseStatus.approved refl from_approved)
reach_closed CaseStatus.inspection_completed h = step CaseStatus.approved refl from_approved
reach_closed CaseStatus.fee_demanded h =
    step CaseStatus.fee_paid refl (step CaseStatus.under_scrutiny refl from_scrutiny)
reach_closed CaseStatus.fee_paid h = step CaseStatus.under_scrutiny refl from_scrutiny
reach_closed CaseStatus.approved h = from_approved
reach_closed CaseStatus.rejected h =
    step CaseStatus.reopened refl (step CaseStatus.under_scrutiny refl from_scrutiny)
reach_closed CaseStatus.certificate_issued h = from_certificate
reach_closed CaseStatus.amendment_requested h =
    step CaseStatus.amended refl (step CaseStatus.under_scrutiny refl from_scrutiny)
reach_closed CaseStatus.amended h = step CaseStatus.under_scrutiny refl from_scrutiny
reach_closed CaseStatus.closed h = here
reach_closed CaseStatus.reopened h = step CaseStatus.under_scrutiny refl from_scrutiny
reach_closed CaseStatus.withdrawn h = absurd (h refl)

-- The status that an event of the table announces.
unfoldable pub announced : String → Option CaseStatus
announced name =
    if str_eq name EventNames.case_submitted
    then some CaseStatus.submitted
    else if str_eq name EventNames.case_withdrawn
    then some CaseStatus.withdrawn
    else if str_eq name EventNames.case_scrutiny_started
    then some CaseStatus.under_scrutiny
    else if str_eq name EventNames.case_query_raised
    then some CaseStatus.query_raised
    else if str_eq name EventNames.case_response_submitted
    then some CaseStatus.response_submitted
    else if str_eq name EventNames.case_inspection_scheduled
    then some CaseStatus.inspection_scheduled
    else if str_eq name EventNames.case_inspection_completed
    then some CaseStatus.inspection_completed
    else if str_eq name EventNames.case_fee_demanded
    then some CaseStatus.fee_demanded
    else if str_eq name EventNames.case_fee_paid
    then some CaseStatus.fee_paid
    else if str_eq name EventNames.case_approved
    then some CaseStatus.approved
    else if str_eq name EventNames.case_rejected
    then some CaseStatus.rejected
    else if str_eq name EventNames.case_certificate_issued
    then some CaseStatus.certificate_issued
    else if str_eq name EventNames.case_closed
    then some CaseStatus.closed
    else if str_eq name EventNames.case_reopened
    then some CaseStatus.reopened
    else if str_eq name EventNames.case_amendment_requested
    then some CaseStatus.amendment_requested
    else if str_eq name EventNames.case_amended
    then some CaseStatus.amended
    else none

is_announced : Option Transition → CaseStatus → Bool
is_announced none b = true
is_announced (some t) b = elim (announced t.event_name) [
  | none ↦ false
  | some s ↦ CaseStatuses.same s b
]

table_announces :
    all
      (λ a. all (λ b. is_announced (get_case_transition a b) b) case_status_values)
      case_status_values
    ≡ true
unfolding get_case_transition is_announced announced case_status_values
table_announces = refl

every_announces : (a b : CaseStatus) → is_announced (get_case_transition a b) b ≡ true
every_announces a =
    case_status_values_complete (λ b. is_announced (get_case_transition a b) b)
      (case_status_values_complete
        (λ c. all (λ b. is_announced (get_case_transition c b) b) case_status_values)
        table_announces a)

announces_of :
    (o : Option Transition) (b : CaseStatus) {t : Transition}
    → is_announced o b ≡ true
    → o ≡ some t
    → announced t.event_name ≡ some b
unfolding is_announced
announces_of none b h e = cc
announces_of (some u) b h e = elim (Option-cases (announced u.event_name)) [
  | inl missing ↦ absurd (false≢true (rw (missing, is_announced) at h))
  | inr (s, found) ↦ ground (arith, CaseStatuses.same_sound s b)
]

-- The event name of an entry determines the status that the entry leads to, whatever the status it
-- starts from: two entries with one event name lead to one status.
pub event_name_determines_status :
    (a b c d : CaseStatus) (t u : Transition)
    → get_case_transition a b ≡ some t
    → get_case_transition c d ≡ some u
    → t.event_name ≡ u.event_name
    → b ≡ d
event_name_determines_status a b c d t u p q same_name =
    let here = announces_of (get_case_transition a b) b (every_announces a b) p in
    let there = announces_of (get_case_transition c d) d (every_announces c d) q in cc (here, there)
