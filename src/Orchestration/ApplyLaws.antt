-- ===== src/Orchestration/ApplyLaws.antt =====
-- What a transition leaves in the documents.
use udyog_setu.Common.{
  ℕ, suc, all, subst, Option, none, some, Bool, true, false, not, ◌||◌, List, [], ◌∷◌, ◌++◌, any,
  keep, length, is_empty, ◌≡◌, inl, inr, refl, arith, Bool-cases,
}
use udyog_setu.Vocabulary.CaseStatuses.{CaseStatus, case_status_values, case_status_values_complete}
use udyog_setu.Vocabulary.CaseStatuses
use udyog_setu.Vocabulary.TaskStatuses.{TaskStatus}
use udyog_setu.Workflow.Transition.{Transition}
use udyog_setu.Workflow.CaseMachine.{get_case_transition}
use udyog_setu.Workflow.Documents.{Payload, Context, CaseDoc, TaskDoc, Query}
use udyog_setu.Workflow.Guards.{is_open}
use udyog_setu.Orchestration.Apply.{
  answer_last_open, raised_query, apply_case_transition, apply_task_transition, validate_case,
  actor_id,
}

any-append_true :
    (q : Query) (qs : List Query) → is_open q ≡ true → any is_open (qs ++ q ∷ []) ≡ true
any-append_true q [] h = ground arith
any-append_true q (r ∷ qs) h = ground (arith, any-append_true q qs h)

abbrev answered : Option ℕ → ℕ → Query → Query
answered by now q = record q { responded_by = by; responded_at = some now; status = "answered" }

answer_last_open-append :
    (by : Option ℕ) (now : ℕ) (q : Query) (qs : List Query)
    → is_open q ≡ true
    → answer_last_open by now (qs ++ q ∷ []) ≡ qs ++ answered by now q ∷ []
unfolding answer_last_open
answer_last_open-append by now q [] h = ground arith
answer_last_open-append by now q (r ∷ qs) h =
    ground (arith, any-append_true q qs h, answer_last_open-append by now q qs h)

-- A response that follows a query answers that query and leaves the older ones as they were, open ones
-- included.
pub response_answers_the_query :
    (now later : ℕ) (payload reply : Payload) (officer investor : Context) (t : TaskDoc)
    → (apply_task_transition later TaskStatus.response_received reply investor
        (apply_task_transition now TaskStatus.query_raised payload officer t)).query_thread
      ≡ t.query_thread
        ++ record (raised_query now payload officer) {
          responded_by = actor_id investor;
          responded_at = some later;
          status = "answered";
        }
          ∷ []
unfolding apply_task_transition raised_query
response_answers_the_query now later payload reply officer investor t =
    answer_last_open-append (actor_id investor) later (raised_query now payload officer)
      t.query_thread refl

none_open : (qs : List Query) → any is_open qs ≡ false → keep is_open qs ≡ []
none_open [] h = refl
none_open (q ∷ qs) h = ground (arith, none_open qs)

-- A response closes exactly one open query where there is one, and adds or drops none.
pub answer_last_open-closes_one :
    (by : Option ℕ) (now : ℕ) (qs : List Query)
    → any is_open qs ≡ true
    → (length (keep is_open qs) ≡ suc (length (keep is_open (answer_last_open by now qs))))
      × (length (answer_last_open by now qs) ≡ length qs)
unfolding answer_last_open
answer_last_open-closes_one by now [] h = ground arith
answer_last_open-closes_one by now (q ∷ qs) h = elim (Bool-cases (any is_open qs)) [
  | inl older ↦ let (closed, whole) = answer_last_open-closes_one by now qs older in ground arith
  | inr last ↦ ground (arith, none_open qs last)
]

leaves_draft : Option Transition → CaseStatus → CaseStatus → Bool
leaves_draft none a b = true
leaves_draft (some t) a b =
    CaseStatuses.one_of (CaseStatus.submitted ∷ CaseStatus.withdrawn ∷ []) b
    || not (CaseStatuses.one_of (CaseStatus.draft ∷ CaseStatus.withdrawn ∷ []) a)

table_leaves_draft :
    all
      (λ a. all (λ b. leaves_draft (get_case_transition a b) a b) case_status_values)
      case_status_values
    ≡ true
unfolding get_case_transition leaves_draft case_status_values
table_leaves_draft = refl

leaves_draft_of :
    (a b : CaseStatus) (t : Transition)
    → get_case_transition a b ≡ some t
    → leaves_draft (some t) a b ≡ true
leaves_draft_of a b t found =
    subst (λ o. leaves_draft o a b ≡ true) found
      (case_status_values_complete (λ c. leaves_draft (get_case_transition a c) a c)
        (case_status_values_complete
          (λ d. all (λ c. leaves_draft (get_case_transition d c) d c) case_status_values)
          table_leaves_draft a)
        b)

-- Along the transition table, a case that the schema accepts and that requires a department is accepted
-- again after the transition.
pub case_stays_valid :
    (now : ℕ) (c : CaseDoc) (next : CaseStatus) (payload : Payload) (t : Transition)
    → get_case_transition c.status next ≡ some t
    → validate_case c ≡ true
    → is_empty c.required_departments ≡ false
    → validate_case (apply_case_transition now next payload c) ≡ true
unfolding validate_case apply_case_transition leaves_draft
case_stays_valid now c next payload t found valid departments =
    ground (arith, leaves_draft_of c.status next t found)
