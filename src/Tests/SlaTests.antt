-- ===== src/Tests/SlaTests.antt =====
-- The SLA service at a store with one timer.
use udyog_setu.Common.{
  some, true, List, [], ◌∷◌, ◌≡◌, refl, subst, arith, Bool-cases, inl, inr, ◌==◌,
}
use udyog_setu.Vocabulary.CaseStatuses.{CaseStatus}
use udyog_setu.Vocabulary.TaskStatuses.{TaskStatus}
use udyog_setu.Vocabulary.TimerStatuses.{TimerStatus}
use udyog_setu.Store.{Collection, logged}
use udyog_setu.Workflow.Errors.{err, validation_failed}
use udyog_setu.Sla.Timer.{Timer, timer_id, validate_timer}
use udyog_setu.Sla.Clocks.{Clocks, of_case, evaluate_sla_timers, start_case_sla, start_task_sla}
use udyog_setu.Sla.Graph.{Reach, Stored, EscalatedOnce, IsFresh}
use udyog_setu.Sla.Service.{Call, pause, resume, evaluate, answer_all}
use udyog_setu.Sla.Laws.{
  answer_all-Reach, escalated_at_most_once, ended_timers_stay, case_and_task_timers_never_start,
}
use udyog_setu.Sla.Sweeps.{breached_timer, evaluate_sla_timers-leaves_none_overdue}
use udyog_setu.Tests.Samples.{case_at, task_at, timer_at}

abbrev pub Timers : Collection Timer timer_id
Timers = logged Timer timer_id

abbrev pub store_of : TimerStatus → Clocks Timers
store_of s = record { timers = timer_at s ∷ []; next_id = 5; outbox = [] }

abbrev calls : List Call
calls = pause 30 (of_case 7) "query_raised" ∷ resume 40 (of_case 7) ∷ evaluate 1000 ∷ []

only_timer : (P : Timer → Type 0) (s : TimerStatus) → P (timer_at s) → Stored Timers P (store_of s)
only_timer P s p k t found = elim (Bool-cases (4 == k)) [
  | inl same ↦ let this : timer_at s ≡ t = ground arith in subst P this p
  | inr other ↦ absurd (ground arith)
]

fresh : (s : TimerStatus) → IsFresh Timers (store_of s)
fresh s k t found = elim (Bool-cases (4 == k)) [
  | inl same ↦ ground arith
  | inr other ↦ absurd (ground arith)
]

answer_all-Reach_example :
    Reach Timers
      (store_of TimerStatus.running)
      (answer_all Timers calls (store_of TimerStatus.running))
answer_all-Reach_example = answer_all-Reach Timers calls (store_of TimerStatus.running)

escalated_at_most_once_example :
    Stored Timers EscalatedOnce (answer_all Timers calls (store_of TimerStatus.running))
escalated_at_most_once_example =
    escalated_at_most_once Timers calls (store_of TimerStatus.running) (
      only_timer EscalatedOnce TimerStatus.running
        (record { at_most_once = omega arith; none_before = λ h. refl }))

ended_timers_stay_example :
    Timers.get 4 (answer_all Timers calls (store_of TimerStatus.completed)).timers
    ≡ some (timer_at TimerStatus.completed)
ended_timers_stay_example =
    ended_timers_stay Timers calls (store_of TimerStatus.completed) 4
      (timer_at TimerStatus.completed) (fresh TimerStatus.completed) refl refl

evaluate_sla_timers-leaves_none_overdue_example :
    breached_timer
      (Timers.get 4 (evaluate_sla_timers Timers 950 (store_of TimerStatus.running)).0.timers)
    ≡ true
evaluate_sla_timers-leaves_none_overdue_example =
    evaluate_sla_timers-leaves_none_overdue Timers 950 (store_of TimerStatus.running)
      (timer_at TimerStatus.running) refl refl refl (omega arith)

pub valid_store : Stored Timers (λ u. validate_timer u ≡ true) (store_of TimerStatus.running)
unfolding validate_timer
valid_store = only_timer (λ u. validate_timer u ≡ true) TimerStatus.running refl

case_and_task_timers_never_start_example :
    (start_case_sla Timers 80 20
        (case_at CaseStatus.submitted)
        (answer_all Timers calls (store_of TimerStatus.running))
      ≡ err (validation_failed "SlaTimer"))
    × (start_task_sla Timers 80
          (task_at TaskStatus.assigned)
          (answer_all Timers calls (store_of TimerStatus.running))
        ≡ err (validation_failed "SlaTimer"))
case_and_task_timers_never_start_example =
    case_and_task_timers_never_start Timers 80 20 (case_at CaseStatus.submitted)
      (task_at TaskStatus.assigned) calls (store_of TimerStatus.running) valid_store
