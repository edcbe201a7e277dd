-- ===== src/Tests/EventTests.antt =====
-- The consumers at concrete events.
use mathlib.Core.Bool.{true≢false}
use udyog_setu.Common.{Option, none, [], ◌∷◌, ◌+◌, ◌≡◌, refl, ap, sym, is_some, length}
use udyog_setu.Store.{logged}
use udyog_setu.Events.Ledger.{Entry, entry_id, begin_processing}
use udyog_setu.Events.Consumer.{Envelope, World, HandlerError, with_idempotency, skipped}
use udyog_setu.Events.OnceLaws.{event_is_handled_once, deliver, replayed_event_runs_every_time}

abbrev event : Envelope
event = record { id = "e1"; type = "case.approved.v1"; correlation_id = none }

abbrev fine : Envelope → Option HandlerError
fine e = none

abbrev nothing_yet : World (logged Entry entry_id)
nothing_yet = record { entries = []; acts = [] }

event_is_handled_once_example :
    let after =
      (with_idempotency fine
        (logged Entry entry_id)
        10
        300000
        1
        "notify"
        "mail"
        event
        nothing_yet).0 in
    with_idempotency fine (logged Entry entry_id) 20 300000 2 "notify" "mail" event after
    ≡ (after, skipped)
unfolding with_idempotency begin_processing
event_is_handled_once_example =
    event_is_handled_once fine (logged Entry entry_id) 10 20 300000 1 2 "notify" "mail" event
      nothing_yet (λ d e stored. absurd (true≢false (ap is_some (sym stored)))) refl refl

replayed_event_runs_every_time_example :
    let after = deliver fine (logged Entry entry_id) "project" event (1 ∷ 2 ∷ 3 ∷ []) nothing_yet in
    (length after.acts ≡ 3 + 0) × (after.entries ≡ [])
replayed_event_runs_every_time_example =
    replayed_event_runs_every_time fine (logged Entry entry_id) "project" event (1 ∷ 2 ∷ 3 ∷ [])
      nothing_yet refl
