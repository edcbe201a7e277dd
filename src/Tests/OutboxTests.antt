-- ===== src/Tests/OutboxTests.antt =====
-- The outbox publisher at an outbox with one row.
use udyog_setu.Common.{
  some, none, true, [], ◌∷◌, ◌≡◌, refl, arith, subst, Bool-cases, inl, inr, ◌==◌,
}
use udyog_setu.Store.{Collection, logged}
use udyog_setu.Outbox.Rows.{
  Row, row_id, PublishStatus, pending, is_waiting, failed, find_pending_for_publish, in_order,
  limit, mark_publishing, mark_failed, locked_row, failed_row, published_row,
  unlock_stale_publishing_locks, unlock_all,
}
use udyog_setu.Outbox.Publisher.{
  Settings, Kafka, accepted, refused, retry_delay, publish_one, ticks, tick, publish_pending_batch,
  recover_stale_locks, publish_rows, calculate_next_retry,
}
use udyog_setu.Outbox.PublishLaws.{Within, ticks-Within, within}
use udyog_setu.Outbox.LateLaws.{after_quick, after_slow, row_of_quick, late_failure_reopens}

abbrev settings : Settings
settings = record {
  base_delay = 1000;
  max_delay = 60000;
  max_attempts = 10;
  batch_size = 50;
  lock_timeout = 30000;
  worker = "host:1";
}

-- A broker that is down.
abbrev down : Kafka
down = record { publish = λ r. refused "no broker"; dead_letter = λ r. true }

abbrev row_at : PublishStatus → Row
row_at s = record {
  event_id = 2;
  event_name = "case.submitted.v1";
  publish_status = s;
  publish_attempts = 0;
  next_publish_at = 5;
  published_at = none;
  failure_reason = none;
  locked_at = none;
  locked_by = none;
  created_at = 5;
}

abbrev Rows : Collection Row row_id
Rows = logged Row row_id

Within-one : Within Rows settings down (row_at pending ∷ [])
Within-one k r found = elim (Bool-cases (2 == k)) [
  | inl same ↦
      let this : row_at pending ≡ r = ground arith in subst (λ x. within 10 x ≡ true) this refl
  | inr other ↦ absurd (ground arith)
]

abbrev retried : Row
retried = record (row_at failed) {
  publish_attempts = 2;
  next_publish_at = 7000;
  failure_reason = some "no broker";
}

ticks-Within_example : within settings.max_attempts retried ≡ true
unfolding ticks tick publish_pending_batch recover_stale_locks publish_rows publish_one
    find_pending_for_publish in_order limit mark_publishing mark_failed locked_row failed_row
    unlock_stale_publishing_locks unlock_all calculate_next_retry retry_delay
ticks-Within_example =
    ticks-Within Rows settings down (10 ∷ 5000 ∷ []) (row_at pending ∷ []) Within-one 2 retried refl

abbrev quick : Kafka
quick = record { publish = λ r. accepted; dead_letter = λ r. true }

late_failure_reopens_example :
    (Rows.get 2 (
        after_quick Rows settings down quick "host:1" "host:2" 10 40000 40010 2
          (row_at pending)
          (row_at pending ∷ []))
      ≡ some (
          published_row 40010 (
            row_of_quick Rows settings down quick "host:1" "host:2" 10 40000 40010
              (row_at pending))))
    × ((u : Row) × (Rows.get 2 (
            after_slow Rows settings down quick "host:1" "host:2" 10 40000 40010 40020 2
              (row_at pending)
              (row_at pending ∷ []))
          ≡ some u)
        × (is_waiting u ≡ true)
        × (u.published_at ≡ some 40010))
late_failure_reopens_example =
    late_failure_reopens Rows settings down quick "host:1" "host:2" 10 40000 40010 40020 2
      (row_at pending) "no broker" (row_at pending ∷ []) refl refl refl refl (omega arith)
