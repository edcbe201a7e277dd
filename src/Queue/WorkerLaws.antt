-- ===== src/Queue/WorkerLaws.antt =====
-- How a delivery is answered, and when retries end.
use udyog_setu.Common.{
  ℕ, suc, none, true, Option, ◌||◌, List, [], ◌∷◌, ◌≡◌, refl, inl, inr, Option-cases, Bool-cases,
}
use udyog_setu.Store.{Collection}
use udyog_setu.Queue.Jobs.{QueueError, Message, Job, job_id, begin_message, Begun-cases}
use udyog_setu.Queue.Worker.{
  Settings, Sent, acked, requeued, retried, dead, handled, Delivery, malformed, invalid, valid,
  should_retry, is_fatal, mark_poison_if_needed, World, schedule_retry, send_to_dead_letter,
  recover, process, handle_message, acknowledge, Broker, Monitored, received, processed,
}

-- The acknowledgements, of either kind.
abbrev pub answers : List Sent → ℕ
answers [] = 0
answers (acked ∷ es) = suc (answers es)
answers (requeued ∷ es) = suc (answers es)
answers (retried m d ∷ es) = answers es
answers (dead id r ∷ es) = answers es
answers (handled id ∷ es) = answers es

module _ (settings : Settings) (broker : Broker) (handler : Message → Option QueueError)
    (J : Collection Job job_id) where
  -- All publications succeed.
  pub record IsUp : Type 0 where
    pub retries : (m : Message) → broker.takes_retry m ≡ true
    pub dead_letters : (id : ℕ) → broker.takes_dead id ≡ true
    pub monitoring : (k : Monitored) → broker.monitor k ≡ none

  recover-answers :
      (now jitter : ℕ) (m : Message) (e : QueueError) (w : World J)
      → IsUp
      → answers (recover settings broker handler J now jitter m e w).0.sent ≡ suc (answers w.sent)
  unfolding recover send_to_dead_letter schedule_retry
  recover-answers now jitter m e w up =
      elim (Bool-cases (is_fatal e.class || mark_poison_if_needed settings m e)) [
        | inl over ↦ rw (over, up.dead_letters m.message_id) refl
        | inr more ↦ elim (Bool-cases (should_retry settings e m)) [
          | inl again ↦ rw (more, again, up.retries m) refl
          | inr never ↦ rw (more, never) refl
        ]
      ]

  process-answers :
      (now jitter : ℕ) (m : Message) (w : World J)
      → IsUp
      → answers (process settings broker handler J now jitter m w).0.sent ≡ suc (answers w.sent)
  unfolding process acknowledge
  process-answers now jitter m w up =
      elim (Begun-cases J (begin_message J now settings.lock_timeout settings.worker_id m w.jobs)) [
        | inl held ↦ rw (held, process, acknowledge, up.monitoring processed) refl
        | inr (s, begun) ↦ elim (Option-cases (handler m)) [
          | inl fine ↦ rw (begun, process, fine, acknowledge, up.monitoring processed) refl
          | inr (e, thrown) ↦ rw (begun, process, thrown) (recover-answers now jitter m e _ up)
        ]
      ]

  -- While all publications succeed and the database does not fail, every delivery, whatever it holds and whatever its handler does, is
  -- answered exactly once: it is acknowledged or put back.
  pub one_answer_per_delivery :
      (now jitter : ℕ) (d : Delivery) (w : World J)
      → IsUp
      → answers (handle_message settings broker handler J now jitter d w).0.sent
        ≡ suc (answers w.sent)
  unfolding handle_message send_to_dead_letter
  one_answer_per_delivery now jitter (malformed id) w up = rw (up.dead_letters id) refl
  one_answer_per_delivery now jitter (invalid m) w up = recover-answers now jitter m _ w up
  one_answer_per_delivery now jitter (valid m) w up =
      rw (up.monitoring received, handle_message) (process-answers now jitter m _ up)
