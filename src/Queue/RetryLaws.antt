-- ===== src/Queue/RetryLaws.antt =====
-- When retries end.
use udyog_setu.Common.{
  ℕ, suc, Option, none, some, false, ◌||◌, List, [], ◌∷◌, ◌≡◌, ◌≤◌, ◌⊎◌, ◌-◌, refl, subst, sym, ap,
  ◌∙◌, inl, inr, Option-cases, Bool-cases, str_eq, ltb, arith, length,
}
use udyog_setu.Store.{Collection}
use udyog_setu.Queue.Jobs.{
  ErrorClass, validation, non_retryable, poison, other, QueueError, Message, Job, job_id, number_or,
  signature, create_or_update_from_message, begin_message, Begun-cases, mark_failed,
}
use udyog_setu.Queue.Worker.{
  Settings, Sent, acked, requeued, retried, handled, valid, calculate_backoff_delay,
  increment_attempt, is_false, should_retry, is_fatal, is_poison, mark_poison_if_needed, Outcome,
  skip_message, process_message, retry_message, requeue_message, World, send, schedule_retry,
  send_to_dead_letter, recover, process, handle_message, acknowledge, Broker, Monitored, received,
  processed, with_jobs,
}

not_poison : (c : ErrorClass) → is_fatal c ≡ false → is_poison c ≡ false
not_poison validation h = refl
not_poison non_retryable h = refl
not_poison poison h = ground arith
not_poison other h = refl

module _ (settings : Settings) (broker : Broker) (handler : Message → Option QueueError)
    (J : Collection Job job_id) where
  -- What ends the handling of a valid message: it is skipped, processed, or recovered from an error.
  Ends : ℕ → ℕ → Message → World J × Outcome → Type 0
  Ends now jitter m r =
      (r.1 ≡ skip_message)
      ⊎ (r.1 ≡ process_message)
      ⊎ ((e : QueueError) × (w : World J) × (r
            ≡ recover settings broker handler J now jitter m e w))

  acknowledge-Ends :
      (now jitter : ℕ) (m : Message) (outcome : Outcome) (w : World J)
      → (outcome ≡ skip_message) ⊎ (outcome ≡ process_message)
      → Ends now jitter m (acknowledge settings broker handler J now jitter m outcome w)
  unfolding acknowledge Ends
  acknowledge-Ends now jitter m outcome w which = elim (Option-cases (broker.monitor processed)) [
    | inl fine ↦ elim which [
      | inl skip ↦ inl (rw (fine, acknowledge) skip)
      | inr done ↦ inr (inl (rw (fine, acknowledge) done))
    ]
    | inr (e, thrown) ↦ inr (inr (e, send J acked w, rw (thrown, acknowledge) refl))
  ]

  process-Ends :
      (now jitter : ℕ) (m : Message) (w : World J)
      → Ends now jitter m (process settings broker handler J now jitter m w)
  unfolding process Ends
  process-Ends now jitter m w =
      elim (Begun-cases J (begin_message J now settings.lock_timeout settings.worker_id m w.jobs)) [
        | inl held ↦ rw (held, process) (acknowledge-Ends now jitter m skip_message w (inl refl))
        | inr (s, begun) ↦ elim (Option-cases (handler m)) [
          | inl fine ↦
              rw (begun, process, fine) (acknowledge-Ends now jitter m process_message _ (inr refl))
          | inr (e, thrown) ↦
              let failed_world : World J = record {
                jobs = mark_failed J m.message_id e s;
                sent = handled m.message_id ∷ w.sent;
              } in
              inr (inr (e, failed_world, rw (begun, process, thrown) refl))
        ]
      ]

  handle_message-Ends :
      (now jitter : ℕ) (m : Message) (w : World J)
      → Ends now jitter m (handle_message settings broker handler J now jitter (valid m) w)
  unfolding handle_message Ends
  handle_message-Ends now jitter m w = elim (Option-cases (broker.monitor received)) [
    | inl fine ↦ rw (fine, handle_message) (process-Ends now jitter m _)
    | inr (e, thrown) ↦ inr (
        inr (
          e,
          with_jobs J w (create_or_update_from_message J now m w.jobs),
          rw (thrown, handle_message) refl,
        ))
  ]

  -- What a retry publishes before it acknowledges the message.
  abbrev pub Retry : Message → World J → Type 0
  Retry m w =
      (next : Message) × (delay : ℕ) × (before : List Sent) × (w.sent
        ≡ acked ∷ retried next delay ∷ before)
      × (next.message_id ≡ m.message_id)
      × (next.idempotency_key ≡ m.idempotency_key)
      × (next.max_attempts ≡ m.max_attempts)
      × (next.attempt ≡ suc m.attempt)
      × (next.attempt ≤ number_or m.max_attempts settings.max_attempts)
      × (delay ≤ settings.max_delay)

  recover-Retry :
      (now jitter : ℕ) (m : Message) (e : QueueError) (w : World J)
      → (recover settings broker handler J now jitter m e w).1 ≡ retry_message
      → Retry m (recover settings broker handler J now jitter m e w).0
  unfolding recover send_to_dead_letter schedule_retry increment_attempt calculate_backoff_delay
      should_retry
  recover-Retry now jitter m e w h =
      elim (Bool-cases (is_fatal e.class || mark_poison_if_needed settings m e)) [
        | inl over ↦ elim (Bool-cases (broker.takes_dead m.message_id)) [
          | inl taken ↦ ground (arith, (rw (over, taken) at h))
          | inr lost ↦ ground (arith, (rw (over, lost) at h))
        ]
        | inr more ↦ elim (Bool-cases (should_retry settings e m)) [
          | inl again ↦ elim (Bool-cases (broker.takes_retry m)) [
            | inr lost ↦ ground (arith, (rw (more, again, lost) at h))
            | inl taken ↦
                let early : suc m.attempt ≤ number_or m.max_attempts settings.max_attempts =
                  ground (arith, again) in
                rw (more, again, taken)
                  (
                    _,
                    _,
                    w.sent,
                    refl,
                    refl,
                    refl,
                    refl,
                    omega arith,
                    omega (arith, early),
                    omega arith,
                  )
          ]
          | inr never ↦ ground (arith, (rw (more, never) at h))
        ]
      ]

  -- A retry repeats the message with one attempt more, at most as many as the message, or else the
  -- configuration, allows, and after a delay of at most the maximum.
  pub retries_are_bounded :
      (now jitter : ℕ) (m : Message) (w : World J)
      → (handle_message settings broker handler J now jitter (valid m) w).1 ≡ retry_message
      → Retry m (handle_message settings broker handler J now jitter (valid m) w).0
  unfolding Ends
  retries_are_bounded now jitter m w h = elim (handle_message-Ends now jitter m w) [
    | inl skip ↦ ground (arith, sym skip ∙ h)
    | inr rest ↦ elim rest [
      | inl fine ↦ ground (arith, sym fine ∙ h)
      | inr (e, v, same) ↦
          subst (λ r. Retry m r.0) (sym same)
            (recover-Retry now jitter m e v (ap (λ r. r.1) (sym same) ∙ h))
    ]
  ]

  -- The worker publishes this message as the retry of another.
  abbrev pub RetryOf : Message → Message → Type 0
  RetryOf m next =
      (now : ℕ) × (jitter : ℕ) × (w : World J) × (delay : ℕ) × (before : List Sent)
      × ((handle_message settings broker handler J now jitter (valid m) w).1 ≡ retry_message)
      × ((handle_message settings broker handler J now jitter (valid m) w).0.sent
          ≡ acked ∷ retried next delay ∷ before)

  abbrev pub Chain : Message → List Message → Type 0
  Chain m [] = Unit
  Chain m (next ∷ rest) = RetryOf m next × Chain next rest

  retried_of : Message → List Sent → Message
  retried_of m (acked ∷ retried next delay ∷ before) = next
  retried_of m es = m

  RetryOf-attempt :
      (m next : Message)
      → RetryOf m next
      → (next.max_attempts ≡ m.max_attempts)
        × (next.attempt ≡ suc m.attempt)
        × (next.attempt ≤ number_or m.max_attempts settings.max_attempts)
  unfolding retried_of
  RetryOf-attempt m next (now, jitter, w, delay, before, retry, sent) =
      let (n, d, b, sent', id, key, max, count, bound, late) =
        retries_are_bounded now jitter m w retry in
      let same : n ≡ next = ap (retried_of m) (sym sent' ∙ sent) in
      rw (sym same) (max, count, bound)

  -- Retries end: a message is retried at most as many times as it has attempts left, whatever happens
  -- between the deliveries.
  pub retries_end :
      (m : Message) (chain : List Message)
      → Chain m chain
      → length chain ≤ number_or m.max_attempts settings.max_attempts - m.attempt
  retries_end m [] h = omega arith
  retries_end m (next ∷ rest) h =
      let step = RetryOf-attempt m next h.0 in
      let more = retries_end next rest h.1 in
      ground (arith, step.1, step.2, more, ap (λ o. number_or o settings.max_attempts) step.0)

  -- An error of no special class that may be retried.
  abbrev pub IsPlain : QueueError → Type 0
  IsPlain e =
      (is_fatal e.class ≡ false)
      × (is_false e.retryable ≡ false)
      × (str_eq (signature e) "QueueValidationError" ≡ false)

  exhausted :
      (now jitter : ℕ) (m : Message) (e : QueueError) (w : World J)
      → IsPlain e
      → number_or m.max_attempts settings.max_attempts ≤ m.attempt
      → recover settings broker handler J now jitter m e w ≡ (send J requeued w, requeue_message)
  unfolding recover mark_poison_if_needed should_retry
  exhausted now jitter m e w plain spent =
      let late : ltb m.attempt (number_or m.max_attempts settings.max_attempts) ≡ false =
        ground (arith, spent) in
      rw (plain.0, not_poison e.class plain.0, plain.1, plain.2, late) refl

  -- While the monitoring events are published: a message whose attempts are used up and whose handler fails
  -- with a plain error is either skipped or put back into its queue by a nack, after the call of its
  -- handler, which is all that is sent for it: no dead letter, no retry and no acknowledgement.
  pub exhausted_message_is_put_back :
      (now jitter : ℕ) (m : Message) (e : QueueError) (w : World J)
      → ((k : Monitored) → broker.monitor k ≡ none)
      → handler m ≡ some e
      → IsPlain e
      → number_or m.max_attempts settings.max_attempts ≤ m.attempt
      → let r = handle_message settings broker handler J now jitter (valid m) w in
        (r.1 ≡ skip_message)
        ⊎ ((r.1 ≡ requeue_message) × (r.0.sent ≡ requeued ∷ handled m.message_id ∷ w.sent))
  unfolding handle_message process acknowledge
  exhausted_message_is_put_back now jitter m e w up fails plain spent =
      let s = create_or_update_from_message J now m w.jobs in
      elim (Begun-cases J (begin_message J now settings.lock_timeout settings.worker_id m s)) [
        | inl held ↦
            inl (rw (up received, handle_message, process, held, acknowledge, up processed) refl)
        | inr (t, begun) ↦
            let failed_world : World J = record {
              jobs = mark_failed J m.message_id e t;
              sent = handled m.message_id ∷ w.sent;
            } in
            let back = exhausted now jitter m e failed_world plain spent in
            inr (rw (up received, handle_message, process, begun, fails, back) (refl, refl))
      ]
