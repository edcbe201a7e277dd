-- ===== src/Outbox/PublishLaws.antt =====
-- What the publisher keeps of the rows of the outbox.
use udyog_setu.Common.{
  ℕ, String, Option, none, some, Bool, true, List, [], ◌∷◌, ◌≡◌, refl, ◌∙◌, ap, arith, ◌+◌, leb,
  ltb, if◌then◌else◌, ◌==◌, Option-cases, Bool-cases, inl, inr, ◌⊎◌, subst, All,
}
use udyog_setu.Store.{Collection}
use udyog_setu.Outbox.Rows.{
  publishing, published, same_status, Row, row_id, is_waiting, is_stale, locked_row, published_row,
  failed_row, dead_row, unlocked_row, update, mark_publishing, mark_published, mark_failed,
  mark_dead_lettered, unlock_all, unlock_stale_publishing_locks, find_pending_for_publish,
}
use udyog_setu.Outbox.Publisher.{
  Settings, Kafka, Answer, accepted, not_retryable, refused, bury, publish_one, publish_locked,
  is_thrown, publish_rows, publish_pending_batch, recover_stale_locks, tick, ticks,
  calculate_next_retry,
}

Answer-cases :
    (a : Answer)
    → (a ≡ accepted) ⊎ (((m : String) × (a ≡ not_retryable m)) ⊎ ((m : String) × (a ≡ refused m)))
Answer-cases accepted = inl refl
Answer-cases (not_retryable m) = inr (inl (m, refl))
Answer-cases (refused m) = inr (inr (m, refl))

-- A published row took at most the allowed attempts; any other row has one left.
abbrev pub within : ℕ → Row → Bool
within max_attempts r =
    if same_status r.publish_status published
    then leb r.publish_attempts max_attempts
    else ltb r.publish_attempts max_attempts

module _ (R : Collection Row row_id) (settings : Settings) (kafka : Kafka) where
  open R use {Docs, get, put, find, get-put, get-id, find_sound}

  abbrev pub Within : Docs → Type 0
  Within rows = (k : ℕ) (r : Row) → get k rows ≡ some r → within settings.max_attempts r ≡ true

  Within-put :
      (u : Row) (rows : Docs)
      → Within rows
      → within settings.max_attempts u ≡ true
      → Within (put u rows)
  Within-put u rows all one k r g = elim (Bool-cases (u.event_id == k)) [
    | inl same ↦
        let this : u ≡ r = ground (arith, get-put k u rows) in
        subst (λ x. within settings.max_attempts x ≡ true) this one
    | inr other ↦ all k r (ground (arith, get-put k u rows))
  ]

  -- The row that a lock returns is the stored one.
  lock-some :
      (now : ℕ) (id : ℕ) (rows : Docs) (r : Row)
      → (mark_publishing R now settings.worker id rows).1 ≡ some r
      → (u : Row) × (get id rows ≡ some u)
        × (r ≡ locked_row now settings.worker u)
        × (is_waiting u ≡ true)
        × ((mark_publishing R now settings.worker id rows).0 ≡ put r rows)
  unfolding mark_publishing
  lock-some now id rows r h = elim (Option-cases (get id rows)) [
    | inl missing ↦ absurd (ground arith)
    | inr (u, found) ↦ elim (Bool-cases (is_waiting u)) [
      | inl waits ↦ (u, found, ground arith, waits, ground arith)
      | inr busy ↦ absurd (ground arith)
    ]
  ]

  update-Within :
      (f : Row → Row) (id : ℕ) (r : Row) (rows : Docs)
      → get id rows ≡ some r
      → within settings.max_attempts (f r) ≡ true
      → Within rows
      → Within (update R f (get id rows) rows)
  update-Within f id r rows stored fits all = rw stored (Within-put (f r) rows all fits)

  bury-Within :
      (message : String) (r : Row) (rows : Docs)
      → get r.event_id rows ≡ some r
      → r.publish_status ≡ publishing
      → Within rows
      → Within (bury R settings kafka message r rows).0
  unfolding bury mark_dead_lettered dead_row
  bury-Within message r rows stored locked all = elim (Bool-cases (kafka.dead_letter r)) [
    | inl took ↦ rw took (
        update-Within (dead_row message) r.event_id r rows stored
          (ground (arith, all r.event_id r stored)) all)
    | inr refused_too ↦ rw refused_too all
  ]

  publish_one-Within :
      (now : ℕ) (r : Row) (rows : Docs)
      → get r.event_id rows ≡ some r
      → r.publish_status ≡ publishing
      → Within rows
      → Within (publish_one R settings kafka now r rows).0
  unfolding publish_one mark_published mark_failed published_row failed_row
  publish_one-Within now r rows stored locked all = elim (Answer-cases (kafka.publish r)) [
    | inl took ↦
        rw (took, publish_one)
          (update-Within (published_row now) r.event_id r rows stored
            (ground (arith, all r.event_id r stored)) all)
    | inr (inl (m, lost)) ↦ rw (lost, publish_one) (bury-Within m r rows stored locked all)
    | inr (inr (m, later)) ↦
        elim (Bool-cases (leb settings.max_attempts (r.publish_attempts + 1))) [
          | inl last ↦ rw (later, last, publish_one) (bury-Within m r rows stored locked all)
          | inr again ↦
              rw (later, again, publish_one)
                (update-Within
                  (failed_row m (calculate_next_retry settings now (r.publish_attempts + 1)))
                  r.event_id r rows stored (ground (arith, all r.event_id r stored)) all)
        ]
  ]

  locked_is_stored :
      (now id : ℕ) (rows : Docs) (r : Row)
      → (mark_publishing R now settings.worker id rows).1 ≡ some r
      → (get r.event_id (mark_publishing R now settings.worker id rows).0 ≡ some r)
        × (r.publish_status ≡ publishing)
  unfolding locked_row
  locked_is_stored now id rows r h =
      let (u, found, locked, waits, written) = lock-some now id rows r h in
      (
        ap (get r.event_id) written ∙ ground (arith, get-put r.event_id r rows),
        ap (λ x. x.publish_status) locked,
      )

  locked-Within :
      (now id : ℕ) (rows : Docs)
      → Within rows
      → Within (mark_publishing R now settings.worker id rows).0
  unfolding mark_publishing locked_row
  locked-Within now id rows all = elim (Option-cases (get id rows)) [
    | inl missing ↦ rw missing all
    | inr (u, found) ↦ elim (Bool-cases (is_waiting u)) [
      | inl waits ↦
          rw (found, waits)
            (Within-put (locked_row now settings.worker u) rows all
              (ground (arith, all id u found)))
      | inr busy ↦ rw (found, busy) all
    ]
  ]

  publish_locked-Within :
      (now : ℕ) (rows : Docs) (o : Option Row)
      → ((r : Row) → o ≡ some r → (get r.event_id rows ≡ some r) × (r.publish_status ≡ publishing))
      → Within rows
      → Within (publish_locked R settings kafka now (rows, o)).0
  publish_locked-Within now rows none known all = all
  publish_locked-Within now rows (some r) known all =
      publish_one-Within now r rows (known r refl).0 (known r refl).1 all

  publish_rows-Within :
      (now : ℕ) (rs : List Row) (rows : Docs)
      → Within rows
      → Within (publish_rows R settings kafka now rs rows)
  unfolding publish_rows
  publish_rows-Within now [] rows all = all
  publish_rows-Within now (r ∷ rs) rows all =
      let held = mark_publishing R now settings.worker r.event_id rows in
      let one =
        publish_locked-Within now held.0 held.1 (locked_is_stored now r.event_id rows)
          (locked-Within now r.event_id rows all) in
      elim (Bool-cases (
        is_thrown R settings kafka
          (publish_locked R settings kafka now
            (mark_publishing R now settings.worker r.event_id rows)).1)) [
              | inl stops ↦ rw stops one
              | inr goes ↦ rw goes (publish_rows-Within now rs _ one)
            ]

  unlock-Within :
      (now timeout : ℕ) (rs : List Row) (rows : Docs)
      → All (λ r. (is_stale now timeout r ≡ true) × (within settings.max_attempts r ≡ true)) rs
      → Within rows
      → Within (unlock_all R now rs rows)
  unfolding unlock_all unlocked_row
  unlock-Within now timeout [] rows each all = all
  unlock-Within now timeout (r ∷ rs) rows ((stale, fits), each) all =
      unlock-Within now timeout rs (put (unlocked_row now r) rows) each
        (Within-put (unlocked_row now r) rows all (ground arith))

  stored-within :
      (p : Row → Bool) (rows : Docs) (rs : List Row)
      → Within rows
      → All (λ r. (p r ≡ true) × (get r.event_id rows ≡ some r)) rs
      → All (λ r. (p r ≡ true) × (within settings.max_attempts r ≡ true)) rs
  stored-within p rows [] all each = tt
  stored-within p rows (r ∷ rs) all ((fits, stored), each) =
      ((fits, all r.event_id r stored), stored-within p rows rs all each)

  -- Where no row is published with more than the allowed attempts and every other row has one left, the
  -- same holds however often the publisher ticks and whatever Kafka answers.
  pub ticks-Within :
      (times : List ℕ) (rows : Docs) → Within rows → Within (ticks R settings kafka times rows)
  unfolding ticks tick publish_pending_batch recover_stale_locks unlock_stale_publishing_locks
  ticks-Within [] rows all = all
  ticks-Within (now ∷ times) rows all =
      let stale = find (is_stale now settings.lock_timeout) rows in
      ticks-Within times (tick R settings kafka now rows) (
        publish_rows-Within now
          (find_pending_for_publish R now settings.batch_size
            (recover_stale_locks R settings kafka now rows))
          (recover_stale_locks R settings kafka now rows)
          (unlock-Within now settings.lock_timeout stale rows
            (stored-within (is_stale now settings.lock_timeout) rows stale all
              (find_sound (is_stale now settings.lock_timeout) rows))
            all))
