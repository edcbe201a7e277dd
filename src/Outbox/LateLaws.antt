-- ===== src/Outbox/LateLaws.antt =====
-- What becomes of a row when the lock of a slow worker was released.
use udyog_setu.Common.{
  ℕ, String, some, true, false, [], ◌∷◌, ◌≡◌, ◌<◌, ◌+◌, refl, ap, ◌∙◌, arith, if◌then◌else◌, leb,
  ==_iff,
}
use udyog_setu.Store.{Collection}
use udyog_setu.Outbox.Rows.{
  Row, row_id, is_waiting, locked_row, unlocked_row, published_row, failed_row, mark_publishing,
  mark_published, mark_failed, unlock_all,
}
use udyog_setu.Outbox.Publisher.{
  Settings, Kafka, accepted, refused, calculate_next_retry, publish_one,
}

module _ (R : Collection Row row_id) (settings : Settings) (slow quick : Kafka)
    (slow_worker quick_worker : String) where
  open R use {Docs, get, put}

  -- The slow worker's lock of a row, its release as the stale one, the publication by the quick worker, and
  -- then the slow worker's own.
  abbrev pub row_of_slow : ℕ → Row → Row
  row_of_slow at r = locked_row at slow_worker r

  abbrev pub row_of_quick : ℕ → ℕ → ℕ → Row → Row
  row_of_quick at released later r =
      locked_row later quick_worker (unlocked_row released (row_of_slow at r))

  abbrev pub after_quick : ℕ → ℕ → ℕ → ℕ → Row → Docs → Docs
  after_quick at released later id r rows =
      let locked = (mark_publishing R at slow_worker id rows).0 in
      let free = unlock_all R released (row_of_slow at r ∷ []) locked in
      let taken = (mark_publishing R later quick_worker id free).0 in
      (publish_one R settings quick later (row_of_quick at released later r) taken).0

  abbrev pub after_slow : ℕ → ℕ → ℕ → ℕ → ℕ → Row → Docs → Docs
  after_slow at released later late id r rows =
      (publish_one R settings slow late (row_of_slow at r)
        (after_quick at released later id r rows)).0

  read_back : (id : ℕ) (r : Row) (rows : Docs) → r.event_id ≡ id → get id (put r rows) ≡ some r
  read_back id r rows same =
      R.get-put id r rows
      ∙ ap (λ b. if b then some r else get id rows) ((==_iff r.event_id id).1 same)

  lock_stores :
      (at id : ℕ) (worker : String) (r : Row) (rows : Docs)
      → get id rows ≡ some r
      → is_waiting r ≡ true
      → (mark_publishing R at worker id rows).0 ≡ put (locked_row at worker r) rows
  unfolding mark_publishing
  lock_stores at id worker r rows found waits = rw (found, waits) refl

  publication_stores :
      (now : ℕ) (x : Row) (rows : Docs)
      → get x.event_id rows ≡ some x
      → quick.publish x ≡ accepted
      → (publish_one R settings quick now x rows).0 ≡ put (published_row now x) rows
  unfolding publish_one mark_published
  publication_stores now x rows found taken = rw (taken, publish_one, found) refl

  refusal_stores :
      (now : ℕ) (x y : Row) (message : String) (rows : Docs)
      → get x.event_id rows ≡ some y
      → slow.publish x ≡ refused message
      → x.publish_attempts + 1 < settings.max_attempts
      → (publish_one R settings slow now x rows).0
        ≡ put
            (failed_row message (calculate_next_retry settings now (x.publish_attempts + 1)) y)
            rows
  unfolding publish_one mark_failed
  refusal_stores now x y message rows found refusal left =
      let more : leb settings.max_attempts (x.publish_attempts + 1) ≡ false =
        ground (arith, left) in
      rw (refusal, publish_one, more, found) refl

  quick_publishes :
      (at released later id : ℕ) (r : Row) (rows : Docs)
      → get id rows ≡ some r
      → is_waiting r ≡ true
      → quick.publish (row_of_quick at released later r) ≡ accepted
      → get r.event_id (after_quick at released later id r rows)
        ≡ some (published_row later (row_of_quick at released later r))
  unfolding unlock_all locked_row unlocked_row published_row
  quick_publishes at released later id r rows found waits taken =
      let same = R.get-id id rows r found in
      let mine = row_of_slow at r in
      let theirs = row_of_quick at released later r in
      let locked = (mark_publishing R at slow_worker id rows).0 in
      let free = put (unlocked_row released mine) locked in
      let stored : get id free ≡ some (unlocked_row released mine) =
        read_back id (unlocked_row released mine) locked same in
      let locks : (mark_publishing R later quick_worker id free).0 ≡ put theirs free =
        lock_stores later id quick_worker (unlocked_row released mine) free stored refl in
      let now_theirs : get r.event_id (mark_publishing R later quick_worker id free).0
          ≡ some theirs =
        ap (get r.event_id) locks ∙ read_back r.event_id theirs free refl in
      ap (get r.event_id) (
        publication_stores later theirs (mark_publishing R later quick_worker id free).0 now_theirs
          taken)
      ∙ read_back r.event_id (published_row later theirs)
          (mark_publishing R later quick_worker id free).0 refl

  -- A worker locks a waiting row and is slow; its lock is released as stale, and another worker locks and
  -- publishes the row. If the slow worker's own attempt is then refused, with attempts left, the row waits
  -- to be published again, though it keeps the time at which it was published.
  pub late_failure_reopens :
      (at released later late id : ℕ) (r : Row) (message : String) (rows : Docs)
      → get id rows ≡ some r
      → is_waiting r ≡ true
      → quick.publish (row_of_quick at released later r) ≡ accepted
      → slow.publish (row_of_slow at r) ≡ refused message
      → r.publish_attempts + 1 < settings.max_attempts
      → (get r.event_id (after_quick at released later id r rows)
          ≡ some (published_row later (row_of_quick at released later r)))
        × ((u : Row) × (get r.event_id (after_slow at released later late id r rows) ≡ some u)
            × (is_waiting u ≡ true)
            × (u.published_at ≡ some later))
  unfolding locked_row unlocked_row published_row failed_row
  late_failure_reopens at released later late id r message rows found waits taken refusal left =
      let done = quick_publishes at released later id r rows found waits taken in
      let next = calculate_next_retry settings late (r.publish_attempts + 1) in
      let published = published_row later (row_of_quick at released later r) in
      let rows' = after_quick at released later id r rows in
      (
        done,
        (
          failed_row message next published,
          ap (get r.event_id)
                (refusal_stores late (row_of_slow at r) published message rows' done refusal left)
              ∙ read_back r.event_id (failed_row message next published) rows' refl,
          refl,
          refl,
        ),
      )
