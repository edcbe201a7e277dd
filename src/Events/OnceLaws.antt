-- ===== src/Events/OnceLaws.antt =====
-- How often an event reaches its handler.
use udyog_setu.Common.{
  ℕ, length, ◌+◌, ◌⊎◌, String, Option, none, some, true, false, ◌&&◌, List, [], ◌∷◌, ◌≡◌, refl, sym,
  ap, ◌∙◌, inl, inr, Option-cases, Bool-cases, eq_iff, arith, ◌==◌, ==_iff, if◌then◌else◌,
}
use udyog_setu.Store.{Collection}
use udyog_setu.Store.Updates.{find_one_hit, update_one}
use udyog_setu.Events.Ledger.{
  Key, Entry, entry_id, has_key, is_processed, is_fresh, processed_entry, new_entry, begun_entry,
  upsert, begin_processing, mark_processed, already_processed, already_processing, begun,
}
use udyog_setu.Events.Consumer.{
  HandlerError, Envelope, World, called, act, skipped, ran, with_idempotency, handle_event_once,
  is_event_already_processed, mark_event_processed, mark_event_failed, replay_key,
}

module _ (handler : Envelope → Option HandlerError) (E : Collection Entry entry_id) where
  -- At most one record of a key is stored, as the unique index of the records demands.
  abbrev pub IsUnique : Key → E.Docs → Type 0
  IsUnique k s =
      (d e : Entry)
      → E.get d.id s ≡ some d
      → E.get e.id s ≡ some e
      → has_key k d ≡ true
      → has_key k e ≡ true
      → d.id ≡ e.id

  -- The stored records of a key have this id.
  Only : Key → ℕ → E.Docs → Type 0
  Only k i s = (e : Entry) → E.get e.id s ≡ some e → has_key k e ≡ true → e.id ≡ i

  Only-put :
      (k : Key) (d : Entry) (s : E.Docs)
      → ((e : Entry) → E.get e.id s ≡ some e → has_key k e ≡ true → e.id ≡ d.id)
      → Only k d.id (E.put d s)
  unfolding Only
  Only-put k d s old e stored has = elim (Bool-cases (d.id == e.id)) [
    | inl this ↦ sym ((==_iff d.id e.id).0 this)
    | inr other ↦
        let before : E.get e.id s ≡ some e = rw other at (sym (E.get-put e.id d s) ∙ stored) in
        old e before has
  ]

  put_found :
      (k : Key) (d : Entry) (s : E.Docs)
      → has_key k d ≡ true
      → Only k d.id (E.put d s)
      → E.find_one (has_key k) (E.put d s) ≡ some d
  unfolding Only
  put_found k d s has only =
      find_one_hit E (has_key k) d.id d (E.put d s) only
        (E.get-put d.id d s
          ∙ ap (λ b. if b then some d else E.get d.id s) ((==_iff d.id d.id).1 refl))
        has

  new_has_key : (id : ℕ) (k : Key) → has_key k (new_entry id k) ≡ true
  new_has_key id k = ground (
    arith,
    eq_iff k.event_id k.event_id,
    eq_iff k.handler_name k.handler_name,
    eq_iff k.consumer_group k.consumer_group,
  )

  -- After an upsert, the record of the key is what it wrote.
  upsert_found :
      (id : ℕ) (k : Key) (f : Entry → Entry) (s : E.Docs)
      → ((e : Entry) → ((f e).id ≡ e.id) × ((f e).key ≡ e.key))
      → IsUnique k s
      → (x : Entry) × (E.find_one (has_key k) (upsert E id k f s) ≡ some (f x))
        × Only k (f x).id (upsert E id k f s)
  unfolding upsert Only
  upsert_found id k f s keeps unique = elim (Option-cases (E.find_one (has_key k) s)) [
    | inl missing ↦
        let x = new_entry id k in
        let has : has_key k (f x) ≡ true = rw (keeps x).1 (new_has_key id k) in
        let only =
          Only-put k (f x) s (λ e stored h.
            ground (arith, E.find_one_complete (has_key k) s e.id e missing stored)) in
        (x, rw (missing, upsert) (put_found k (f x) s has only), rw (missing, upsert) only)
    | inr (x, hit) ↦
        let sound = E.find_one_sound (has_key k) s x hit in
        let has : has_key k (f x) ≡ true = rw (keeps x).1 sound.0 in
        let only =
          Only-put k (f x) s
            (λ e stored h. unique e x stored sound.1 h sound.0 ∙ sym (keeps x).0) in
        (x, rw (hit, upsert) (put_found k (f x) s has only), rw (hit, upsert) only)
  ]

  processed_is_skipped :
      (now stale_ms id : ℕ) (name group : String) (e : Envelope) (x : Entry) (w : World E)
      → E.find_one
          (has_key (record { event_id = e.id; handler_name = name; consumer_group = group }))
          w.entries
        ≡ some x
      → is_processed x.status ≡ true
      → with_idempotency handler E now stale_ms id name group e w ≡ (w, skipped)
  unfolding with_idempotency begin_processing
  processed_is_skipped now stale_ms id name group e x w found h =
      rw (with_idempotency, begin_processing, found, h) refl

  begun_once :
      (now stale_ms id : ℕ) (k : Key) (correlation_id : Option String) (s : E.Docs)
      → let b = begin_processing E now stale_ms id k correlation_id s in
        (b ≡ already_processed)
        ⊎ (b ≡ already_processing)
        ⊎ (b ≡ begun (upsert E id k (begun_entry now correlation_id) s))
  unfolding begin_processing
  begun_once now stale_ms id k correlation_id s = elim (Option-cases (E.find_one (has_key k) s)) [
    | inl missing ↦ rw (missing, begin_processing) (inr (inr refl))
    | inr (x, hit) ↦ elim (Bool-cases (is_processed x.status)) [
      | inl past ↦ rw (hit, begin_processing, past) (inl refl)
      | inr open_still ↦ elim (Bool-cases (is_fresh E now stale_ms x)) [
        | inl busy ↦ rw (hit, begin_processing, open_still, busy) (inr (inl refl))
        | inr stale ↦ rw (hit, begin_processing, open_still, stale) (inr (inr refl))
      ]
    ]
  ]

  ran_entries :
      (now stale_ms id : ℕ) (name group : String) (e : Envelope) (w : World E)
      → handler e ≡ none
      → (with_idempotency handler E now stale_ms id name group e w).1 ≡ ran
      → let k : Key = record { event_id = e.id; handler_name = name; consumer_group = group } in
        (with_idempotency handler E now stale_ms id name group e w).0.entries
        ≡ upsert E id k
            (processed_entry now e.correlation_id)
            (upsert E id k (begun_entry now e.correlation_id) w.entries)
  unfolding with_idempotency mark_processed
  ran_entries now stale_ms id name group e w fine h =
      let k : Key = record { event_id = e.id; handler_name = name; consumer_group = group } in
      elim (begun_once now stale_ms id k e.correlation_id w.entries) [
        | inl past ↦ ground (arith, (rw (with_idempotency, past) at h))
        | inr rest ↦ elim rest [
          | inl busy ↦ ground (arith, (rw (with_idempotency, busy) at h))
          | inr started ↦ rw (with_idempotency, started, fine) refl
        ]
      ]

  -- Once a handler has run on an event and returned, every later delivery of that event to that handler
  -- and group is skipped, and leaves everything as it is.
  pub event_is_handled_once :
      (now later stale_ms id other : ℕ) (name group : String) (e : Envelope) (w : World E)
      → IsUnique (record { event_id = e.id; handler_name = name; consumer_group = group }) w.entries
      → handler e ≡ none
      → (with_idempotency handler E now stale_ms id name group e w).1 ≡ ran
      → let after = (with_idempotency handler E now stale_ms id name group e w).0 in
        with_idempotency handler E later stale_ms other name group e after ≡ (after, skipped)
  unfolding Only
  event_is_handled_once now later stale_ms id other name group e w unique fine h =
      let k : Key = record { event_id = e.id; handler_name = name; consumer_group = group } in
      let after = (with_idempotency handler E now stale_ms id name group e w).0 in
      let first =
        upsert_found id k (begun_entry now e.correlation_id) w.entries (λ x. (refl, refl)) unique in
      let started = upsert E id k (begun_entry now e.correlation_id) w.entries in
      let second =
        upsert_found id k (processed_entry now e.correlation_id) started (λ x. (refl, refl))
          (λ a b stored_a stored_b has_a has_b.
            first.2 a stored_a has_a ∙ sym (first.2 b stored_b has_b)) in
      processed_is_skipped later stale_ms other name group e
        (processed_entry now e.correlation_id second.0) after
        (ap (E.find_one (has_key k)) (ran_entries now stale_ms id name group e w fine h) ∙ second.1)
        refl

  -- Deliveries of one event through `handleEventOnce`.
  abbrev pub deliver : String → Envelope → List ℕ → World E → World E
  deliver name e [] w = w
  deliver name e (now ∷ times) w = deliver name e times (handle_event_once handler E now name e w).0

  unrecorded :
      (now : ℕ) (name : String) (e : Envelope) (w : World E)
      → E.find_one (replay_key name e) w.entries ≡ none
      → (handle_event_once handler E now name e w).0 ≡ act E (called e.id) w
  unfolding handle_event_once is_event_already_processed mark_event_processed mark_event_failed
  unrecorded now name e w missing =
      let none_processed : is_event_already_processed handler E name e w.entries ≡ false =
        elim (Option-cases
          (E.find_one (λ x. replay_key name e x && is_processed x.status) w.entries)) [
            | inl nothing ↦ rw nothing refl
            | inr (x, hit) ↦
                let sound =
                  E.find_one_sound (λ y. replay_key name e y && is_processed y.status) w.entries x
                    hit in
                ground (
                  arith,
                  E.find_one_complete (replay_key name e) w.entries x.id x missing sound.1,
                  sound.0,
                )
          ] in
      elim (Option-cases (handler e)) [
        | inl fine ↦
            rw (handle_event_once, none_processed, fine, mark_event_processed, update_one, missing)
              refl
        | inr (x, thrown) ↦
            rw (handle_event_once, none_processed, thrown, mark_event_failed, update_one, missing)
              refl
      ]

  -- An event of which `handleEventOnce` finds no record is handled again at every delivery: no delivery
  -- leaves a record, neither of success nor of failure.
  pub replayed_event_runs_every_time :
      (name : String) (e : Envelope) (times : List ℕ) (w : World E)
      → E.find_one (replay_key name e) w.entries ≡ none
      → let after = deliver name e times w in
        (length after.acts ≡ length times + length w.acts) × (after.entries ≡ w.entries)
  replayed_event_runs_every_time name e [] w missing = (omega arith, refl)
  replayed_event_runs_every_time name e (now ∷ times) w missing =
      let step = unrecorded now name e w missing in
      let rest = replayed_event_runs_every_time name e times (act E (called e.id) w) missing in
      let same = ap (deliver name e times) step in
      (
        ap (λ (v : World E). length v.acts) same ∙ rest.0 ∙ omega arith,
        ap (λ (v : World E). v.entries) same ∙ rest.1,
      )
