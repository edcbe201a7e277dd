-- ===== src/Audit/WholeLogLaws.antt =====
-- What the verification says of a log of several resources.
use Prim.Native.String.{◌++◌ as append}
use text.Mathlib.TextLemmas.{append_cancel_right}
use udyog_setu.Common.{
  suc, String, Option, none, some, true, false, List, [], ◌∷◌, ◌++◌, ◌≡◌, ◌≢◌, refl, sym, ap, ◌∙◌,
  All, keep, str_eq, eq_iff, arith, inl, inr, Bool-cases, is_empty,
}
use udyog_setu.Audit.Events.{
  Event, Crypto, canonical, canonicalise_audit_payload, compute_audit_hash, sort_by_sequence,
  chain_issues, verify_audit_chain,
}
use udyog_setu.Audit.Ordering.{Before, All-weaken, sort_new}
use udyog_setu.Audit.Log.{
  Call, recorded, denied, replayed, exported, input_of, stored_event, record_call, record_all,
  Input, Context, Log, empty_log, next_audit_sequence, find_latest_by_resource, of_resource, latest,
  event_payload, append_audit_event, record_audit_event, record_access_denied,
  record_replay_attempt, record_export_attempt,
}
use udyog_setu.Audit.ChainLaws.{reached, reached_last, IsKept}

-- The events of a whole log in the order that the verification takes them in.
abbrev whole_order : List Event → List Event
whole_order es = sort_by_sequence (keep (λ e. true) es)

module _ (crypto : Crypto) where
  abbrev IsBroken : Option String → List Event → Type 0
  IsBroken previous es = is_empty (chain_issues crypto previous es) ≡ false

  -- An issue stays one when events follow.
  stays-IsBroken :
      (previous : Option String) (es : List Event) (e : Event)
      → IsBroken previous es
      → IsBroken previous (es ++ (e ∷ []))
  unfolding chain_issues
  stays-IsBroken previous [] e broken = ground (arith, broken)
  stays-IsBroken previous (x ∷ xs) e broken =
      elim (Bool-cases (
        str_eq x.current_hash
          (compute_audit_hash crypto (canonicalise_audit_payload crypto x) previous))) [
            | inl good ↦ rw good (stays-IsBroken (some x.current_hash) xs e (rw good at broken))
            | inr bad ↦ rw bad refl
          ]

  -- An event that starts a chain is an issue after an event of a hash.
  restart_breaks :
      (previous : Option String) (hash : String) (es : List Event) (e : Event)
      → ((s t : String) → crypto.digest s ≡ crypto.digest t → s ≡ t)
      → reached previous es ≡ some hash
      → hash ≢ ""
      → e.current_hash ≡ compute_audit_hash crypto (canonicalise_audit_payload crypto e) none
      → IsBroken previous (es ++ (e ∷ []))
  unfolding chain_issues compute_audit_hash
  restart_breaks previous hash [] e injective at_hash filled fits =
      let payload = canonicalise_audit_payload crypto e in
      let expected = compute_audit_hash crypto payload (some hash) in
      elim (Bool-cases (str_eq e.current_hash expected)) [
        | inr bad ↦ rw (at_hash, bad) refl
        | inl good ↦ absurd (
            filled (
              sym (
                append_cancel_right "" hash (append "|" payload)
                  (injective _ _ (sym fits ∙ (eq_iff e.current_hash expected).0 good)))))
      ]
  restart_breaks previous hash (x ∷ xs) e injective at_hash filled fits =
      let rest = restart_breaks (some x.current_hash) hash xs e injective at_hash filled fits in
      elim (Bool-cases (
        str_eq x.current_hash
          (compute_audit_hash crypto (canonicalise_audit_payload crypto x) previous))) [
            | inl good ↦ rw good rest
            | inr bad ↦ rw bad refl
          ]

  -- Each event is later than those before it and has a hash.
  Ordered : List Event → Type 0
  Ordered [] = Unit
  Ordered (e ∷ es) = All (Before e.audit_sequence) es × (e.current_hash ≢ "") × Ordered es

  IsOrdered : Log → Type 0
  IsOrdered log = All (Before (suc log.sequence)) log.events × Ordered log.events

  record_audit_event-IsOrdered :
      (input : Input) (context : Context) (log : Log)
      → ((s : String) → crypto.trim (crypto.digest s) ≡ crypto.digest s)
      → ((s : String) → crypto.digest s ≢ "")
      → IsOrdered log
      → IsOrdered (record_audit_event crypto input context log)
  unfolding record_audit_event next_audit_sequence append_audit_event IsOrdered Ordered Before
      event_payload stored_event compute_audit_hash
  record_audit_event-IsOrdered input context log hex filled h = (
    (
      omega arith,
      All-weaken (suc log.sequence) (suc (suc log.sequence)) log.events (omega arith) h.0,
    ),
    (h.0, λ blank. filled _ (sym (hex _) ∙ blank), h.1),
  )

  record_call-IsOrdered :
      (call : Call) (input : Input) (context : Context) (log : Log)
      → ((s : String) → crypto.trim (crypto.digest s) ≡ crypto.digest s)
      → ((s : String) → crypto.digest s ≢ "")
      → IsOrdered log
      → IsOrdered (record_call crypto call input context log)
  unfolding record_access_denied record_replay_attempt record_export_attempt
  record_call-IsOrdered recorded input = record_audit_event-IsOrdered input
  record_call-IsOrdered denied input = record_audit_event-IsOrdered _
  record_call-IsOrdered replayed input = record_audit_event-IsOrdered _
  record_call-IsOrdered exported input = record_audit_event-IsOrdered _

  record_all-IsOrdered :
      (calls : List (Call × Input × Context)) (log : Log)
      → ((s : String) → crypto.trim (crypto.digest s) ≡ crypto.digest s)
      → ((s : String) → crypto.digest s ≢ "")
      → IsOrdered log
      → IsOrdered (record_all crypto calls log)
  record_all-IsOrdered [] log hex filled h = h
  record_all-IsOrdered (call ∷ calls) log hex filled h =
      record_all-IsOrdered calls (record_call crypto call.0 call.1 call.2 log) hex filled
        (record_call-IsOrdered call.0 call.1 call.2 log hex filled h)

  -- A broken log is broken after every further recording.
  later-IsBroken :
      (e : Event) (es : List Event)
      → All (Before e.audit_sequence) es
      → IsBroken none (whole_order es)
      → IsBroken none (whole_order (e ∷ es))
  later-IsBroken e es later broken =
      rw (sort_new (λ x. true) e es later refl) (stays-IsBroken none (whole_order es) e broken)

  record_audit_event-IsBroken :
      (input : Input) (context : Context) (log : Log)
      → IsOrdered log
      → IsBroken none (whole_order log.events)
      → IsBroken none (whole_order (record_audit_event crypto input context log).events)
  unfolding record_audit_event next_audit_sequence append_audit_event IsOrdered event_payload
      stored_event
  record_audit_event-IsBroken input context log h broken = later-IsBroken _ log.events h.0 broken

  record_call-IsBroken :
      (call : Call) (input : Input) (context : Context) (log : Log)
      → IsOrdered log
      → IsBroken none (whole_order log.events)
      → IsBroken none (whole_order (record_call crypto call input context log).events)
  unfolding record_access_denied record_replay_attempt record_export_attempt
  record_call-IsBroken recorded input = record_audit_event-IsBroken input
  record_call-IsBroken denied input = record_audit_event-IsBroken _
  record_call-IsBroken replayed input = record_audit_event-IsBroken _
  record_call-IsBroken exported input = record_audit_event-IsBroken _

  record_all-IsBroken :
      (calls : List (Call × Input × Context)) (log : Log)
      → ((s : String) → crypto.trim (crypto.digest s) ≡ crypto.digest s)
      → ((s : String) → crypto.digest s ≢ "")
      → IsOrdered log
      → IsBroken none (whole_order log.events)
      → IsBroken none (whole_order (record_all crypto calls log).events)
  record_all-IsBroken [] log hex filled h broken = broken
  record_all-IsBroken (call ∷ calls) log hex filled h broken =
      record_all-IsBroken calls (record_call crypto call.0 call.1 call.2 log) hex filled
        (record_call-IsOrdered call.0 call.1 call.2 log hex filled h)
        (record_call-IsBroken call.0 call.1 call.2 log h broken)

  -- A log that is not empty, and an event that starts the chain of its resource.
  new_resource_breaks :
      (e : Event) (es : List Event)
      → ((s t : String) → crypto.digest s ≡ crypto.digest t → s ≡ t)
      → is_empty es ≡ false
      → Ordered es
      → All (Before e.audit_sequence) es
      → e.current_hash ≡ compute_audit_hash crypto (canonicalise_audit_payload crypto e) none
      → IsBroken none (whole_order (e ∷ es))
  unfolding Ordered
  new_resource_breaks e [] injective some_event h later fits = ground (arith, some_event)
  new_resource_breaks e (x ∷ xs) injective some_event h later fits =
      rw (sort_new (λ y. true) e (x ∷ xs) later refl) (
        restart_breaks none x.current_hash (whole_order (x ∷ xs)) e injective
          (ap (reached none) (sort_new (λ y. true) x xs h.0 refl)
            ∙ reached_last none (whole_order xs) x)
          h.1 fits)

  record_first-IsBroken :
      (input : Input) (context : Context) (log : Log)
      → ((s t : String) → crypto.digest s ≡ crypto.digest t → s ≡ t)
      → ((s : String) → crypto.trim (crypto.digest s) ≡ crypto.digest s)
      → IsKept crypto input context
      → IsOrdered log
      → is_empty log.events ≡ false
      → find_latest_by_resource input.resource_type input.resource_id log ≡ none
      → IsBroken none (whole_order (record_audit_event crypto input context log).events)
  unfolding record_audit_event next_audit_sequence append_audit_event IsOrdered event_payload
      stored_event find_latest_by_resource compute_audit_hash canonicalise_audit_payload canonical
  record_first-IsBroken input context log injective hex kept h some_event first =
      let none_yet : latest (of_resource input.resource_type input.resource_id) log.events ≡ none =
        first in
      new_resource_breaks _ log.events injective some_event h.1 h.0 (
        hex _
        ∙ rw none_yet (
            ap (λ c. crypto.digest (append "" (append "|" (crypto.stringify c))))
              (sym (kept (suc log.sequence) none))))

  record_call_first-IsBroken :
      (call : Call) (input : Input) (context : Context) (log : Log)
      → ((s t : String) → crypto.digest s ≡ crypto.digest t → s ≡ t)
      → ((s : String) → crypto.trim (crypto.digest s) ≡ crypto.digest s)
      → IsKept crypto (input_of call input) context
      → IsOrdered log
      → is_empty log.events ≡ false
      → find_latest_by_resource input.resource_type input.resource_id log ≡ none
      → IsBroken none (whole_order (record_call crypto call input context log).events)
  unfolding record_access_denied record_replay_attempt record_export_attempt
  record_call_first-IsBroken recorded input = record_first-IsBroken input
  record_call_first-IsBroken denied input = record_first-IsBroken _
  record_call_first-IsBroken replayed input = record_first-IsBroken _
  record_call_first-IsBroken exported input = record_first-IsBroken _

  record_call-filled :
      (call : Call) (input : Input) (context : Context) (log : Log)
      → is_empty (record_call crypto call input context log).events ≡ false
  unfolding record_access_denied record_replay_attempt record_export_attempt record_audit_event
      append_audit_event
  record_call-filled recorded input context log = refl
  record_call-filled denied input context log = refl
  record_call-filled replayed input context log = refl
  record_call-filled exported input context log = refl

  record_all-filled :
      (calls : List (Call × Input × Context)) (log : Log)
      → is_empty log.events ≡ false
      → is_empty (record_all crypto calls log).events ≡ false
  record_all-filled [] log h = h
  record_all-filled (call ∷ calls) log h =
      record_all-filled calls (record_call crypto call.0 call.1 call.2 log)
        (record_call-filled call.0 call.1 call.2 log)

-- Once something is recorded, the first event of a resource that has none yet breaks the verification of
-- the whole log, then and after all further recordings: the verification expects each event to follow the
-- event recorded before it, and not the latest of its own resource. The schema changes nothing of what is
-- hashed of that first event; the digest has no collision, is never empty and is left by trimming.
pub whole_log_never_verifies :
    (crypto : Crypto) (first : Call × Input × Context) (before : List (Call × Input × Context))
    (call : Call × Input × Context) (after : List (Call × Input × Context))
    → ((s t : String) → crypto.digest s ≡ crypto.digest t → s ≡ t)
    → ((s : String) → crypto.trim (crypto.digest s) ≡ crypto.digest s)
    → ((s : String) → crypto.digest s ≢ "")
    → IsKept crypto (input_of call.0 call.1) call.2
    → find_latest_by_resource call.1.resource_type call.1.resource_id
        (record_all crypto (first ∷ before) empty_log)
      ≡ none
    → let log = record_all crypto (first ∷ before) empty_log in
      (verify_audit_chain crypto
        (λ e. true)
        (record_all crypto after (record_call crypto call.0 call.1 call.2 log)).events).ok
      ≡ false
unfolding verify_audit_chain IsOrdered Ordered
whole_log_never_verifies crypto first before call after injective hex filled kept new =
    let one = record_call crypto first.0 first.1 first.2 empty_log in
    let log = record_all crypto before one in
    let ordered = record_all-IsOrdered crypto (first ∷ before) empty_log hex filled (tt, tt) in
    let some_event =
      record_all-filled crypto before one
        (record_call-filled crypto first.0 first.1 first.2 empty_log) in
    record_all-IsBroken crypto after (record_call crypto call.0 call.1 call.2 log) hex filled
      (record_call-IsOrdered crypto call.0 call.1 call.2 log hex filled ordered)
      (record_call_first-IsBroken crypto call.0 call.1 call.2 log injective hex kept ordered
        some_event new)
