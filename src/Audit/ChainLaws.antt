-- ===== src/Audit/ChainLaws.antt =====
-- The chain of the events of each resource, in the log that the recording operations build.
use Prim.Native.String.{◌++◌ as append}
use udyog_setu.Common.{
  ℕ, suc, String, Option, none, some, true, List, [], ◌∷◌, ◌++◌, ◌≡◌, refl, sym, ap, subst, ◌∙◌,
  All, keep, str_eq, eq_iff, arith, inl, inr, Bool-cases, is_empty,
}
use udyog_setu.Audit.Events.{
  Event, Crypto, or_empty, or_null, canonical, canonicalise_audit_payload, compute_audit_hash,
  sort_by_sequence, chain_issues, verify_audit_chain,
}
use udyog_setu.Audit.Ordering.{Before, All-weaken, latest_new, sort_new, stored_hash_of}
use udyog_setu.Audit.Log.{
  Call, input_of, stored_event, record_call, record_all, recorded, denied, replayed, exported,
  Input, Context, Log, empty_log, next_audit_sequence, of_resource, latest, find_latest_by_resource,
  current_hash_of, event_payload, append_audit_event, record_audit_event, record_access_denied,
  record_replay_attempt, record_export_attempt,
}

or_empty-or_null : (o : Option String) → or_empty (or_null o) ≡ or_empty o
or_empty-or_null none = refl
or_empty-or_null (some s) = elim (Bool-cases (str_eq s "")) [
  | inl blank ↦ rw blank (sym ((eq_iff s "").0 blank))
  | inr text ↦ rw text refl
]

-- The same check of the last event, from what the loop has reached.
abbrev pub reached : Option String → List Event → Option String
reached previous [] = previous
reached previous (e ∷ es) = reached (some e.current_hash) es

pub reached_last :
    (previous : Option String) (es : List Event) (e : Event)
    → reached previous (es ++ (e ∷ [])) ≡ some e.current_hash
reached_last previous [] e = refl
reached_last previous (x ∷ xs) e = reached_last (some x.current_hash) xs e

module _ (crypto : Crypto) where
  FitsAfter : Option String → Event → Type 0
  FitsAfter previous e =
      e.current_hash ≡ compute_audit_hash crypto (canonicalise_audit_payload crypto e) previous

  no_issue_last :
      (previous : Option String) (es : List Event) (e : Event)
      → chain_issues crypto previous es ≡ []
      → FitsAfter (reached previous es) e
      → chain_issues crypto previous (es ++ (e ∷ [])) ≡ []
  unfolding chain_issues FitsAfter
  no_issue_last previous [] e ok fits =
      rw
        ((eq_iff e.current_hash
            (compute_audit_hash crypto (canonicalise_audit_payload crypto e) previous)).1
          fits)
        refl
  no_issue_last previous (x ∷ xs) e ok fits =
      elim (Bool-cases (
        str_eq x.current_hash
          (compute_audit_hash crypto (canonicalise_audit_payload crypto x) previous))) [
            | inl good ↦ rw good (no_issue_last (some x.current_hash) xs e (rw good at ok) fits)
            | inr bad ↦ ground (arith, (rw bad at ok))
          ]

  -- Every event's hash follows the hash of the latest earlier event of its resource.
  Linked : List Event → Type 0
  Linked [] = Unit
  Linked (e ∷ es) =
      All (Before e.audit_sequence) es
      × FitsAfter (current_hash_of (latest (of_resource e.resource_type e.resource_id) es)) e
      × Linked es

  FitsAfter-null :
      (o : Option Event) (e : Event)
      → FitsAfter (current_hash_of o) e
      → FitsAfter (stored_hash_of o) e
  unfolding FitsAfter compute_audit_hash
  FitsAfter-null none e fits = fits
  FitsAfter-null (some x) e fits =
      fits
      ∙ ap (λ t. crypto.digest (append t (append "|" (canonicalise_audit_payload crypto e))))
          (or_empty-or_null (some x.current_hash))

  of_resource_same :
      (type id : String) (e : Event)
      → of_resource type id e ≡ true
      → (e.resource_type ≡ type) × (e.resource_id ≡ id)
  of_resource_same type id e hit =
      ground (arith, eq_iff e.resource_type type, eq_iff e.resource_id id)

  Linked-chain :
      (type id : String) (es : List Event)
      → Linked es
      → let chain = sort_by_sequence (keep (of_resource type id) es) in
        (chain_issues crypto none chain ≡ [])
        × (reached none chain ≡ stored_hash_of (latest (of_resource type id) es))
  unfolding Linked chain_issues
  Linked-chain type id [] h = (refl, refl)
  Linked-chain type id (e ∷ es) h = elim (Bool-cases (of_resource type id e)) [
    | inr miss ↦ rw miss (Linked-chain type id es h.2)
    | inl hit ↦
        let p = of_resource type id in
        let before = Linked-chain type id es h.2 in
        let sorted = sort_new p e es h.0 hit in
        let same = of_resource_same type id e hit in
        let filter : of_resource e.resource_type e.resource_id ≡ p =
          ap (λ t. of_resource t e.resource_id) same.0 ∙ ap (of_resource type) same.1 in
        let fits : FitsAfter (current_hash_of (latest p es)) e =
          subst (λ q. FitsAfter (current_hash_of (latest q es)) e) filter h.1 in
        let fits_now : FitsAfter (reached none (sort_by_sequence (keep p es))) e =
          subst (λ o. FitsAfter o e) (sym before.1) (FitsAfter-null (latest p es) e fits) in
        (
          ap (chain_issues crypto none) sorted
              ∙ no_issue_last none (sort_by_sequence (keep p es)) e before.0 fits_now,
          ap (reached none) sorted
              ∙ reached_last none (sort_by_sequence (keep p es)) e
              ∙ sym (ap stored_hash_of (latest_new p e es h.0 hit)),
        )
  ]

  -- The schema changes nothing of what is hashed of this event.
  abbrev pub IsKept : Input → Context → Type 0
  IsKept input context =
      (n : ℕ) (previous : Option String)
      → canonical (stored_event crypto.trim (event_payload crypto.digest context input n previous))
        ≡ canonical (event_payload crypto.digest context input n previous)

  -- What the recording operations keep: the counter is not behind any event, and the events are linked.
  IsRecorded : Log → Type 0
  IsRecorded log = All (Before (suc log.sequence)) log.events × Linked log.events

  record_audit_event-IsRecorded :
      (input : Input) (context : Context) (log : Log)
      → ((s : String) → crypto.trim (crypto.digest s) ≡ crypto.digest s)
      → IsKept input context
      → IsRecorded log
      → IsRecorded (record_audit_event crypto input context log)
  unfolding record_audit_event next_audit_sequence append_audit_event IsRecorded Linked FitsAfter
      Before find_latest_by_resource event_payload canonicalise_audit_payload canonical
      compute_audit_hash stored_event
  record_audit_event-IsRecorded input context log hex kept h =
      let previous =
        current_hash_of (find_latest_by_resource input.resource_type input.resource_id log) in
      (
        (
          omega arith,
          All-weaken (suc log.sequence) (suc (suc log.sequence)) log.events (omega arith) h.0,
        ),
        (
          h.0,
          hex _
              ∙ ap
                  (λ c.
                    crypto.digest (append (or_empty previous) (append "|" (crypto.stringify c))))
                  (sym (kept (suc log.sequence) previous)),
          h.1,
        ),
      )

record_call-IsRecorded :
    (crypto : Crypto) (call : Call) (input : Input) (context : Context) (log : Log)
    → ((s : String) → crypto.trim (crypto.digest s) ≡ crypto.digest s)
    → IsKept crypto (input_of call input) context
    → IsRecorded crypto log
    → IsRecorded crypto (record_call crypto call input context log)
unfolding record_access_denied record_replay_attempt record_export_attempt
record_call-IsRecorded crypto recorded input context log hex kept h =
    record_audit_event-IsRecorded crypto input context log hex kept h
record_call-IsRecorded crypto denied input context log hex kept h =
    record_audit_event-IsRecorded crypto _ context log hex kept h
record_call-IsRecorded crypto replayed input context log hex kept h =
    record_audit_event-IsRecorded crypto _ context log hex kept h
record_call-IsRecorded crypto exported input context log hex kept h =
    record_audit_event-IsRecorded crypto _ context log hex kept h

record_all-IsRecorded :
    (crypto : Crypto) (calls : List (Call × Input × Context)) (log : Log)
    → ((s : String) → crypto.trim (crypto.digest s) ≡ crypto.digest s)
    → All (λ call. IsKept crypto (input_of call.0 call.1) call.2) calls
    → IsRecorded crypto log
    → IsRecorded crypto (record_all crypto calls log)
record_all-IsRecorded crypto [] log hex kept h = h
record_all-IsRecorded crypto (call ∷ calls) log hex kept h =
    record_all-IsRecorded crypto calls (record_call crypto call.0 call.1 call.2 log) hex kept.1
      (record_call-IsRecorded crypto call.0 call.1 call.2 log hex kept.0 h)

-- Where the schema changes nothing of what is hashed of any recorded event, and trimming leaves a digest:
-- whatever the service has recorded, in whatever order over however many resources, the verification of
-- the events of any one resource succeeds and reports no issue.
pub resource_chain_verifies :
    (crypto : Crypto) (calls : List (Call × Input × Context)) (type id : String)
    → ((s : String) → crypto.trim (crypto.digest s) ≡ crypto.digest s)
    → All (λ call. IsKept crypto (input_of call.0 call.1) call.2) calls
    → let verdict =
        verify_audit_chain crypto
          (of_resource type id)
          (record_all crypto calls empty_log).events in
      (verdict.ok ≡ true) × (verdict.issues ≡ [])
unfolding verify_audit_chain IsRecorded Linked
resource_chain_verifies crypto calls type id hex kept =
    let recorded = record_all-IsRecorded crypto calls empty_log hex kept (tt, tt) in
    let issues =
      (Linked-chain crypto type id (record_all crypto calls empty_log).events recorded.1).0 in
    (ap is_empty issues, issues)
