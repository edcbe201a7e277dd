-- ===== src/Audit/TamperLaws.antt =====
-- What the verification of a chain can tell: changes of the hashed fields, and no others.
use text.Mathlib.TextLemmas.{append_cancel_left}
use mathlib.Core.Bool.{true≢false}
use udyog_setu.Common.{
  String, Option, some, List, [], ◌∷◌, ◌≡◌, refl, sym, ap, ◌∙◌, map, str_eq, eq_iff, inl, inr,
  Bool-cases, is_empty, All, ◌↔◌,
}
use udyog_setu.Audit.Events.{
  Event, Crypto, or_empty, canonical, canonicalise_audit_payload, compute_audit_hash, chain_issues,
}

abbrev pub payloads : Crypto → List Event → List String
payloads crypto = map (canonicalise_audit_payload crypto)

abbrev Fits : Crypto → Option String → Event → Type 0
Fits crypto previous e =
    e.current_hash ≡ compute_audit_hash crypto (canonicalise_audit_payload crypto e) previous

passes :
    (crypto : Crypto) (previous : Option String) (e : Event) (es : List Event)
    → Fits crypto previous e
    → chain_issues crypto (some e.current_hash) es ≡ []
    → chain_issues crypto previous (e ∷ es) ≡ []
unfolding chain_issues
passes crypto previous e es fits rest =
    rw
      ((eq_iff e.current_hash
          (compute_audit_hash crypto (canonicalise_audit_payload crypto e) previous)).1
        fits)
      rest

passes_only :
    (crypto : Crypto) (previous : Option String) (e : Event) (es : List Event)
    → chain_issues crypto previous (e ∷ es) ≡ []
    → Fits crypto previous e × (chain_issues crypto (some e.current_hash) es ≡ [])
unfolding chain_issues
passes_only crypto previous e es ok =
    let expected = compute_audit_hash crypto (canonicalise_audit_payload crypto e) previous in
    elim (Bool-cases (str_eq e.current_hash expected)) [
      | inl good ↦ ((eq_iff e.current_hash expected).0 good, rw good at ok)
      | inr bad ↦ absurd (true≢false (sym (ap is_empty (rw bad at ok))))
    ]

-- A record of the same hash fits the same place of the chain only if its hashed contents are the same.
Fits-same :
    (crypto : Crypto) (previous : Option String) (e f : Event)
    → ((s t : String) → crypto.digest s ≡ crypto.digest t → s ≡ t)
    → f.current_hash ≡ e.current_hash
    → Fits crypto previous e
    → Fits crypto previous f
    → canonicalise_audit_payload crypto f ≡ canonicalise_audit_payload crypto e
unfolding compute_audit_hash
Fits-same crypto previous e f injective same fits fits' =
    append_cancel_left "|" (canonicalise_audit_payload crypto f)
      (canonicalise_audit_payload crypto e)
      (append_cancel_left (or_empty previous) _ _ (injective _ _ (sym fits' ∙ same ∙ fits)))

-- Where the digest has no collision: of all changes to a chain that verifies which leave the stored
-- hashes, exactly those that leave every event's hashed contents are not noticed.
pub tampering_is_detected :
    (crypto : Crypto) (tamper : Event → Event) (previous : Option String) (es : List Event)
    → ((s t : String) → crypto.digest s ≡ crypto.digest t → s ≡ t)
    → ((e : Event) → (tamper e).current_hash ≡ e.current_hash)
    → chain_issues crypto previous es ≡ []
    → (chain_issues crypto previous (map tamper es) ≡ [])
      ↔ All
          (λ e. canonicalise_audit_payload crypto (tamper e) ≡ canonicalise_audit_payload crypto e)
          es
unfolding chain_issues
tampering_is_detected crypto tamper previous [] injective keeps ok = (λ h. tt, λ h. refl)
tampering_is_detected crypto tamper previous (e ∷ es) injective keeps ok =
    let before = passes_only crypto previous e es ok in
    let rest =
      tampering_is_detected crypto tamper (some e.current_hash) es injective keeps before.1 in
    (
      λ h.
          let after = passes_only crypto previous (tamper e) (map tamper es) h in
          (
            Fits-same crypto previous e (tamper e) injective (keeps e) before.0 after.0,
            rest.0 (rw (keeps e) at after.1),
          ),
      λ h.
          passes crypto previous (tamper e) (map tamper es)
            (keeps e ∙ before.0 ∙ ap (λ c. compute_audit_hash crypto c previous) (sym h.0))
            (rw (keeps e) (rest.1 h.1)),
    )

-- The recorded states before and after an action, and the hashes of the address and the agent, are not
-- among what is hashed.
abbrev pub rewrite_states : Option String → Option String → Option String → Event → Event
rewrite_states before after ip_address_hash e = record e {
  before = before;
  after = after;
  ip_address_hash = ip_address_hash;
}

-- They can be overwritten in every event of a chain: its verification finds the same issues.
pub states_are_not_protected :
    (crypto : Crypto) (before after ip_address_hash previous : Option String) (es : List Event)
    → chain_issues crypto previous (map (rewrite_states before after ip_address_hash) es)
      ≡ chain_issues crypto previous es
unfolding chain_issues canonicalise_audit_payload canonical
states_are_not_protected crypto before after ip_address_hash previous [] = refl
states_are_not_protected crypto before after ip_address_hash previous (e ∷ es) =
    rw (states_are_not_protected crypto before after ip_address_hash (some e.current_hash) es) refl
