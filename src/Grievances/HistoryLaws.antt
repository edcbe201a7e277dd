-- ===== src/Grievances/HistoryLaws.antt =====
-- The status history of a grievance.
use udyog_setu.Common.{
  ℕ, suc, String, Option, none, some, List, [], ◌∷◌, ◌++◌, ◌≡◌, refl, sym, ◌∙◌, inl, inr,
  Option-cases, Bool-cases, truthy, ◌==◌,
}
use udyog_setu.Store.{Collection}
use udyog_setu.Store.Updates.{Stored, Stored-put, Stored-update_one, update_one}
use udyog_setu.Grievances.Records.{
  Status, acknowledged, escalated, resolved, closed, Priority, StatusEntry, Grievance, grievance_id,
  Context, with_entry, find_active, is_current, push_message, push_status_history, update_by_id,
}
use udyog_setu.Grievances.Service.{
  Input, MessageInput, Effect, Answer, ok, err, World, created_grievance, create_grievance,
  push_entry, build_status_entry, acknowledge_grievance, assign_grievance, add_message,
  add_internal_comment, add_external_reply, change_status, resolve_grievance, close_grievance,
  reopen_grievance, escalate_grievance, status_patch, then_emit, end_timer, then_update,
}

-- Each entry starts from the status that the entry before it set, the first from none; the last one
-- set this status.
abbrev pub Leads : Option Status → List StatusEntry → Status → Type 0
Leads before [] status = before ≡ some status
Leads before (e ∷ es) status = (e.from_status ≡ before) × Leads (some e.to_status) es status

abbrev pub IsTracked : Grievance → Type 0
IsTracked g = Leads none g.status_history g.status

Leads-push :
    (before : Option Status) (es : List StatusEntry) (status : Status) (e : StatusEntry)
    → Leads before es status
    → e.from_status ≡ some status
    → Leads before (es ++ (e ∷ [])) e.to_status
Leads-push before [] status e h from = (from ∙ sym h, refl)
Leads-push before (x ∷ xs) status e h from =
    (h.0, Leads-push (some x.to_status) xs status e h.1 from)

abbrev Extends : (Grievance → StatusEntry) → (Grievance → Grievance → Grievance) → Type 0
Extends entry patch =
    (g : Grievance) (h : List StatusEntry)
    → let x = patch g (record g { status_history = h }) in
      ((entry g).from_status ≡ some g.status)
      × (x.status ≡ (entry g).to_status)
      × (x.status_history ≡ h)

with_entry-IsTracked :
    (entry : Grievance → StatusEntry) (patch : Grievance → Grievance → Grievance)
    (context : Context) (g : Grievance)
    → Extends entry patch
    → IsTracked g
    → IsTracked (with_entry (entry g) (patch g) context g)
with_entry-IsTracked entry patch context g extends h =
    let law = extends g (g.status_history ++ (entry g ∷ [])) in
    rw (law.1, law.2) (Leads-push none g.status_history g.status (entry g) h law.0)

module _ (G : Collection Grievance grievance_id) where
  abbrev pub AllTracked : World G → Type 0
  AllTracked w = Stored G IsTracked w.grievances

  push_entry-AllTracked :
      (id : ℕ) (entry : Grievance → StatusEntry) (patch : Grievance → Grievance → Grievance)
      (effect : Effect) (context : Context) (w : World G)
      → Extends entry patch
      → AllTracked w
      → AllTracked (push_entry G id entry patch effect context w).0
  unfolding push_entry push_status_history find_active
  push_entry-AllTracked id entry patch effect context w extends h =
      elim (Option-cases (G.find_one (is_current id) w.grievances)) [
        | inl missing ↦ rw (missing, push_entry, find_active) h
        | inr (g, hit) ↦
            rw (hit, push_entry, find_active, push_status_history, update_one, hit)
              (Stored-put G IsTracked (with_entry (entry g) (patch g) context g) w.grievances
                (with_entry-IsTracked entry patch context g extends
                  (h g.id g (G.find_one_sound (is_current id) w.grievances g hit).1))
                h)
      ]

  add_message-AllTracked :
      (id : ℕ) (input : MessageInput) (context : Context) (w : World G)
      → AllTracked w
      → AllTracked (add_message G id input context w).0
  unfolding add_message push_message find_active
  add_message-AllTracked id input context w h =
      elim (Option-cases (G.find_one (is_current id) w.grievances)) [
        | inl missing ↦ rw (missing, add_message, find_active) h
        | inr (g, hit) ↦
            rw (hit, add_message, find_active)
              (Stored-update_one G IsTracked (is_current id) _ w.grievances (λ d t. t) h)
      ]

  then_emit-AllTracked :
      (e : Effect) (r : World G × Answer Grievance)
      → AllTracked r.0
      → AllTracked (then_emit G e r).0
  then_emit-AllTracked e (w, ok g) h = h
  then_emit-AllTracked e (w, err x) h = h

  end_timer-AllTracked :
      (s : Status) (id : ℕ) (r : World G × Answer Grievance)
      → AllTracked r.0
      → AllTracked (end_timer G s id r).0
  end_timer-AllTracked s id (w, ok g) h = h
  end_timer-AllTracked s id (w, err x) h = h

  then_update-AllTracked :
      (id : ℕ) (f : Grievance → Grievance) (r : World G × Answer Grievance)
      → ((g : Grievance) → IsTracked g → IsTracked (f g))
      → AllTracked r.0
      → AllTracked (then_update G id f r).0
  unfolding update_by_id
  then_update-AllTracked id f (w, ok g) keeps h =
      Stored-update_one G IsTracked (λ x. x.id == id) f w.grievances keeps h
  then_update-AllTracked id f (w, err x) keeps h = h

  change_status-AllTracked :
      (id : ℕ) (next : Status) (reason : Option String) (context : Context) (w : World G)
      → AllTracked w
      → AllTracked (change_status G id next reason context w).0
  unfolding change_status build_status_entry
  change_status-AllTracked id next reason context w h = end_timer-AllTracked next id _ (
      push_entry-AllTracked id _ (λ g. status_patch context.now next) _ context w
        (λ g l. (refl, refl, refl)) h)

-- The operations of the service that change a grievance.
pub data Operation : Type 0 where
  create : (Priority → ℕ) → ℕ → Input → Context → Operation
  acknowledge : ℕ → Context → Operation
  assign : ℕ → Option String → Option String → Context → Operation
  say comment reply : ℕ → MessageInput → Context → Operation
  change : ℕ → Status → Option String → Context → Operation
  resolve : ℕ → Option String → Option String → Option ℕ → Context → Operation
  close : ℕ → Option String → Option String → Context → Operation
  reopen : ℕ → Option String → Context → Operation
  escalate : ℕ → Option String → Option String → Context → Operation

module _ (G : Collection Grievance grievance_id) where
  abbrev pub perform : Operation → World G → World G × Answer Grievance
  perform (create days id input context) = create_grievance G days id input context
  perform (acknowledge id context) = acknowledge_grievance G id context
  perform (assign id to role context) = assign_grievance G id to role context
  perform (say id input context) = add_message G id input context
  perform (comment id input context) = add_internal_comment G id input context
  perform (reply id input context) = add_external_reply G id input context
  perform (change id next reason context) = change_status G id next reason context
  perform (resolve id summary reason rating context) =
      resolve_grievance G id summary reason rating context
  perform (close id why reason context) = close_grievance G id why reason context
  perform (reopen id reason context) = reopen_grievance G id reason context
  perform (escalate id reason owner context) = escalate_grievance G id reason owner context

  abbrev pub perform_all : List Operation → World G → World G
  perform_all [] w = w
  perform_all (o ∷ os) w = perform_all os (perform o w).0

  perform-AllTracked : (o : Operation) (w : World G) → AllTracked G w → AllTracked G (perform o w).0
  unfolding create_grievance created_grievance acknowledge_grievance assign_grievance
      add_internal_comment add_external_reply resolve_grievance close_grievance reopen_grievance
      escalate_grievance build_status_entry
  perform-AllTracked (create days id input context) w h =
      Stored-put G IsTracked (created_grievance days id input context) w.grievances (refl, refl) h
  perform-AllTracked (acknowledge id context) w h =
      push_entry-AllTracked G id _
        (λ g x. record x { status = acknowledged; acknowledged_at = some context.now }) _ context w
        (λ g l. (refl, refl, refl)) h
  perform-AllTracked (assign id to role context) w h =
      push_entry-AllTracked G id _ (λ g x. record x { assigned_to = to; assigned_role = role }) _
        context w (λ g l. (refl, refl, refl)) h
  perform-AllTracked (say id input context) w h = add_message-AllTracked G id input context w h
  perform-AllTracked (comment id input context) w h =
      then_emit-AllTracked G _ _ (add_message-AllTracked G id _ context w h)
  perform-AllTracked (reply id input context) w h =
      then_emit-AllTracked G _ _ (add_message-AllTracked G id _ context w h)
  perform-AllTracked (change id next reason context) w h =
      change_status-AllTracked G id next reason context w h
  perform-AllTracked (resolve id summary reason rating context) w h =
      elim (Bool-cases (truthy summary)) [
        | inl given ↦ rw given (
            then_update-AllTracked G id _ _ (λ g t. t)
              (change_status-AllTracked G id resolved _ context w h))
        | inr missing ↦ rw missing h
      ]
  perform-AllTracked (close id why reason context) w h = elim (Bool-cases (truthy why)) [
    | inl given ↦ rw given (
        then_update-AllTracked G id _ _ (λ g t. t)
          (change_status-AllTracked G id closed _ context w h))
    | inr missing ↦ rw missing h
  ]
  perform-AllTracked (reopen id reason context) w h = change_status-AllTracked G id _ _ context w h
  perform-AllTracked (escalate id reason owner context) w h =
      push_entry-AllTracked G id _
        (λ g x. record x {
          status = escalated;
          escalation_level = suc g.escalation_level;
          current_escalation_owner = owner;
        })
        _ context w (λ g l. (refl, refl, refl)) h

  -- In every stored grievance, after any operations on a collection where it was so before: the status
  -- history starts at the creation, each entry starts where the entry before it ended, and the last
  -- entry ends at the grievance's status.
  pub history_is_a_chain :
      (os : List Operation) (w : World G)
      → Stored G IsTracked w.grievances
      → Stored G IsTracked (perform_all os w).grievances
  history_is_a_chain [] w h = h
  history_is_a_chain (o ∷ os) w h = history_is_a_chain os (perform o w).0 (perform-AllTracked o w h)
