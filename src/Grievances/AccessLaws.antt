-- ===== src/Grievances/AccessLaws.antt =====
-- Who sees what of a grievance, and what a resolution leaves.
use udyog_setu.Common.{
  ℕ, some, true, false, not, List, [], ◌∷◌, ◌≡◌, refl, inl, inr, Option-cases, Bool-cases, eq_iff,
  All, keep, map, if◌then◌else◌, arith,
}
use udyog_setu.Store.{Collection}
use udyog_setu.Store.Updates.{find_one_hit}
use udyog_setu.Grievances.Records.{Message, Grievance, grievance_id, is_current, find_active}
use udyog_setu.Grievances.Service.{Answer, ok, err, access_denied}
use udyog_setu.Grievances.Reading.{
  User, role_of, is_hidden, redacted, can_view, Filters, in_scope, list_grievances,
  get_grievance_detail,
}

abbrev pub AllShown : Grievance → Type 0
AllShown g = All (λ m. is_hidden m.visibility ≡ false) g.messages

shown_only :
    (ms : List Message)
    → All (λ m. is_hidden m.visibility ≡ false) (keep (λ m. not (is_hidden m.visibility)) ms)
shown_only [] = tt
shown_only (m ∷ ms) = elim (Bool-cases (is_hidden m.visibility)) [
  | inl hidden ↦ rw hidden (shown_only ms)
  | inr shown ↦ rw shown (shown, shown_only ms)
]

redacted-AllShown : (u : User) (g : Grievance) → role_of u ≡ "investor" → AllShown (redacted u g)
unfolding redacted
redacted-AllShown u g investor =
    rw ((eq_iff (role_of u) "investor").1 investor) (shown_only g.messages)

all_shown :
    (u : User) (gs : List Grievance) → role_of u ≡ "investor" → All AllShown (map (redacted u) gs)
all_shown u [] investor = tt
all_shown u (g ∷ gs) investor = (redacted-AllShown u g investor, all_shown u gs investor)

module _ (G : Collection Grievance grievance_id) where
  only_current :
      (id : ℕ) (s : G.Docs) (g : Grievance)
      → G.get g.id s ≡ some g
      → is_current id g ≡ true
      → g.id ≡ id
  only_current id s g stored h = ground arith

  -- What the detail of a stored grievance answers, whoever asks: nothing of it, as if it were not there,
  -- once it is deleted; a refusal to a user who may not view it; and else the grievance, redacted.
  pub detail_answers :
      (u : User) (id : ℕ) (g : Grievance) (s : G.Docs)
      → G.get id s ≡ some g
      → g.is_deleted ≡ false
      → get_grievance_detail G u id s
        ≡ (if can_view u g then ok (redacted u g) else err access_denied)
  unfolding get_grievance_detail find_active
  detail_answers u id g s found kept =
      let hit =
        find_one_hit G (is_current id) id g s (only_current id s) found
          (ground (arith, G.get-id id s g found)) in
      elim (Bool-cases (can_view u g)) [
        | inl may ↦ rw (hit, get_grievance_detail, find_active, may) refl
        | inr may_not ↦ rw (hit, get_grievance_detail, find_active, may_not) refl
      ]

  abbrev pub AnswerShown : Answer Grievance → Type 0
  AnswerShown (ok g) = AllShown g
  AnswerShown (err e) = Unit

  -- An investor is never shown an internal or audit-only message: neither in a list, whatever its filters
  -- and whatever else the investor may open, nor in a grievance that a request for its detail returns.
  pub internal_messages_stay_internal :
      (u : User) (id : ℕ) (filters : Filters) (s : G.Docs)
      → role_of u ≡ "investor"
      → AnswerShown (get_grievance_detail G u id s) × All AllShown (list_grievances G u filters s)
  unfolding get_grievance_detail list_grievances find_active
  internal_messages_stay_internal u id filters s investor = (
    elim (Option-cases (G.find_one (is_current id) s)) [
      | inl missing ↦ rw (missing, get_grievance_detail, find_active) tt
      | inr (h, hit) ↦ elim (Bool-cases (can_view u h)) [
        | inr may_not ↦ rw (hit, get_grievance_detail, find_active, may_not) tt
        | inl may ↦
            rw (hit, get_grievance_detail, find_active, may) (redacted-AllShown u h investor)
      ]
    ],
    all_shown u (G.find (in_scope u filters) s) investor,
  )
