-- ===== src/Audit/Ordering.antt =====
-- Events in the order of their sequence numbers: sorting, and the latest one.
use udyog_setu.Common.{
  ℕ, String, Option, none, some, Bool, true, false, List, [], ◌∷◌, ◌++◌, ◌≡◌, ◌<◌, ◌≤◌, refl, ap,
  All, keep, arith, inl, inr, Bool-cases, leb, Option-cases,
}
use udyog_setu.Audit.Events.{Event, insert_by_sequence, sort_by_sequence}
use udyog_setu.Audit.Log.{latest}

unfoldable pub Before : ℕ → Event → Type 0
Before n e = e.audit_sequence < n

pub All-weaken : (m n : ℕ) (es : List Event) → m ≤ n → All (Before m) es → All (Before n) es
unfolding Before
All-weaken m n [] le h = tt
All-weaken m n (e ∷ es) le h = (omega (arith, le, h.0), All-weaken m n es le h.1)

pub All-keep :
    (p : Event → Bool) (n : ℕ) (es : List Event) → All (Before n) es → All (Before n) (keep p es)
All-keep p n [] h = tt
All-keep p n (e ∷ es) h = elim (Bool-cases (p e)) [
  | inl hit ↦ rw hit (h.0, All-keep p n es h.1)
  | inr miss ↦ rw miss (All-keep p n es h.1)
]

pub All-insert_by_sequence :
    (n : ℕ) (e : Event) (es : List Event)
    → Before n e
    → All (Before n) es
    → All (Before n) (insert_by_sequence e es)
All-insert_by_sequence n e [] b h = (b, tt)
All-insert_by_sequence n e (x ∷ xs) b h =
    elim (Bool-cases (leb e.audit_sequence x.audit_sequence)) [
      | inl small ↦ rw small (b, h)
      | inr large ↦ rw large (h.0, All-insert_by_sequence n e xs b h.1)
    ]

pub All-sort_by_sequence :
    (n : ℕ) (es : List Event) → All (Before n) es → All (Before n) (sort_by_sequence es)
All-sort_by_sequence n [] h = tt
All-sort_by_sequence n (e ∷ es) h =
    All-insert_by_sequence n e (sort_by_sequence es) h.0 (All-sort_by_sequence n es h.1)

-- An event later than all others is sorted to the end.
pub insert_last :
    (e : Event) (es : List Event)
    → All (Before e.audit_sequence) es
    → insert_by_sequence e es ≡ es ++ (e ∷ [])
unfolding Before
insert_last e [] h = refl
insert_last e (x ∷ xs) h =
    let late : leb e.audit_sequence x.audit_sequence ≡ false = ground (arith, h.0) in
    rw late (ap (λ t. x ∷ t) (insert_last e xs h.1))

abbrev pub sequence_of : Option Event → ℕ
sequence_of none = 0
sequence_of (some e) = e.audit_sequence

abbrev pub stored_hash_of : Option Event → Option String
stored_hash_of none = none
stored_hash_of (some e) = some e.current_hash

pub latest-Before :
    (p : Event → Bool) (n : ℕ) (es : List Event) (x : Event)
    → All (Before n) es
    → latest p es ≡ some x
    → Before n x
unfolding Before
latest-Before p n [] x h f = ground arith
latest-Before p n (e ∷ es) x h f = elim (Bool-cases (p e)) [
  | inr miss ↦ latest-Before p n es x h.1 (rw miss at f)
  | inl hit ↦ elim (Option-cases (latest p es)) [
    | inl alone ↦
        let same : some e ≡ some x = rw (hit, alone) at f in
        ground (arith, ap sequence_of same, h.0)
    | inr (y, found) ↦
        let bound = latest-Before p n es y h.1 found in
        elim (Bool-cases (leb y.audit_sequence e.audit_sequence)) [
          | inl newer ↦
              let same : some e ≡ some x = rw (hit, found, newer) at f in
              ground (arith, ap sequence_of same, h.0)
          | inr older ↦
              let same : some y ≡ some x = rw (hit, found, older) at f in
              ground (arith, ap sequence_of same, bound)
        ]
  ]
]

-- The last of the recorded events is the latest of those that match, if it matches.
pub latest_new :
    (p : Event → Bool) (e : Event) (es : List Event)
    → All (Before e.audit_sequence) es
    → p e ≡ true
    → latest p (e ∷ es) ≡ some e
unfolding Before
latest_new p e es h hit = elim (Option-cases (latest p es)) [
  | inl alone ↦ rw (hit, alone) refl
  | inr (y, found) ↦
      let bound = latest-Before p e.audit_sequence es y h found in
      let newer : leb y.audit_sequence e.audit_sequence ≡ true = ground (arith, bound) in
      rw (hit, found, newer) refl
]

pub sort_new :
    (p : Event → Bool) (e : Event) (es : List Event)
    → All (Before e.audit_sequence) es
    → p e ≡ true
    → sort_by_sequence (keep p (e ∷ es)) ≡ sort_by_sequence (keep p es) ++ (e ∷ [])
sort_new p e es h hit = rw hit (
    insert_last e (sort_by_sequence (keep p es))
      (All-sort_by_sequence e.audit_sequence (keep p es) (All-keep p e.audit_sequence es h)))
