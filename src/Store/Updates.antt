-- ===== src/Store/Updates.antt =====
-- `findOneAndUpdate` and `updateMany` of Mongoose over a collection.
use udyog_setu.Common.{
  ℕ, Bool, true, false, Option, none, some, List, [], ◌∷◌, ◌≡◌, refl, sym, ap, subst, ◌∙◌, Memᴰ,
  All, any, if◌then◌else◌, ◌==◌, arith, inl, inr, Bool-cases, Option-cases,
}
use udyog_setu.Store.{Collection}

module _ {D : Type 0} {id_of : D → ℕ} (S : Collection D id_of) where
  -- The document found is replaced by its update, which is returned.
  abbrev pub update_one : (D → Bool) → (D → D) → S.Docs → S.Docs × Option D
  update_one p f s = elim (S.find_one p s) [
    | none ↦ (s, none)
    | some d ↦ (S.put (f d) s, some (f d))
  ]

  abbrev pub put_all : (D → D) → List D → S.Docs → S.Docs
  put_all f [] s = s
  put_all f (d ∷ ds) s = put_all f ds (S.put (f d) s)

  abbrev pub update_many : (D → Bool) → (D → D) → S.Docs → S.Docs
  update_many p f s = put_all f (S.find p s) s

  get-put_all :
      (f : D → D) (k : ℕ) (d : D) (ds : List D) (s : S.Docs)
      → ((e : D) → id_of (f e) ≡ id_of e)
      → All (λ e. id_of e ≡ k → e ≡ d) ds
      → S.get k (put_all f ds s) ≡ (if any (λ e. id_of e == k) ds then some (f d) else S.get k s)
  get-put_all f k d [] s keeps same = refl
  get-put_all f k d (e ∷ ds) s keeps same =
      let rest = get-put_all f k d ds (S.put (f e) s) keeps same.1 in
      let written = S.get-put k (f e) s in
      elim (Bool-cases (any (λ e. id_of e == k) ds)) [
        | inl again ↦ elim (Bool-cases (id_of e == k)) [
          | inl this ↦ rw (rest, again, this) refl
          | inr other ↦ rw (rest, again, other) refl
        ]
        | inr last ↦ elim (Bool-cases (id_of e == k)) [
          | inl this ↦
              let found : e ≡ d = same.0 (ground arith) in
              rw (rest, last, written, keeps e, this, found) refl
          | inr other ↦ rw (rest, last, written, keeps e, other) refl
        ]
      ]

  pub stored_same :
      (k : ℕ) (d e : D) (s : S.Docs)
      → S.get k s ≡ some d
      → S.get (id_of e) s ≡ some e
      → id_of e ≡ k
      → e ≡ d
  stored_same k d e s found stored same =
      ap (λ o. elim o [ none ↦ d | some x ↦ x ]) (sym stored ∙ ap (λ i. S.get i s) same ∙ found)

  sound_same :
      (p : D → Bool) (k : ℕ) (d : D) (ds : List D) (s : S.Docs)
      → S.get k s ≡ some d
      → All (λ e. (p e ≡ true) × (S.get (id_of e) s ≡ some e)) ds
      → All (λ e. id_of e ≡ k → e ≡ d) ds
  sound_same p k d [] s found sound = tt
  sound_same p k d (e ∷ ds) s found sound =
      (stored_same k d e s found sound.0.1, sound_same p k d ds s found sound.1)

  pub find_one_hit :
      (p : D → Bool) (k : ℕ) (d : D) (s : S.Docs)
      → ((e : D) → S.get (id_of e) s ≡ some e → p e ≡ true → id_of e ≡ k)
      → S.get k s ≡ some d
      → p d ≡ true
      → S.find_one p s ≡ some d
  find_one_hit p k d s only found match = elim (Option-cases (S.find_one p s)) [
    | inl nothing ↦ ground (arith, S.find_one_complete p s k d nothing found)
    | inr (e, hit) ↦
        let sound = S.find_one_sound p s e hit in
        hit ∙ ap some (stored_same k d e s found sound.1 (only e sound.1 sound.0))
  ]

  any_member :
      (k : ℕ) (d : D) (ds : List D) → id_of d ≡ k → Memᴰ d ds → any (λ e. id_of e == k) ds ≡ true
  any_member k d [] same member = elim member [ ]
  any_member k d (e ∷ ds) same (Memᴰ.head h) = ground (arith, ap id_of h)
  any_member k d (e ∷ ds) same (Memᴰ.tail h) = ground (arith, any_member k d ds same h)

  none_member :
      (p : D → Bool) (k : ℕ) (d : D) (ds : List D) (s : S.Docs)
      → S.get k s ≡ some d
      → p d ≡ false
      → All (λ e. (p e ≡ true) × (S.get (id_of e) s ≡ some e)) ds
      → any (λ e. id_of e == k) ds ≡ false
  none_member p k d [] s found miss sound = refl
  none_member p k d (e ∷ ds) s found miss sound =
      let rest = none_member p k d ds s found miss sound.1 in
      elim (Bool-cases (id_of e == k)) [
        | inr other ↦ rw (other, rest) refl
        | inl this ↦
            let same = stored_same k d e s found sound.0.1 (ground arith) in
            ground (arith, ap p same, sound.0.0)
      ]

  -- After `updateMany`, a stored document is its update where it matched, and as it was where not.
  pub get-update_many :
      (p : D → Bool) (f : D → D) (k : ℕ) (d : D) (s : S.Docs)
      → ((e : D) → id_of (f e) ≡ id_of e)
      → S.get k s ≡ some d
      → S.get k (update_many p f s) ≡ some (if p d then f d else d)
  get-update_many p f k d s keeps found =
      let sound = S.find_sound p s in
      let law =
        get-put_all f k d (S.find p s) s keeps (sound_same p k d (S.find p s) s found sound) in
      elim (Bool-cases (p d)) [
        | inl hit ↦
            rw
              (
                law,
                any_member k d (S.find p s) (S.get-id k s d found)
                    (S.find_complete p s k d found hit),
                hit,
              )
              refl
        | inr miss ↦ rw (law, none_member p k d (S.find p s) s found miss sound, miss) found
      ]

  -- What `findOneAndUpdate` does not match, it leaves.
  pub get-update_one_miss :
      (p : D → Bool) (f : D → D) (k : ℕ) (d : D) (s : S.Docs)
      → ((e : D) → id_of (f e) ≡ id_of e)
      → S.get k s ≡ some d
      → p d ≡ false
      → S.get k (update_one p f s).0 ≡ some d
  get-update_one_miss p f k d s keeps found miss = elim (Option-cases (S.find_one p s)) [
    | inl none_found ↦ rw (none_found, update_one) found
    | inr (e, hit) ↦
        let sound = S.find_one_sound p s e hit in
        elim (Bool-cases (id_of e == k)) [
          | inr other ↦ rw (hit, update_one, S.get-put k (f e) s, keeps e, other) found
          | inl this ↦
              let same = stored_same k d e s found sound.1 (ground arith) in
              ground (arith, ap p same, sound.0)
        ]
  ]

  -- Where only the document of one id matches, the stored one that does is updated.
  pub update_one_hit :
      (p : D → Bool) (f : D → D) (k : ℕ) (d : D) (s : S.Docs)
      → ((e : D) → S.get (id_of e) s ≡ some e → p e ≡ true → id_of e ≡ k)
      → S.get k s ≡ some d
      → p d ≡ true
      → update_one p f s ≡ (S.put (f d) s, some (f d))
  update_one_hit p f k d s only found match =
      rw (find_one_hit p k d s only found match, update_one) refl

  -- A property of every stored document.
  abbrev pub Stored {κ} : (D → Type κ) → S.Docs → Type κ
  Stored P s = (k : ℕ) (d : D) → S.get k s ≡ some d → P d

  pub Stored-put {κ} :
      (P : D → Type κ) (d : D) (s : S.Docs) → P d → Stored P s → Stored P (S.put d s)
  Stored-put P d s new old k e found =
      let written = sym (S.get-put k d s) ∙ found in
      elim (Bool-cases (id_of d == k)) [
        | inl this ↦
            let same : some d ≡ some e = rw this at written in
            subst P (ap (λ o. elim o [ none ↦ d | some x ↦ x ]) same) new
        | inr other ↦ old k e (rw other at written)
      ]

  pub Stored-update_one {κ} :
      (P : D → Type κ) (p : D → Bool) (f : D → D) (s : S.Docs)
      → ((d : D) → P d → P (f d))
      → Stored P s
      → Stored P (update_one p f s).0
  Stored-update_one P p f s step old = elim (Option-cases (S.find_one p s)) [
    | inl nothing ↦ rw (nothing, update_one) old
    | inr (d, hit) ↦
        rw (hit, update_one)
          (Stored-put P (f d) s (step d (old (id_of d) d (S.find_one_sound p s d hit).1)) old)
  ]
