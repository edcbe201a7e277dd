-- ===== src/Store/Logged.antt =====
-- A collection that can be run: the list of all writes, the latest first.
use udyog_setu.Common.{
  ℕ, Bool, true, false, not, ◌&&◌, Option, none, some, List, [], ◌∷◌, ◌≡◌, if◌then◌else◌, ◌==◌,
  arith, inl, inr, Bool-cases, All, Memᴰ, ap,
}

module _ {D : Type 0} (id_of : D → ℕ) where
  abbrev pub get : ℕ → List D → Option D
  get k [] = none
  get k (d ∷ s) = if id_of d == k then some d else get k s

  -- A write hides the older writes of the same id.
  abbrev pub find_one : (D → Bool) → List D → Option D
  find_one p [] = none
  find_one p (d ∷ s) =
      let older = find_one (λ e. p e && not (id_of d == id_of e)) s in if p d then some d else older

  pub find_one_sound :
      (p : D → Bool) (s : List D) (d : D)
      → find_one p s ≡ some d
      → (p d ≡ true) × (get (id_of d) s ≡ some d)
  find_one_sound p [] d h = ground arith
  find_one_sound p (e ∷ s) d h =
      ground (arith, find_one_sound (λ (x : D). p x && not (id_of e == id_of x)) s d)

  pub get-id : (k : ℕ) (s : List D) (d : D) → get k s ≡ some d → id_of d ≡ k
  get-id k [] d h = ground arith
  get-id k (e ∷ s) d h = ground (arith, get-id k s d)

  pub find_one_complete :
      (p : D → Bool) (s : List D) (k : ℕ) (d : D)
      → find_one p s ≡ none
      → get k s ≡ some d
      → p d ≡ false
  find_one_complete p [] k d h g = ground arith
  find_one_complete p (e ∷ s) k d h g =
      ground
        (arith, find_one_complete (λ (x : D). p x && not (id_of e == id_of x)) s k d, get-id k s d)

  abbrev pub find : (D → Bool) → List D → List D
  find p [] = []
  find p (d ∷ s) =
      let older = find (λ e. p e && not (id_of d == id_of e)) s in if p d then d ∷ older else older

  weaken :
      (p : D → Bool) (e : D) (s xs : List D)
      → All (λ x. ((p x && not (id_of e == id_of x)) ≡ true) × (get (id_of x) s ≡ some x)) xs
      → All (λ x. (p x ≡ true) × (get (id_of x) (e ∷ s) ≡ some x)) xs
  weaken p e s [] h = tt
  weaken p e s (x ∷ xs) h = (ground arith, weaken p e s xs h.1)

  pub find_sound :
      (p : D → Bool) (s : List D) → All (λ d. (p d ≡ true) × (get (id_of d) s ≡ some d)) (find p s)
  find_sound p [] = tt
  find_sound p (e ∷ s) =
      let older =
        weaken p e s (find (λ x. p x && not (id_of e == id_of x)) s)
          (find_sound (λ x. p x && not (id_of e == id_of x)) s) in
      elim (Bool-cases (p e)) [
        | inl hit ↦ rw hit ((hit, ground arith), older)
        | inr miss ↦ rw miss older
      ]

  mem_if : (b : Bool) {d : D} (e : D) {xs : List D} → Memᴰ d xs → Memᴰ d (if b then e ∷ xs else xs)
  mem_if true e m = Memᴰ.tail m
  mem_if false e m = m

  pub find_complete :
      (p : D → Bool) (s : List D) (k : ℕ) (d : D)
      → get k s ≡ some d
      → p d ≡ true
      → Memᴰ d (find p s)
  find_complete p [] k d g h = cc
  find_complete p (e ∷ s) k d g h = elim (Bool-cases (id_of e == k)) [
    | inl same ↦
        let this : d ≡ e = ground arith in
        let hit : p e ≡ true = ground (arith, ap p this) in rw hit (Memᴰ.head this)
    | inr other ↦
        let older : get k s ≡ some d = ground arith in
        mem_if (p e) e (
          find_complete (λ x. p x && not (id_of e == id_of x)) s k d older
            (ground (arith, get-id k s d older)))
  ]
