-- ===== src/Store.antt =====
-- The document database, which the services reach through Mongoose: a collection holds at most one
-- document for each id. A query returns stored documents that match its filter, and finds none only
-- if none is stored. Which of several matching documents `findOne` returns is left open.
pub mod Logged
pub mod Updates
use Logged
use udyog_setu.Common.{
  ℕ, Bool, true, false, Option, none, some, List, ◌∷◌, ◌≡◌, refl, Memᴰ, All, if◌then◌else◌, ◌==◌,
}

pub record Collection (D : Type 0) (id_of : D → ℕ) : Type 1 where
  pub Docs : Type 0
  -- `findById`.
  pub get : ℕ → Docs → Option D
  -- `save` of a document, and the insertion of one whose id is fresh.
  pub put : D → Docs → Docs
  -- `findOne`.
  pub find_one : (D → Bool) → Docs → Option D
  -- `find`.
  pub find : (D → Bool) → Docs → List D
  pub get-put :
      (k : ℕ) (d : D) (s : Docs) → get k (put d s) ≡ (if id_of d == k then some d else get k s)
  pub find_one_sound :
      (p : D → Bool) (s : Docs) (d : D)
      → find_one p s ≡ some d
      → (p d ≡ true) × (get (id_of d) s ≡ some d)
  pub find_one_complete :
      (p : D → Bool) (s : Docs) (k : ℕ) (d : D)
      → find_one p s ≡ none
      → get k s ≡ some d
      → p d ≡ false
  pub get-id : (k : ℕ) (s : Docs) (d : D) → get k s ≡ some d → id_of d ≡ k
  pub find_sound :
      (p : D → Bool) (s : Docs) → All (λ d. (p d ≡ true) × (get (id_of d) s ≡ some d)) (find p s)
  pub find_complete :
      (p : D → Bool) (s : Docs) (k : ℕ) (d : D) → get k s ≡ some d → p d ≡ true → Memᴰ d (find p s)

-- The collection that can be run.
abbrev pub logged : (D : Type 0) (id_of : D → ℕ) → Collection D id_of
logged D id_of = record {
  Docs = List D;
  get = Logged.get id_of;
  put = ◌∷◌;
  find_one = Logged.find_one id_of;
  find = Logged.find id_of;
  get-put = λ k d s. refl;
  find_one_sound = Logged.find_one_sound id_of;
  find_one_complete = Logged.find_one_complete id_of;
  get-id = Logged.get-id id_of;
  find_sound = Logged.find_sound id_of;
  find_complete = Logged.find_complete id_of;
}
