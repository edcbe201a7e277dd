-- ===== src/Common/Order.antt =====
-- The array methods `some`, `every` and `filter` under a permutation of the array.
use mathlib.Core.Path.{◌≡◌, refl, ap, ◌∙◌}
use mathlib.Core.Bool.{Bool, true, false}
use mathlib.Core.List.{List, ◌∷◌, Permᴰ}
use mathlib.Core.List.Permᴰ
use native.Mathlib.Omega.{arith}
use udyog_setu.Common.Tests.{if◌then◌else◌}
use udyog_setu.Common.Lists.{any, all, keep, is_empty}

module _ {ℓ} {A : Type ℓ} where
  pub any-perm : (p : A → Bool) {xs ys : List A} → Permᴰ xs ys → any p xs ≡ any p ys
  any-perm p Permᴰ.nil = refl
  any-perm p (Permᴰ.cons {a} {b} e h) = ground (arith, ap p e, any-perm p h)
  any-perm p (Permᴰ.swap e f) = ground (arith, ap p e, ap p f)
  any-perm p (Permᴰ.trans h k) = any-perm p h ∙ any-perm p k

  pub all-perm : (p : A → Bool) {xs ys : List A} → Permᴰ xs ys → all p xs ≡ all p ys
  all-perm p Permᴰ.nil = refl
  all-perm p (Permᴰ.cons {a} {b} e h) = ground (arith, ap p e, all-perm p h)
  all-perm p (Permᴰ.swap e f) = ground (arith, ap p e, ap p f)
  all-perm p (Permᴰ.trans h k) = all-perm p h ∙ all-perm p k

  cons_if :
      (c : Bool) {a b : A} {xs ys : List A}
      → a ≡ b
      → Permᴰ xs ys
      → Permᴰ (if c then a ∷ xs else xs) (if c then b ∷ ys else ys)
  cons_if true e h = Permᴰ.cons e h
  cons_if false e h = h

  swap_if :
      (c d : Bool) {a b a' b' : A} (l : List A)
      → a ≡ b'
      → b ≡ a'
      → Permᴰ
          (if c then a ∷ (if d then b ∷ l else l) else if d then b ∷ l else l)
          (if d then a' ∷ (if c then b' ∷ l else l) else if c then b' ∷ l else l)
  swap_if true true l e f = Permᴰ.swap e f
  swap_if true false l e f = Permᴰ.cons e (Permᴰ.refl l)
  swap_if false true l e f = Permᴰ.cons f (Permᴰ.refl l)
  swap_if false false l e f = Permᴰ.refl l

  pub keep-perm : (p : A → Bool) {xs ys : List A} → Permᴰ xs ys → Permᴰ (keep p xs) (keep p ys)
  keep-perm p Permᴰ.nil = Permᴰ.nil
  keep-perm p (Permᴰ.cons {a} {b} e h) = rw (← ap p e) (cons_if (p a) e (keep-perm p h))
  keep-perm p (Permᴰ.swap {a} {b} {l} e f) =
      rw (← ap p e, ← ap p f) (swap_if (p a) (p b) (keep p l) e f)
  keep-perm p (Permᴰ.trans h k) = Permᴰ.trans (keep-perm p h) (keep-perm p k)

  pub is_empty-perm : {xs ys : List A} → Permᴰ xs ys → is_empty xs ≡ is_empty ys
  is_empty-perm Permᴰ.nil = refl
  is_empty-perm (Permᴰ.cons e h) = refl
  is_empty-perm (Permᴰ.swap e f) = refl
  is_empty-perm (Permᴰ.trans h k) = is_empty-perm h ∙ is_empty-perm k
