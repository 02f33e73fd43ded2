-- ===== src/Base/Rows.antt =====
-- What the searches and the deletions of rows keep.
use go_auth_refresh_template.Base.Tests.{Bool-cases}
use go_auth_refresh_template.Base.Lists.{All, find, delete, update, any}
use native.Mathlib.Omega.{arith}
use mathlib.Core.Path.{◌≡◌, refl}
use mathlib.Core.Logic.{inl, inr}
use mathlib.Core.Bool.{Bool, true, false}
use mathlib.Core.Option.{none, some}
use mathlib.Core.List.{List, [], ◌∷◌}

module _ {ℓ} {A : Type ℓ} where
  -- What is found satisfies the condition.
  pub find-true : (p : A → Bool) (xs : List A) {x : A} → find p xs ≡ some x → p x ≡ true
  find-true p [] h = ground arith
  find-true p (y ∷ xs) {x} h = ground (arith, find-true p xs {x = x})

  -- A narrower deletion before a wider one adds nothing.
  pub delete_wider :
      (p q : A → Bool) (xs : List A)
      → ((x : A) → p x ≡ true → q x ≡ true)
      → delete p (delete q xs) ≡ delete q xs
  delete_wider p q [] h = refl
  delete_wider p q (x ∷ xs) h = ground (arith, h x, delete_wider p q xs h)

  -- Nor does a narrower search find what a wider deletion has left.
  pub find-delete_wider :
      (p q : A → Bool) (xs : List A)
      → ((x : A) → p x ≡ true → q x ≡ true)
      → find p (delete q xs) ≡ none
  find-delete_wider p q [] h = refl
  find-delete_wider p q (x ∷ xs) h = ground (arith, h x, find-delete_wider p q xs h)

  pub any-delete : (p q : A → Bool) (xs : List A) → any p xs ≡ false → any p (delete q xs) ≡ false
  any-delete p q [] h = refl
  any-delete p q (x ∷ xs) h = ground (arith, any-delete p q xs)

  -- An update that the condition does not see.
  pub any-update :
      (p q : A → Bool) (f : A → A) (xs : List A)
      → ((x : A) → p (f x) ≡ p x)
      → any p (update q f xs) ≡ any p xs
  any-update p q f [] h = refl
  any-update p q f (x ∷ xs) h = ground (arith, h x, any-update p q f xs h)

  -- A narrower condition holds of no row either.
  pub any_narrower :
      (p q : A → Bool) (xs : List A)
      → ((x : A) → p x ≡ true → q x ≡ true)
      → any q xs ≡ false
      → any p xs ≡ false
  any_narrower p q [] imp h = refl
  any_narrower p q (x ∷ xs) imp h = ground (arith, imp x, any_narrower p q xs imp)

  -- No row is the same, in the sense of `same`, as a later one.
  abbrev pub Distinct : (A → A → Bool) → List A → Type 0
  Distinct same [] = Unit
  Distinct same (x ∷ xs) = (any (same x) xs ≡ false) × Distinct same xs

  -- A condition that no row meets is not met by the row that is found.
  pub find-none :
      (p q : A → Bool) (xs : List A) {x : A} → any q xs ≡ false → find p xs ≡ some x → q x ≡ false
  find-none p q [] none_meets h = ground arith
  find-none p q (y ∷ xs) {x} none_meets h = ground (arith, find-none p q xs {x = x})

  pub All-delete {κ} :
      (P : A → Type κ) (p : A → Bool) (xs : List A) → All P xs → All P (delete p xs)
  All-delete P p [] a = tt
  All-delete P p (x ∷ xs) (h, a) = elim (Bool-cases (p x)) [
    | inl e ↦ rw e (All-delete P p xs a)
    | inr e ↦ rw e (h, All-delete P p xs a)
  ]

  -- An update after which the rows satisfy the condition still.
  pub All-update {κ} :
      {P : A → Type κ} (p : A → Bool) (f : A → A) (xs : List A)
      → ((x : A) → P x → P (f x))
      → All P xs
      → All P (update p f xs)
  All-update p f [] k a = tt
  All-update p f (x ∷ xs) k (h, a) =
      (elim (Bool-cases (p x)) [ inl e ↦ rw e (k x h) | inr e ↦ rw e h ], All-update p f xs k a)
