-- ===== src/Prelude/Members.antt =====
-- Members of a list, and the elements that a test finds or keeps.
use mathlib.Core.Logic.{◌⊎◌, inl, inr}
use mathlib.Core.Path.{ap, sym, ◌∙◌, ◌≡◌, refl}
use mathlib.Core.Bool.{Bool, true, false, ◌||◌}
use mathlib.Core.List.{List, [], ◌∷◌}
use native.Mathlib.Omega.{arith}
use stalky.Prelude.Tests.{Bool-cases, if◌then◌else◌}
use stalky.Prelude.Lists.{any, all, All, retain}

module _ {A : Type 0} where
  -- A member of a list, by its place.
  abbrev pub In : A → List A → Type 0
  In a [] = ⊥
  In a (x ∷ xs) = (a ≡ x) ⊎ In a xs

  retain-step :
      (p : A → Bool) (x a : A) (xs : List A) (b : Bool)
      → p x ≡ b
      → In a (if b then x ∷ retain p xs else retain p xs)
      → ((a ≡ x) × (p x ≡ true)) ⊎ In a (retain p xs)
  retain-step p x a xs true e (inl h) = inl (h, e)
  retain-step p x a xs true e (inr h) = inr h
  retain-step p x a xs false e h = inr h

  pub retain-In : (p : A → Bool) (xs : List A) (a : A) → In a (retain p xs) → In a xs × (p a ≡ true)
  retain-In p [] a h = elim h [ ]
  retain-In p (x ∷ xs) a h = elim (retain-step p x a xs (p x) refl h) [
    | inl (e, t) ↦ (inl e, ap p e ∙ t)
    | inr k ↦ let r = retain-In p xs a k in (inr r.0, r.1)
  ]

  pub In-retain : (p : A → Bool) (xs : List A) (a : A) → In a xs → p a ≡ true → In a (retain p xs)
  In-retain p [] a h t = elim h [ ]
  In-retain p (x ∷ xs) a (inl e) t = rw (ap p (sym e) ∙ t) (inl e)
  In-retain p (x ∷ xs) a (inr h) t = elim (Bool-cases (p x)) [
    | inl k ↦ rw k (inr (In-retain p xs a h t))
    | inr k ↦ rw k (In-retain p xs a h t)
  ]

  pub any-In : (p : A → Bool) (xs : List A) (a : A) → In a xs → p a ≡ true → any p xs ≡ true
  any-In p [] a h t = elim h [ ]
  any-In p (x ∷ xs) a (inl e) t = rw (ap p (sym e) ∙ t) refl
  any-In p (x ∷ xs) a (inr h) t = rw (any-In p xs a h t) (or_true (p x))
    where
      or_true : (b : Bool) → (b || true) ≡ true
      or_true true = refl
      or_true false = refl

  pub In-any : (p : A → Bool) (xs : List A) → any p xs ≡ true → (a : A) × In a xs × (p a ≡ true)
  In-any p [] h = cc
  In-any p (x ∷ xs) h = elim (Bool-cases (p x)) [
    | inl k ↦ (x, inl refl, k)
    | inr k ↦ let (a, i, t) = In-any p xs (rw k at h) in (a, inr i, t)
  ]

pub All-any :
    {A : Type 0} (p : A → Bool) (xs : List A) → any p xs ≡ false → All (λ x. p x ≡ false) xs
All-any p [] h = tt
All-any p (x ∷ xs) h = ground (arith, All-any p xs)

pub All-all : {A : Type 0} (p : A → Bool) (xs : List A) → all p xs ≡ true → All (λ x. p x ≡ true) xs
All-all p [] h = tt
All-all p (x ∷ xs) h = ground (arith, All-all p xs)
