-- ===== src/Prelude/Comparisons.antt =====
-- The comparisons of numbers, of texts and of several keys in turn are total preorders.
use Prim.Native.Nat.{ℕ, ◌+◌, compare, Ordering}
use mathlib.Core.Path.{◌≡◌, refl, sym}
use mathlib.Core.Logic.{◌⊎◌, inl, inr}
use mathlib.Core.Bool.{false}
use mathlib.Core.List.{[], ◌∷◌}
use native.Mathlib.Omega.{arith}
use stalky.Prelude.Int.{ℤ, pos_part, neg_part, ◌≤ℤ◌}
use stalky.Prelude.Text.{Text}
use stalky.Prelude.Orders.{then_with, reverse, is_gt, IsOrder, cmp_text}

-- `i64::cmp`.
abbrev pub cmp_ℤ : ℤ → ℤ → Ordering
cmp_ℤ a b = compare (pos_part a + neg_part b) (pos_part b + neg_part a)

pub Ordering-cases : (o : Ordering) → (o ≡ Ordering.lt) ⊎ (o ≡ Ordering.eq) ⊎ (o ≡ Ordering.gt)
Ordering-cases Ordering.lt = inl refl
Ordering-cases Ordering.eq = inr (inl refl)
Ordering-cases Ordering.gt = inr (inr refl)

reverse-then_with : (o p : Ordering) → then_with (reverse o) (reverse p) ≡ reverse (then_with o p)
reverse-then_with Ordering.lt p = refl
reverse-then_with Ordering.eq p = refl
reverse-then_with Ordering.gt p = refl

-- If the first keys of three are in order, so are all keys.
then_with-transits :
    (o₁ o₂ o₃ p₁ p₂ p₃ : Ordering)
    → (is_gt o₁ ≡ false → is_gt o₂ ≡ false → is_gt o₃ ≡ false)
    → (is_gt o₂ ≡ false → is_gt (reverse o₃) ≡ false → is_gt (reverse o₁) ≡ false)
    → (is_gt (reverse o₃) ≡ false → is_gt o₁ ≡ false → is_gt (reverse o₂) ≡ false)
    → (is_gt p₁ ≡ false → is_gt p₂ ≡ false → is_gt p₃ ≡ false)
    → is_gt (then_with o₁ p₁) ≡ false
    → is_gt (then_with o₂ p₂) ≡ false
    → is_gt (then_with o₃ p₃) ≡ false
then_with-transits Ordering.gt o₂ o₃ p₁ p₂ p₃ f g k t h i = cc
then_with-transits Ordering.lt Ordering.gt o₃ p₁ p₂ p₃ f g k t h i = cc
then_with-transits Ordering.eq Ordering.gt o₃ p₁ p₂ p₃ f g k t h i = cc
then_with-transits Ordering.lt Ordering.lt Ordering.lt p₁ p₂ p₃ f g k t h i = refl
then_with-transits Ordering.lt Ordering.lt Ordering.eq p₁ p₂ p₃ f g k t h i =
    let r = g refl refl in cc
then_with-transits Ordering.lt Ordering.lt Ordering.gt p₁ p₂ p₃ f g k t h i = f refl refl
then_with-transits Ordering.lt Ordering.eq Ordering.lt p₁ p₂ p₃ f g k t h i = refl
then_with-transits Ordering.lt Ordering.eq Ordering.eq p₁ p₂ p₃ f g k t h i =
    let r = g refl refl in cc
then_with-transits Ordering.lt Ordering.eq Ordering.gt p₁ p₂ p₃ f g k t h i = f refl refl
then_with-transits Ordering.eq Ordering.lt Ordering.lt p₁ p₂ p₃ f g k t h i = refl
then_with-transits Ordering.eq Ordering.lt Ordering.eq p₁ p₂ p₃ f g k t h i =
    let r = k refl refl in cc
then_with-transits Ordering.eq Ordering.lt Ordering.gt p₁ p₂ p₃ f g k t h i = f refl refl
then_with-transits Ordering.eq Ordering.eq Ordering.lt p₁ p₂ p₃ f g k t h i = refl
then_with-transits Ordering.eq Ordering.eq Ordering.eq p₁ p₂ p₃ f g k t h i = t h i
then_with-transits Ordering.eq Ordering.eq Ordering.gt p₁ p₂ p₃ f g k t h i = f refl refl

reverse_idem : (o : Ordering) → reverse (reverse o) ≡ o
reverse_idem Ordering.lt = refl
reverse_idem Ordering.eq = refl
reverse_idem Ordering.gt = refl

module _ {A : Type 0} where
  -- Two keys in turn.
  pub then_with-IsOrder :
      (c d : A → A → Ordering) → IsOrder c → IsOrder d → IsOrder (λ a b. then_with (c a b) (d a b))
  then_with-IsOrder c d o p = record {
    reverses = λ a b. rw (o.reverses a b, p.reverses a b) (reverse-then_with (c a b) (d a b));
    transits = λ x y z.
        then_with-transits (c x y) (c y z) (c x z) (d x y) (d y z) (d x z) (o.transits x y z)
          (λ h k. rw (sym (o.reverses x y)) (o.transits y z x h (rw (o.reverses x z) k)))
          (λ k h. rw (sym (o.reverses y z)) (o.transits z x y (rw (o.reverses x z) k) h))
          (p.transits x y z);
  }

  -- The greatest first.
  pub descending-IsOrder : (c : A → A → Ordering) → IsOrder c → IsOrder (λ a b. c b a)
  descending-IsOrder c o = record {
    reverses = λ a b. o.reverses b a;
    transits = λ x y z h k. o.transits z y x k h;
  }

  -- By a key.
  pub by_key-IsOrder :
      {B : Type 0} (key : B → A) (c : A → A → Ordering)
      → IsOrder c
      → IsOrder (λ a b. c (key a) (key b))
  by_key-IsOrder key c o = record {
    reverses = λ a b. o.reverses (key a) (key b);
    transits = λ x y z. o.transits (key x) (key y) (key z);
  }

compare-reverses : (a b : ℕ) → compare b a ≡ reverse (compare a b)
compare-reverses a b = ground arith

compare-transits :
    (a b c : ℕ)
    → is_gt (compare a b) ≡ false
    → is_gt (compare b c) ≡ false
    → is_gt (compare a c) ≡ false
compare-transits a b c h k = ground arith

compare-IsOrder : IsOrder compare
compare-IsOrder = record { reverses = compare-reverses; transits = compare-transits }

cmp_ℤ-transits :
    (a b c : ℤ) → is_gt (cmp_ℤ a b) ≡ false → is_gt (cmp_ℤ b c) ≡ false → is_gt (cmp_ℤ a c) ≡ false
cmp_ℤ-transits a b c h k = ground arith

pub cmp_ℤ-IsOrder : IsOrder cmp_ℤ
cmp_ℤ-IsOrder = record {
  reverses = λ a b. compare-reverses (pos_part a + neg_part b) (pos_part b + neg_part a);
  transits = cmp_ℤ-transits;
}

cmp_text-reverses : (s t : Text) → cmp_text t s ≡ reverse (cmp_text s t)
unfolding cmp_text
cmp_text-reverses [] [] = refl
cmp_text-reverses [] (y ∷ t) = refl
cmp_text-reverses (x ∷ s) [] = refl
cmp_text-reverses (x ∷ s) (y ∷ t) =
    rw (compare-reverses x y, cmp_text-reverses s t)
      (reverse-then_with (compare x y) (cmp_text s t))

cmp_text-transits :
    (s t u : Text)
    → is_gt (cmp_text s t) ≡ false
    → is_gt (cmp_text t u) ≡ false
    → is_gt (cmp_text s u) ≡ false
unfolding cmp_text
cmp_text-transits [] t [] h k = refl
cmp_text-transits [] t (z ∷ u) h k = refl
cmp_text-transits (x ∷ s) [] u h k = cc
cmp_text-transits (x ∷ s) (y ∷ t) [] h k = cc
cmp_text-transits (x ∷ s) (y ∷ t) (z ∷ u) h₀ k₀ =
    then_with-transits (compare x y) (compare y z) (compare x z) (cmp_text s t) (cmp_text t u)
      (cmp_text s u) (compare-transits x y z) (λ h k. ground arith) (λ h k. ground arith)
      (cmp_text-transits s t u) h₀ k₀

pub cmp_text-IsOrder : IsOrder cmp_text
cmp_text-IsOrder = record { reverses = cmp_text-reverses; transits = cmp_text-transits }

pub cmp_ℤ-le : (a b : ℤ) → is_gt (cmp_ℤ a b) ≡ false → a ≤ℤ b
cmp_ℤ-le a b h = ground arith

pub le-cmp_ℤ : (a b : ℤ) → a ≤ℤ b → is_gt (cmp_ℤ a b) ≡ false
le-cmp_ℤ a b h = ground arith
