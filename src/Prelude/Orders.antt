-- ===== src/Prelude/Orders.antt =====
-- Rust's three-way comparisons and `sort_by`, a stable sort.
use mathlib.Core.List.Perm
use mathlib.Core.List.{Perm}
use Prim.Native.Nat.{compare, Ordering}
use mathlib.Core.Path.{◌≡◌, refl}
use mathlib.Core.Logic.{inl, inr}
use mathlib.Core.Bool.{Bool, true, false}
use mathlib.Core.List.{List, [], ◌∷◌}
use stalky.Prelude.Tests.{if◌then◌else◌, Bool-cases}
use stalky.Prelude.Lists.{All, All-map}
use stalky.Prelude.Text.{Text}

-- `Ordering::then_with`.
abbrev pub then_with : Ordering → Ordering → Ordering
then_with Ordering.lt o = Ordering.lt
then_with Ordering.eq o = o
then_with Ordering.gt o = Ordering.gt

abbrev pub reverse : Ordering → Ordering
reverse Ordering.lt = Ordering.gt
reverse Ordering.eq = Ordering.eq
reverse Ordering.gt = Ordering.lt

abbrev pub is_gt : Ordering → Bool
is_gt Ordering.gt = true
is_gt _ = false

-- `str::cmp`: the order of the bytes in UTF-8 is that of the code points.
unfoldable pub cmp_text : Text → Text → Ordering
cmp_text [] [] = Ordering.eq
cmp_text [] (y ∷ ys) = Ordering.lt
cmp_text (x ∷ xs) [] = Ordering.gt
cmp_text (x ∷ xs) (y ∷ ys) = then_with (compare x y) (cmp_text xs ys)

module _ {A : Type 0} where
  -- What `sort_by` asks of a comparison: it is a total preorder.
  pub record IsOrder (cmp : A → A → Ordering) : Type 0 where
    pub reverses : (a b : A) → cmp b a ≡ reverse (cmp a b)
    pub transits :
        (a b c : A) → is_gt (cmp a b) ≡ false → is_gt (cmp b c) ≡ false → is_gt (cmp a c) ≡ false

  unfoldable pub insert_by : (A → A → Ordering) → A → List A → List A
  insert_by cmp x [] = x ∷ []
  insert_by cmp x (y ∷ ys) =
      let rest = y ∷ insert_by cmp x ys in if is_gt (cmp x y) then rest else x ∷ y ∷ ys

  unfoldable pub sort_by : (A → A → Ordering) → List A → List A
  unfolding insert_by
  sort_by cmp [] = []
  sort_by cmp (x ∷ xs) = insert_by cmp x (sort_by cmp xs)

  -- No element is greater than a later one.
  abbrev pub IsSorted : (A → A → Ordering) → List A → Type 0
  IsSorted cmp [] = Unit
  IsSorted cmp (x ∷ xs) = All (λ y. is_gt (cmp x y) ≡ false) xs × IsSorted cmp xs

  module _ (cmp : A → A → Ordering) where
    insert_by-Perm : (x : A) (xs : List A) → Perm (insert_by cmp x xs) (x ∷ xs)
    unfolding insert_by
    insert_by-Perm x [] = Perm.refl (x ∷ [])
    insert_by-Perm x (y ∷ ys) = elim (Bool-cases (is_gt (cmp x y))) [
      | inl h ↦ rw h (Perm.trans (Perm.cons y (insert_by-Perm x ys)) (Perm.swap x y ys))
      | inr h ↦ rw h (Perm.refl (x ∷ y ∷ ys))
    ]

    pub sort_by-Perm : (xs : List A) → Perm (sort_by cmp xs) xs
    unfolding sort_by
    sort_by-Perm [] = Perm.refl []
    sort_by-Perm (x ∷ xs) =
        Perm.trans (insert_by-Perm x (sort_by cmp xs)) (Perm.cons x (sort_by-Perm xs))

    insert_by-All :
        (P : A → Type 0) (x : A) (xs : List A) → P x → All P xs → All P (insert_by cmp x xs)
    unfolding insert_by
    insert_by-All P x [] p h = (p, tt)
    insert_by-All P x (y ∷ ys) p h = elim (Bool-cases (is_gt (cmp x y))) [
      | inl g ↦ rw g (h.0, insert_by-All P x ys p h.1)
      | inr g ↦ rw g (p, h)
    ]

    pub sort_by-All : (P : A → Type 0) (xs : List A) → All P xs → All P (sort_by cmp xs)
    unfolding sort_by
    sort_by-All P [] h = tt
    sort_by-All P (x ∷ xs) h = insert_by-All P x (sort_by cmp xs) h.0 (sort_by-All P xs h.1)

    not_gt_reversed : (o : Ordering) → is_gt o ≡ true → is_gt (reverse o) ≡ false
    not_gt_reversed Ordering.lt h = cc
    not_gt_reversed Ordering.eq h = cc
    not_gt_reversed Ordering.gt h = refl

    insert_by-IsSorted :
        IsOrder cmp → (x : A) (xs : List A) → IsSorted cmp xs → IsSorted cmp (insert_by cmp x xs)
    unfolding insert_by
    insert_by-IsSorted o x [] s = (tt, tt)
    insert_by-IsSorted o x (y ∷ ys) s = elim (Bool-cases (is_gt (cmp x y))) [
      | inl g ↦ rw g (
        insert_by-All (λ z. is_gt (cmp y z) ≡ false) x ys
            (rw (o.reverses x y) (not_gt_reversed (cmp x y) g)) s.0,
        insert_by-IsSorted o x ys s.1,
      )
      | inr g ↦ rw g (
        (
          g,
          All-map (λ z. is_gt (cmp y z) ≡ false) (λ z. is_gt (cmp x z) ≡ false)
              (λ z h. o.transits x y z g h) ys s.0,
        ),
        s,
      )
    ]

    pub sort_by-IsSorted : IsOrder cmp → (xs : List A) → IsSorted cmp (sort_by cmp xs)
    unfolding sort_by
    sort_by-IsSorted o [] = tt
    sort_by-IsSorted o (x ∷ xs) = insert_by-IsSorted o x (sort_by cmp xs) (sort_by-IsSorted o xs)

-- The relation holds between each element and every later one.
abbrev pub IsOrdered : {A : Type 0} → (A → A → Type 0) → List A → Type 0
IsOrdered R [] = Unit
IsOrdered R (x ∷ xs) = All (R x) xs × IsOrdered R xs

pub IsSorted-IsOrdered :
    {A : Type 0} (cmp : A → A → Ordering) (R : A → A → Type 0)
    → ((x y : A) → is_gt (cmp x y) ≡ false → R x y)
    → (xs : List A) → IsSorted cmp xs
    → IsOrdered R xs
IsSorted-IsOrdered cmp R f [] h = tt
IsSorted-IsOrdered cmp R f (x ∷ xs) h =
    (All-map (λ y. is_gt (cmp x y) ≡ false) (R x) (f x) xs h.0, IsSorted-IsOrdered cmp R f xs h.1)

-- Of two keys in turn.
pub then_with-first : (o p : Ordering) → is_gt (then_with o p) ≡ false → is_gt o ≡ false
then_with-first Ordering.lt p h = refl
then_with-first Ordering.eq p h = refl
then_with-first Ordering.gt p h = cc

pub then_with-second :
    (o p : Ordering) → is_gt (then_with o p) ≡ false → is_gt (reverse o) ≡ false → is_gt p ≡ false
then_with-second Ordering.lt p h k = cc
then_with-second Ordering.eq p h k = h
then_with-second Ordering.gt p h k = cc
