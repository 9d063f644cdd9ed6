-- ===== src/Retrieval/Vectors.antt =====
-- `exact_cosine_similarity` of crates/mega-memory/src/retrieval.rs. The accumulation is in `f64`, a
-- parameter. What the trait `VectorIndex` asks for has no implementation here.
use stalky.Prelude.{
  Bool, Bool-cases, List, Result, any, arith, err, if◌then◌else◌, inl, inr, length, not, ok, refl,
  reject_if, true, ℕ, ◌==◌, ◌>>=◌, ◌>>◌, ◌||◌, ◌∷◌, ◌≡◌, [],
}
use stalky.Model.Floats.{Float32}

-- `f64`, and its conversions from and to `f32`.
record Float64 (F : Type 0) : Type 1 where
  D : Type 0
  zero : D
  from_f32 : F → D
  to_f32 : D → F
  add : D → D → D
  mul : D → D → D
  div : D → D → D
  sqrt : D → D
  -- `clamp(-1.0, 1.0)`
  clamp_unit : D → D
  -- `== 0.0`
  is_zero : D → Bool

data VectorError : Type 0 where
  dimension_mismatch : ℕ → ℕ → VectorError
  non_finite zero_magnitude : VectorError

module _ (fl : Float32) (double : Float64 fl.F) where
  open fl use {F, is_finite}
  open double use {D, from_f32, to_f32, add, mul, div, sqrt, clamp_unit, is_zero}

  record Sums : Type 0 where
    dot : D
    left_norm : D
    right_norm : D

  -- The loop, with the sums so far.
  unfoldable accumulate : Sums → List F → List F → Result Sums VectorError
  accumulate sums [] rights = ok sums
  accumulate sums (l ∷ lefts) [] = ok sums
  accumulate sums (l ∷ lefts) (r ∷ rights) =
      let x = from_f32 l in
      let y = from_f32 r in
      let rest =
        accumulate
          (record {
            dot = add sums.dot (mul x y);
            left_norm = add sums.left_norm (mul x x);
            right_norm = add sums.right_norm (mul y y);
          })
          lefts rights in
      if not (is_finite l) || not (is_finite r) then err non_finite else rest

  unfoldable exact_cosine_similarity : List F → List F → Result F VectorError
  exact_cosine_similarity left right = do
    reject_if (not (length left == length right)) (dimension_mismatch (length left) (length right))
    sums ←
        accumulate (record { dot = double.zero; left_norm = double.zero; right_norm = double.zero })
          left right
    reject_if (is_zero sums.left_norm || is_zero sums.right_norm) zero_magnitude
    ok (to_f32 (clamp_unit (div sums.dot (mul (sqrt sums.left_norm) (sqrt sums.right_norm)))))

  -- A vector with a component that is no finite number.
  abbrev has_non_finite : List F → Bool
  has_non_finite v = any (λ x. not (is_finite x)) v

  -- The scalar product of two vectors, added to a number from the left.
  abbrev product_from : D → List F → List F → D
  product_from d [] ys = d
  product_from d (x ∷ xs) [] = d
  product_from d (x ∷ xs) (y ∷ ys) = product_from (add d (mul (from_f32 x) (from_f32 y))) xs ys

  abbrev product : List F → List F → D
  product xs ys = product_from double.zero xs ys

  abbrev cosine : List F → List F → F
  cosine xs ys =
      to_f32 (clamp_unit (div (product xs ys) (mul (sqrt (product xs xs)) (sqrt (product ys ys)))))

  accumulate-products :
      (sums : Sums) (xs ys : List F)
      → (length xs == length ys) ≡ true
      → accumulate sums xs ys ≡ (
          if has_non_finite xs || has_non_finite ys
          then err non_finite
          else ok (record {
            dot = product_from sums.dot xs ys;
            left_norm = product_from sums.left_norm xs xs;
            right_norm = product_from sums.right_norm ys ys;
          }))
  unfolding accumulate
  accumulate-products sums [] [] h = refl
  accumulate-products sums [] (y ∷ ys) h = ground (arith, h)
  accumulate-products sums (x ∷ xs) [] h = ground (arith, h)
  accumulate-products sums (x ∷ xs) (y ∷ ys) h =
      let rest =
        accumulate-products
          (record {
            dot = add sums.dot (mul (from_f32 x) (from_f32 y));
            left_norm = add sums.left_norm (mul (from_f32 x) (from_f32 x));
            right_norm = add sums.right_norm (mul (from_f32 y) (from_f32 y));
          })
          xs ys (ground (arith, h)) in
      elim (Bool-cases (is_finite x)) [
        | inr e ↦ rw e refl
        | inl e ↦ elim (Bool-cases (is_finite y)) [
          | inl f ↦ rw (e, f) rest
          | inr f ↦ elim (Bool-cases (has_non_finite xs)) [
            | inl g ↦ rw (e, f, g) refl
            | inr g ↦ rw (e, f, g) refl
          ]
        ]
      ]

  -- The similarity is the quotient of the scalar product by the two norms, each summed on its own,
  -- and fails exactly if the lengths differ, or else a component is not finite, or else a norm is zero.
  exact_cosine_similarity-cosine :
      (left right : List F)
      → exact_cosine_similarity left right ≡ (
          if not (length left == length right)
          then err (dimension_mismatch (length left) (length right))
          else if has_non_finite left || has_non_finite right
          then err non_finite
          else if is_zero (product left left) || is_zero (product right right)
          then err zero_magnitude
          else ok (cosine left right))
  unfolding exact_cosine_similarity
  exact_cosine_similarity-cosine left right = elim (Bool-cases (length left == length right)) [
    | inr e ↦ rw e refl
    | inl e ↦
        let summed =
          accumulate-products
            (record { dot = double.zero; left_norm = double.zero; right_norm = double.zero }) left
            right e in
        elim (Bool-cases (has_non_finite left || has_non_finite right)) [
          | inl f ↦ rw (e, summed, f) refl
          | inr f ↦
              elim (Bool-cases (is_zero (product left left) || is_zero (product right right))) [
                | inl g ↦ rw (e, summed, f, g) refl
                | inr g ↦ rw (e, summed, f, g) refl
              ]
        ]
  ]
