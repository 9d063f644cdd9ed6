-- ===== src/Model/Floats.antt =====
-- The language's `f32`: its tests and operations as far as the program uses them, with the laws
-- that the theorems need (IEEE 754 and the documentation of `f32`).
use stalky.Prelude.Text.{Text}
use stalky.Prelude.{ℕ, Bool, true, ◌≡◌, ◌⊎◌, ◌&&◌, false, ◌≤◌}

pub record Float32 : Type 1 where
  pub F : Type 0
  -- `n` hundredths, rounded.
  pub hundredths : ℕ → F
  pub is_finite : F → Bool
  -- `<=`, false at a NaN.
  pub le : F → F → Bool
  -- `<`, false at a NaN.
  pub lt : F → F → Bool
  -- `total_cmp` is not `Greater`.
  pub total_le : F → F → Bool
  pub maximum : F → F → F
  pub minimum : F → F → F
  pub add : F → F → F
  pub mul : F → F → F
  pub div : F → F → F
  pub clamp : F → F → F → F
  -- The format `{:.2}`.
  pub fixed2 : F → Text
  pub total_le_total : (a b : F) → (total_le a b ≡ true) ⊎ (total_le b a ≡ true)
  pub total_le_trans : (a b c : F) → total_le a b ≡ true → total_le b c ≡ true → total_le a c ≡ true
  -- A constant is no NaN, and the lesser of anything and it is at most it.
  pub minimum-le_constant : (a : F) (n : ℕ) → le (minimum a (hundredths n)) (hundredths n) ≡ true
  -- Of finite numbers one is `<=` if the other is not `<`.
  pub le-lt : (a b : F) → is_finite a ≡ true → is_finite b ≡ true → lt b a ≡ false → le a b ≡ true
  pub hundredths-is_finite : (n : ℕ) → n ≤ 400 → is_finite (hundredths n) ≡ true

-- `0.0..=1.0` contains the value.
abbrev pub in_unit : (fl : Float32) → fl.F → Bool
in_unit fl x = fl.le (fl.hundredths 0) x && fl.le x (fl.hundredths 100)
