-- ===== src/Model/Hundredths.antt =====
-- Fixed-point numbers, in hundredths, in the place of `f32`: they have its laws, so tests can run.
use stalky.Prelude.{
  ℕ, if◌then◌else◌, leb, ltb, true, ◌+◌, ◌≡◌, arith, false, ◌*◌, ◌⊎◌, ◌/◌, [], refl,
}
use stalky.Model.Floats.{Float32}

pub leb_total : (a b : ℕ) → (leb a b ≡ true) ⊎ (leb b a ≡ true)
leb_total a b = ground arith

pub leb_trans : (a b c : ℕ) → leb a b ≡ true → leb b c ≡ true → leb a c ≡ true
leb_trans a b c h k = ground arith

abbrev least : ℕ → ℕ → ℕ
least a b = if leb a b then a else b

abbrev greatest : ℕ → ℕ → ℕ
greatest a b = if leb a b then b else a

pub least-le : (a n : ℕ) → leb (least a n) n ≡ true
least-le a n = ground arith

pub leb-ltb : (a b : ℕ) → ltb b a ≡ false → leb a b ≡ true
leb-ltb a b h = ground arith

abbrev pub hundredths_f32 : Float32
hundredths_f32 = record {
  F = ℕ;
  hundredths = λ n. n;
  is_finite = λ a. true;
  le = leb;
  total_le = leb;
  maximum = greatest;
  minimum = least;
  total_le_total = leb_total;
  total_le_trans = leb_trans;
  minimum-le_constant = least-le;
  lt = ltb;
  le-lt = λ a b f g. leb-ltb a b;
  hundredths-is_finite = λ n h. refl;
  add = λ a b. a + b;
  mul = λ a b. a * b / 100;
  div = λ a b. a * 100 / b;
  clamp = λ a low high. least (greatest a low) high;
  fixed2 = λ a. [];
}
