-- ===== src/Privacy/Luhn.antt =====
-- The checksum of crates/mega-memory/src/privacy.rs against its textbook form.
use stalky.Privacy.{luhn_digit, luhn_sum, luhn_valid, is_ascii_digit}
use stalky.Prelude.Text.{Text}
use stalky.Prelude.{
  ℕ, All, if◌then◌else◌, length, ◌*◌, ◌++◌, ◌∷◌, ◌≡◌, [], ap, true, ◌%◌, ◌+◌, ◌/◌, arith, ◌==◌, ◌∙◌,
  ap₂, length-append, ◌-◌, refl,
}
use mathlib.Core.List.{reverse, reverse-cons}

-- The digit sum of twice a digit.
abbrev pub doubled : ℕ → ℕ
doubled d = d * 2 / 10 + (d * 2) % 10

-- What a digit counts with `n` digits to its right: every second one from the right, the last one
-- not, counts doubled.
abbrev pub weight : ℕ → ℕ → ℕ
weight n byte = if n % 2 == 1 then doubled (byte - 48) else byte - 48

unfoldable pub checksum : Text → ℕ
checksum [] = 0
checksum (b ∷ bs) = weight (length bs) b + checksum bs

abbrev pub IsDigits : Text → Type 0
IsDigits ds = All (λ b. is_ascii_digit b ≡ true) ds

luhn_digit-weight : (n b : ℕ) → is_ascii_digit b ≡ true → luhn_digit n b ≡ weight n b
unfolding luhn_digit is_ascii_digit
luhn_digit-weight n b h = ground arith

luhn_sum-snoc :
    (xs : Text) (i s b : ℕ)
    → luhn_sum i s (xs ++ b ∷ []) ≡ luhn_sum i s xs + luhn_digit (i + length xs) b
unfolding luhn_sum
luhn_sum-snoc [] i s b = ap (λ n. s + luhn_digit n b) (omega arith)
luhn_sum-snoc (x ∷ xs) i s b =
    luhn_sum-snoc xs (i + 1) (s + luhn_digit i x) b
    ∙ ap (λ n. luhn_sum (i + 1) (s + luhn_digit i x) xs + luhn_digit n b) (omega arith)

length-reverse : (xs : Text) → length (reverse xs) ≡ length xs
length-reverse [] = refl
length-reverse (x ∷ xs) =
    ap length (reverse-cons x xs)
    ∙ omega (arith, length-append (reverse xs) (x ∷ []), length-reverse xs)

luhn_sum-checksum : (ds : Text) → IsDigits ds → luhn_sum 0 0 (reverse ds) ≡ checksum ds
unfolding checksum
luhn_sum-checksum [] h = unfold luhn_sum in refl
luhn_sum-checksum (d ∷ ds) (h, k) =
    ap (luhn_sum 0 0) (reverse-cons d ds)
    ∙ luhn_sum-snoc (reverse ds) 0 0 d
    ∙ ap₂ ◌+◌ (luhn_sum-checksum ds k) (
        ap (λ n. luhn_digit n d) (omega (arith, length-reverse ds))
        ∙ luhn_digit-weight (length ds) d h)
    ∙ omega arith

-- The loop over the reversed digits decides the textbook checksum: the sum of the digits' weights,
-- from the left, is divisible by ten.
pub luhn_valid-checksum : (ds : Text) → IsDigits ds → luhn_valid ds ≡ (checksum ds % 10 == 0)
unfolding luhn_valid
luhn_valid-checksum ds h = ap (λ n. n % 10 == 0) (luhn_sum-checksum ds h)
