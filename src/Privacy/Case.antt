-- ===== src/Privacy/Case.antt =====
-- The guard of crates/mega-memory/src/privacy.rs does not see the case of ASCII letters.
use stalky.Prelude.{Bool, ℕ, ◌≡◌, arith, false, refl, ◌∷◌, Bool-cases, ap₂, [], inl, ap, inr}
use stalky.Privacy.{
  has_card, inspect_private_content, is_break, lower_char, split, digit_runs, is_ascii_digit,
  to_ascii_lowercase, cons_head,
}
use stalky.Prelude.Text.{Text}

lower_char_idem : (c : ℕ) → lower_char (lower_char c) ≡ lower_char c
unfolding lower_char
lower_char_idem c = ground arith

lowercase_idem : (t : Text) → to_ascii_lowercase (to_ascii_lowercase t) ≡ to_ascii_lowercase t
lowercase_idem [] = refl
lowercase_idem (c ∷ t) = ap₂ ◌∷◌ (lower_char_idem c) (lowercase_idem t)

is_break-lower_char : (c : ℕ) → is_break (lower_char c) ≡ is_break c
unfolding is_break lower_char is_ascii_digit
is_break-lower_char c = ground arith

-- What is no break is no letter.
lower_char-run : (c : ℕ) → is_break c ≡ false → lower_char c ≡ c
unfolding is_break lower_char is_ascii_digit
lower_char-run c h = ground arith

split-lowercase : (t : Text) → split is_break (to_ascii_lowercase t) ≡ split is_break t
unfolding split
split-lowercase [] = refl
split-lowercase (c ∷ t) = elim (Bool-cases (is_break c)) [
  | inl h ↦ rw (is_break-lower_char c, h) (ap (◌∷◌ []) (split-lowercase t))
  | inr h ↦ rw (is_break-lower_char c, h, lower_char-run c h) (ap (cons_head c) (split-lowercase t))
]

has_card-lowercase : (t : Text) → has_card (to_ascii_lowercase t) ≡ has_card t
unfolding has_card digit_runs
has_card-lowercase t = rw (split-lowercase t) refl

-- The guard's answer to a text is its answer to the text in lower case, so secrets in capitals are
-- found, too.
inspect-lowercase :
    (t : Text) (is_password_field is_inferred : Bool)
    → inspect_private_content (to_ascii_lowercase t) is_password_field is_inferred
      ≡ inspect_private_content t is_password_field is_inferred
unfolding inspect_private_content
inspect-lowercase t f i = rw (lowercase_idem t, has_card-lowercase t, inspect_private_content) refl
