-- ===== src/Privacy.antt =====
-- crates/mega-memory/src/privacy.rs: the last guard before a candidate may become a memory. Texts are
-- lists of code points.
pub mod Luhn
pub mod Runs
pub mod Case
mod Tests
use mathlib.Core.List.{reverse}
use stalky.Prelude.{◌>>◌, ◌>>=◌, reject_if, ok}
use stalky.Prelude.Text.{Text, text, is_empty}
use stalky.Prelude.{
  List, ℕ, Bool, if◌then◌else◌, map, retain, ◌-◌, ◌∷◌, Result, [], any, leb, not, true, ◌%◌, ◌&&◌,
  ◌+◌, ◌||◌, false, length, ◌==◌, ltb, ◌*◌,
}

pub data PrivacyRejection : Type 0 where
  credential financial_identifier private_key password_field : PrivacyRejection
  sensitive_trait_inference speculative_person_judgment : PrivacyRejection

-- `char::is_ascii_digit`
unfoldable pub is_ascii_digit : ℕ → Bool
is_ascii_digit c = leb 48 c && leb c 57

-- `char::to_ascii_lowercase`
unfoldable pub lower_char : ℕ → ℕ
lower_char c = if leb 65 c && leb c 90 then c + 32 else c

abbrev pub to_ascii_lowercase : Text → Text
to_ascii_lowercase t = map lower_char t

unfoldable pub starts_with : Text → Text → Bool
starts_with t [] = true
starts_with [] (m ∷ ms) = false
starts_with (c ∷ cs) (m ∷ ms) = (c == m) && starts_with cs ms

-- `str::contains`
unfoldable pub contains : Text → Text → Bool
unfolding starts_with
contains [] m = starts_with [] m
contains (c ∷ cs) m = starts_with (c ∷ cs) m || contains cs m

-- A character put before the first of the pieces.
abbrev pub cons_head : ℕ → List Text → List Text
cons_head c [] = (c ∷ []) ∷ []
cons_head c (w ∷ ws) = (c ∷ w) ∷ ws

-- `str::split` by a test on characters.
unfoldable pub split : (ℕ → Bool) → Text → List Text
split p [] = [] ∷ []
split p (c ∷ cs) = if p c then [] ∷ split p cs else cons_head c (split p cs)

-- What ends a run of digits.
unfoldable pub is_break : ℕ → Bool
unfolding is_ascii_digit
is_break c = not (is_ascii_digit c) && not (c == 32) && not (c == 45)

unfoldable pub digit_runs : Text → List Text
digit_runs t = retain (λ ds. not (is_empty ds)) (map (retain is_ascii_digit) (split is_break t))

-- One digit of `luhn_valid`, at its place from the right.
unfoldable pub luhn_digit : ℕ → ℕ → ℕ
luhn_digit index byte =
    let digit = byte - 48 in
    if index % 2 == 1 then if ltb 9 (digit * 2) then digit * 2 - 9 else digit * 2 else digit

unfoldable pub luhn_sum : ℕ → ℕ → List ℕ → ℕ
luhn_sum index sum [] = sum
luhn_sum index sum (b ∷ bs) = luhn_sum (index + 1) (sum + luhn_digit index b) bs

unfoldable pub luhn_valid : Text → Bool
unfolding luhn_sum luhn_digit
luhn_valid digits = luhn_sum 0 0 (reverse digits) % 10 == 0

abbrev pub secret_markers : List Text
secret_markers =
    text "password:"
    ∷ text "password is"
    ∷ text "api key:"
    ∷ text "api_key="
    ∷ text "access token:"
    ∷ text "bearer "
    ∷ text "recovery code:"
    ∷ text "one-time code:"
    ∷ text "otp:"
    ∷ text "authentication code:"
    ∷ []

abbrev pub sensitive_traits : List Text
sensitive_traits =
    text "diagnosed with"
    ∷ text "sexual orientation"
    ∷ text "is gay"
    ∷ text "is lesbian"
    ∷ text "religion is"
    ∷ text "is muslim"
    ∷ text "is christian"
    ∷ text "is hindu"
    ∷ text "political affiliation"
    ∷ text "is a democrat"
    ∷ text "is a republican"
    ∷ []

abbrev pub judgments : List Text
judgments =
    text "is untrustworthy"
    ∷ text "cannot be trusted"
    ∷ text "has bad intentions"
    ∷ text "is manipulative"
    ∷ text "has a personality disorder"
    ∷ []

unfoldable pub has_private_key : Text → Bool
has_private_key lower =
    contains lower (text "-----begin ") && contains lower (text "private key-----")

unfoldable pub has_any : List Text → Text → Bool
has_any markers lower = any (contains lower) markers

-- A run of 13 to 19 digits that passes the checksum.
unfoldable pub is_card : Text → Bool
is_card digits = leb 13 (length digits) && leb (length digits) 19 && luhn_valid digits

unfoldable pub has_card : Text → Bool
has_card content = any is_card (digit_runs content)

unfoldable pub inspect_private_content : Text → Bool → Bool → Result (Unit {0}) PrivacyRejection
inspect_private_content content is_password_field is_inferred = do
  reject_if is_password_field password_field
  reject_if (has_private_key (to_ascii_lowercase content)) private_key
  reject_if (has_any secret_markers (to_ascii_lowercase content)) credential
  reject_if (has_card content) financial_identifier
  reject_if (is_inferred && has_any sensitive_traits (to_ascii_lowercase content))
      sensitive_trait_inference
  reject_if (is_inferred && has_any judgments (to_ascii_lowercase content))
      speculative_person_judgment
  ok tt
