-- ===== src/Privacy/Tests.antt =====
-- Concrete texts.
use stalky.Privacy.Runs.{card_is_rejected}
use stalky.Prelude.{
  false, ◌≡◌, err, ok, ◌%◌, refl, ◌==◌, All-all, ◌++◌, ◌∷◌, [], true, All-any, arith,
}
use stalky.Privacy.Luhn.{checksum, luhn_valid-checksum}
use stalky.Prelude.Text.{text}
use stalky.Privacy.{
  inspect_private_content, is_ascii_digit, luhn_valid, is_break, credential, contains, digit_runs,
  has_any, has_card, has_private_key, is_card, lower_char, split, PrivacyRejection,
}

card_is_rejected_example :
    (e : PrivacyRejection) × (inspect_private_content
        (text "Card" ++ 58 ∷ (text "4111 1111 1111 1111" ++ 46 ∷ []))
        false
        true
      ≡ err e)
unfolding is_ascii_digit checksum is_break
card_is_rejected_example =
    card_is_rejected (text "Card") (text "4111 1111 1111 1111") [] 58 46 false true refl refl
      (All-any is_break (text "4111 1111 1111 1111") refl) (omega arith) (omega arith) refl

luhn_valid-checksum_example :
    luhn_valid (text "4111111111111111") ≡ (checksum (text "4111111111111111") % 10 == 0)
unfolding is_ascii_digit
luhn_valid-checksum_example =
    luhn_valid-checksum (text "4111111111111111")
      (All-all is_ascii_digit (text "4111111111111111") refl)

password_test : inspect_private_content (text "My PASSWORD is hunter2") false false ≡ err credential
unfolding inspect_private_content has_private_key contains lower_char has_any
password_test = refl

budget_test : inspect_private_content (text "Budget is 123456") false false ≡ ok tt
unfolding inspect_private_content has_private_key contains lower_char has_any has_card digit_runs
    split is_break is_card
budget_test = refl
