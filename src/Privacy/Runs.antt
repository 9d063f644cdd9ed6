-- ===== src/Privacy/Runs.antt =====
-- The digit runs of crates/mega-memory/src/privacy.rs: a card number is found wherever it stands.
use stalky.Privacy.Luhn.{IsDigits, checksum, luhn_valid-checksum}
use stalky.Prelude.Text.{Text, is_empty}
use stalky.Privacy.{
  has_card, split, digit_runs, is_break, is_card, is_ascii_digit, inspect_private_content,
  PrivacyRejection, password_field, has_private_key, to_ascii_lowercase, private_key, has_any,
  secret_markers, credential, financial_identifier,
}
use stalky.Prelude.{
  List, ℕ, All, Bool, retain, any, not, ◌≡◌, false, true, ◌++◌, ◌∷◌, Bool-cases, [], map, ◌||◌, ap,
  arith, inl, refl, inr, ◌∙◌, if◌then◌else◌, ◌≤◌, length, err, ◌%◌,
}

split-nonempty : (p : ℕ → Bool) (t : Text) → (w : Text) × (ws : List Text) × (split p t ≡ w ∷ ws)
unfolding split
split-nonempty p [] = ([], [], refl)
split-nonempty p (c ∷ cs) = elim (Bool-cases (p c)) [
  | inl h ↦ ([], split p cs, rw h refl)
  | inr h ↦ let (w, ws, e) = split-nonempty p cs in (c ∷ w, ws, rw (h, e) refl)
]

-- A break cuts the text in two.
pub split-break :
    (p : ℕ → Bool) (xs : Text) (a : ℕ) (ys : Text)
    → p a ≡ true
    → split p (xs ++ a ∷ ys) ≡ split p xs ++ split p ys
unfolding split
split-break p [] a ys h = rw h refl
split-break p (x ∷ xs) a ys h = elim (Bool-cases (p x)) [
  | inl k ↦ rw k (ap (◌∷◌ []) (split-break p xs a ys h))
  | inr k ↦ let (w, ws, e) = split-nonempty p xs in rw (k, split-break p xs a ys h, e) refl
]

split_whole : (p : ℕ → Bool) (t : Text) → All (λ c. p c ≡ false) t → split p t ≡ t ∷ []
unfolding split
split_whole p [] h = refl
split_whole p (c ∷ cs) h = rw (h.0, split_whole p cs h.1) refl

-- The digits of the pieces that have some.
abbrev runs_of : List Text → List Text
runs_of ws = retain (λ ds. not (is_empty ds)) (map (retain is_ascii_digit) ws)

any-runs_of-append :
    (vs ws : List Text) (q : Text → Bool)
    → any q (runs_of (vs ++ ws)) ≡ (any q (runs_of vs) || any q (runs_of ws))
any-runs_of-append [] ws q = refl
any-runs_of-append (v ∷ vs) ws q = ground (arith, any-runs_of-append vs ws q)

-- Cut at a break, a text has a card exactly when one of its parts does.
pub has_card-break :
    (xs : Text) (a : ℕ) (ys : Text)
    → is_break a ≡ true
    → has_card (xs ++ a ∷ ys) ≡ (has_card xs || has_card ys)
unfolding has_card digit_runs
has_card-break xs a ys h =
    ap (λ ws. any is_card (runs_of ws)) (split-break is_break xs a ys h)
    ∙ any-runs_of-append (split is_break xs) (split is_break ys) is_card

one_card :
    (ds : Text) → is_card ds ≡ true → any is_card (if not (is_empty ds) then ds ∷ [] else []) ≡ true
unfolding is_card
one_card [] k = cc
one_card (d ∷ ds) k = rw k refl

has_card-whole :
    (t : Text)
    → All (λ c. is_break c ≡ false) t
    → is_card (retain is_ascii_digit t) ≡ true
    → has_card t ≡ true
unfolding has_card digit_runs
has_card-whole t h k =
    rw (split_whole is_break t h, has_card) (one_card (retain is_ascii_digit t) k)

or_true : (b : Bool) → (b || true) ≡ true
or_true true = refl
or_true false = refl

retain-IsDigits : (t : Text) → IsDigits (retain is_ascii_digit t)
retain-IsDigits [] = tt
retain-IsDigits (c ∷ cs) = elim (Bool-cases (is_ascii_digit c)) [
  | inl h ↦ rw h (h, retain-IsDigits cs)
  | inr h ↦ rw h (retain-IsDigits cs)
]

is_card_lem :
    (ds : Text)
    → IsDigits ds
    → 13 ≤ length ds
    → length ds ≤ 19
    → checksum ds % 10 ≡ 0
    → is_card ds ≡ true
unfolding is_card
is_card_lem ds h low high sum = rw (luhn_valid-checksum ds h, is_card) (ground arith)

inspect-has_card :
    (content : Text) (is_password_field is_inferred : Bool)
    → has_card content ≡ true
    → (e : PrivacyRejection) × (inspect_private_content content is_password_field is_inferred
        ≡ err e)
unfolding inspect_private_content
inspect-has_card content true is_inferred h = (password_field, refl)
inspect-has_card content false is_inferred h =
    elim (Bool-cases (has_private_key (to_ascii_lowercase content))) [
      | inl k ↦ (private_key, rw (k, inspect_private_content) refl)
      | inr k ↦ elim (Bool-cases (has_any secret_markers (to_ascii_lowercase content))) [
        | inl s ↦ (credential, rw (k, s, inspect_private_content) refl)
        | inr s ↦ (financial_identifier, rw (k, s, h, inspect_private_content) refl)
      ]
    ]

-- A card number in a text is never let through, wherever it stands between two characters that are
-- no digit, space or dash: 13 to 19 digits, with any spaces and dashes among them, that pass the
-- textbook checksum.
pub card_is_rejected :
    (before card after : Text) (a b : ℕ) (is_password_field is_inferred : Bool)
    → is_break a ≡ true
    → is_break b ≡ true
    → All (λ c. is_break c ≡ false) card
    → 13 ≤ length (retain is_ascii_digit card)
    → length (retain is_ascii_digit card) ≤ 19
    → checksum (retain is_ascii_digit card) % 10 ≡ 0
    → (e : PrivacyRejection) × (inspect_private_content
          (before ++ a ∷ (card ++ b ∷ after))
          is_password_field
          is_inferred
        ≡ err e)
card_is_rejected before card after a b f i ha hb hc low high sum =
    inspect-has_card (before ++ a ∷ (card ++ b ∷ after)) f i (
      has_card-break before a (card ++ b ∷ after) ha
      ∙ ap (λ t. has_card before || t)
          (has_card-break card b after hb
            ∙ ap (λ t. t || has_card after)
                (has_card-whole card hc
                  (is_card_lem (retain is_ascii_digit card) (retain-IsDigits card) low high sum)))
      ∙ or_true (has_card before))
