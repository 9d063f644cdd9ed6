-- ===== src/Retrieval/Escape.antt =====
-- `escape_xml` of crates/mega-memory/src/retrieval.rs, whose five replacements run one after another.
use stalky.Retrieval.Render.{escape_xml, replace_char}
use stalky.Prelude.Text.{Text, text_eq, text}
use stalky.Prelude.{
  ℕ, Bool, Option, if◌then◌else◌, none, ◌++◌, ◌∷◌, [], some, ◌==◌, ◌≡◌, All, Bool-cases, refl,
  ℕ_discrete, ◌||◌, false, inl, sym, append_assoc, inr, ap, subst, ◌≢◌, arith, ◌∙◌, All-append,
}

replace_char-append :
    (c : ℕ) (by s t : Text)
    → replace_char c by (s ++ t) ≡ replace_char c by s ++ replace_char c by t
unfolding replace_char
replace_char-append c by [] t = refl
replace_char-append c by (x ∷ s) t = elim (Bool-cases (x == c)) [
  | inl h ↦
      rw (h, replace_char-append c by s t)
        (sym (append_assoc by (replace_char c by s) (replace_char c by t)))
  | inr h ↦ rw (h, replace_char-append c by s t) refl
]

escape_xml-append : (s t : Text) → escape_xml (s ++ t) ≡ escape_xml s ++ escape_xml t
unfolding escape_xml
escape_xml-append s t =
    rw
      (
        replace_char-append 38 (text "&amp;") s t,
        replace_char-append 60,
        replace_char-append 62,
        replace_char-append 34,
        replace_char-append 39,
      )
      refl

-- The character that a reference of XML stands for: `&amp;`, `&lt;` and so on.
abbrev referent : Text → Text
referent t =
    if text_eq t (text "amp")
    then 38 ∷ []
    else if text_eq t (text "lt")
    then 60 ∷ []
    else if text_eq t (text "gt")
    then 62 ∷ []
    else if text_eq t (text "quot")
    then 34 ∷ []
    else if text_eq t (text "apos")
    then 39 ∷ []
    else []

-- A reader of XML's character data; `some name` in a reference of which `name` has been read.
unfoldable read_from : Option Text → Text → Text
unfolding text_eq
read_from o [] = []
read_from none (c ∷ t) =
    let reference = read_from (some []) t in
    let rest = read_from none t in if c == 38 then reference else c ∷ rest
read_from (some name) (c ∷ t) =
    let rest = read_from none t in
    let further = read_from (some (name ++ c ∷ [])) t in
    if c == 59 then referent name ++ rest else further

unfoldable pub unescape : Text → Text
unfolding read_from
unescape t = read_from none t

-- The characters that end a text or an attribute in XML.
unfoldable pub is_markup : ℕ → Bool
is_markup c = (c == 60) || (c == 62) || (c == 34) || (c == 39)

-- What is to be shown of the escaped form of a character.
abbrev ReadsBack : ℕ → Text → Type 0
ReadsBack c e =
    ((t : Text) → read_from none (e ++ t) ≡ c ∷ read_from none t) × All (λ x. is_markup x ≡ false) e

plain_char : (c : ℕ) → c ≢ 38 → c ≢ 60 → c ≢ 62 → c ≢ 34 → c ≢ 39 → escape_xml (c ∷ []) ≡ c ∷ []
unfolding escape_xml replace_char
plain_char c h k l m n = ground arith

plain-ReadsBack : (c : ℕ) → c ≢ 38 → is_markup c ≡ false → ReadsBack c (c ∷ [])
unfolding read_from
plain-ReadsBack c h k = let e : (c == 38) ≡ false = ground arith in (λ t. rw e refl, (k, tt))

one_char-ReadsBack : (c : ℕ) → ReadsBack c (escape_xml (c ∷ []))
unfolding escape_xml replace_char read_from text_eq is_markup
one_char-ReadsBack c = elim (ℕ_discrete c 38) [
  | yes h ↦
      subst (λ x. ReadsBack x (escape_xml (x ∷ []))) (sym h)
        (λ t. refl, (refl, (refl, (refl, (refl, (refl, tt))))))
  | no n₁ ↦ elim (ℕ_discrete c 60) [
    | yes h ↦
        subst (λ x. ReadsBack x (escape_xml (x ∷ []))) (sym h)
          (λ t. refl, (refl, (refl, (refl, (refl, tt)))))
    | no n₂ ↦ elim (ℕ_discrete c 62) [
      | yes h ↦
          subst (λ x. ReadsBack x (escape_xml (x ∷ []))) (sym h)
            (λ t. refl, (refl, (refl, (refl, (refl, tt)))))
      | no n₃ ↦ elim (ℕ_discrete c 34) [
        | yes h ↦
            subst (λ x. ReadsBack x (escape_xml (x ∷ []))) (sym h)
              (λ t. refl, (refl, (refl, (refl, (refl, (refl, (refl, tt)))))))
        | no n₄ ↦ elim (ℕ_discrete c 39) [
          | yes h ↦
              subst (λ x. ReadsBack x (escape_xml (x ∷ []))) (sym h)
                (λ t. refl, (refl, (refl, (refl, (refl, (refl, (refl, tt)))))))
          | no n₅ ↦
              subst (ReadsBack c) (sym (plain_char c n₁ n₂ n₃ n₄ n₅))
                (plain-ReadsBack c n₁ (ground arith))
        ]
      ]
    ]
  ]
]

-- An escaped text has no character that ends a text or an attribute, and a reader of XML gets the text
-- back, so the five replacements do not disturb each other.
pub unescape-escape_xml :
    (t : Text) → (unescape (escape_xml t) ≡ t) × All (λ x. is_markup x ≡ false) (escape_xml t)
unfolding unescape escape_xml replace_char
unescape-escape_xml [] = (refl, tt)
unescape-escape_xml (c ∷ t) =
    let (r, m) = one_char-ReadsBack c in
    let (s, n) = unescape-escape_xml t in
    let e : escape_xml (c ∷ t) ≡ escape_xml (c ∷ []) ++ escape_xml t =
      escape_xml-append (c ∷ []) t in
    (
      ap (read_from none) e ∙ r (escape_xml t) ∙ ap (◌∷◌ c) s,
      subst (All (λ x. is_markup x ≡ false)) (sym e)
          (All-append (λ x. is_markup x ≡ false) (escape_xml (c ∷ [])) (escape_xml t) m n),
    )
