-- ===== src/Segmentation/Batches.antt =====
-- `split_extraction_batches` of crates/mega-memory/src/segmentation.rs: the batches hold the texts
-- in order, each within the extractor's bound.
use stalky.Prelude.Words.{saturating_add}
use stalky.Prelude.Text.{Text, is_empty}
use stalky.Prelude.{
  List, All, Result, length, ℕ, ◌++◌, ◌∷◌, Bool, [], ok, ◌+◌, ◌≡◌, ◌≤◌, append-nil, arith, err,
  false, not, ◌∙◌, ap, sym, ◌&&◌, append_assoc, ltb, if◌then◌else◌, refl, true, ◌<◌, lt→ltb,
  Bool-cases, inl, inr, All-snoc,
}
use stalky.Segmentation.{
  ActivitySegmentDraft, SegmentationError, oversized_source, max_extraction_batch_chars, split_from,
  split_extraction_batches,
}

module _ {ℓ} {A : Type ℓ} where
  abbrev pub concat : List (List A) → List A
  concat [] = []
  concat (xs ∷ xss) = xs ++ concat xss

  concat-snoc : (xss : List (List A)) (xs : List A) → concat (xss ++ xs ∷ []) ≡ concat xss ++ xs
  concat-snoc [] xs = append-nil xs
  concat-snoc (ys ∷ xss) xs =
      ap (◌++◌ ys) (concat-snoc xss xs) ∙ sym (append_assoc ys (concat xss) xs)

-- The characters of a list of texts.
abbrev pub chars_of : List Text → ℕ
chars_of [] = 0
chars_of (t ∷ ts) = length t + chars_of ts

chars_of-snoc : (ts : List Text) (t : Text) → chars_of (ts ++ t ∷ []) ≡ chars_of ts + length t
chars_of-snoc [] t = omega arith
chars_of-snoc (u ∷ ts) t = omega (arith, chars_of-snoc ts t)

abbrev pub IsBatch : List Text → Type 0
IsBatch b = (is_empty b ≡ false) × (chars_of b ≤ max_extraction_batch_chars)

abbrev pub Fits : Text → Type 0
Fits t = length t ≤ max_extraction_batch_chars

-- What the loop has made so far of the texts before it.
record Progress (texts : List Text) (batches : List (List Text)) (current : List Text) (chars : ℕ)
    : Type 0 where
  in_order : concat batches ++ current ≡ texts
  bounded : All IsBatch batches
  counted : chars ≡ chars_of current
  within : chars ≤ max_extraction_batch_chars

abbrev Splits : List Text → Result (List (List Text)) SegmentationError → Type 0
Splits texts (ok batches) = (concat batches ≡ texts) × All IsBatch batches
Splits texts (err e) = ⊥

flushed :
    (texts : List Text) (batches : List (List Text)) (current : List Text) (chars : ℕ)
    → Progress texts batches current chars
    → Splits texts (ok (if is_empty current then batches else batches ++ current ∷ []))
flushed texts batches [] chars p = (sym (append-nil _) ∙ p.in_order, p.bounded)
flushed texts batches (t ∷ ts) chars p = (
  concat-snoc batches (t ∷ ts) ∙ p.in_order,
  All-snoc IsBatch batches (t ∷ ts) p.bounded (refl, omega (arith, p.within, p.counted)),
)

step_Progress :
    (texts : List Text) (batches : List (List Text)) (current : List Text) (chars : ℕ) (t : Text)
    (flush : Bool)
    → flush
      ≡ (not (is_empty current) && ltb max_extraction_batch_chars (saturating_add chars (length t)))
    → Fits t
    → Progress texts batches current chars
    → Progress
        (texts ++ t ∷ [])
        (if flush then batches ++ current ∷ [] else batches)
        (if flush then t ∷ [] else current ++ t ∷ [])
        (saturating_add (if flush then 0 else chars) (length t))
step_Progress texts batches current chars t true e f p = record {
  in_order = rw (concat-snoc batches current) (ap (λ xs. xs ++ t ∷ []) p.in_order);
  bounded =
      All-snoc IsBatch batches current p.bounded (ground arith, omega (arith, p.within, p.counted));
  counted = ground arith;
  within = ground arith;
}
step_Progress texts batches [] chars t false e f p = record {
  in_order = rw (← append_assoc (concat batches) [] (t ∷ [])) (ap (λ xs. xs ++ t ∷ []) p.in_order);
  bounded = p.bounded;
  counted = ground (arith, p.counted);
  within = ground (arith, p.counted);
}
step_Progress texts batches (u ∷ us) chars t false e f p = record {
  in_order =
      sym (append_assoc (concat batches) (u ∷ us) (t ∷ [])) ∙ ap (λ xs. xs ++ t ∷ []) p.in_order;
  bounded = p.bounded;
  counted = ground (arith, p.counted, p.within, chars_of-snoc us t);
  within = ground (arith, p.within);
}

Fits-test : (t : Text) → Fits t → ltb max_extraction_batch_chars (length t) ≡ false
Fits-test t f = ground arith

split_from-Splits :
    (texts : List Text) (batches : List (List Text)) (current : List Text) (chars : ℕ)
    (rest : List Text)
    → All Fits rest
    → Progress texts batches current chars
    → (r : List (List Text)) × (split_from batches current chars rest ≡ ok r)
      × Splits (texts ++ rest) (ok r)
unfolding split_from
split_from-Splits texts batches current chars [] f p =
    let s = flushed texts batches current chars p in (_, refl, (s.0 ∙ sym (append-nil texts), s.1))
split_from-Splits texts batches current chars (t ∷ ts) f p =
    let q = step_Progress texts batches current chars t _ refl f.0 p in
    let (r, e, s) = split_from-Splits (texts ++ t ∷ []) _ _ _ ts f.1 q in
    (r, rw (Fits-test t f.0) e, (s.0 ∙ append_assoc texts (t ∷ []) ts, s.1))

-- When no text of a segment is over the bound, splitting succeeds: the batches, put together, are
-- the segment's texts in order, and none is empty or over the bound.
pub split_extraction_batches-Splits :
    (segment : ActivitySegmentDraft)
    → All Fits segment.extraction_texts
    → (r : List (List Text)) × (split_extraction_batches segment ≡ ok r)
      × (concat r ≡ segment.extraction_texts)
      × All IsBatch r
unfolding split_extraction_batches
split_extraction_batches-Splits segment f =
    let (r, e, s) =
      split_from-Splits [] [] [] 0 segment.extraction_texts f
        (record { in_order = refl; bounded = tt; counted = refl; within = omega arith }) in
    (r, e, s.0, s.1)

-- An oversized text makes splitting fail.
pub split_extraction_batches-oversized :
    (segment : ActivitySegmentDraft) (before after : List Text) (t : Text)
    → segment.extraction_texts ≡ before ++ t ∷ after
    → max_extraction_batch_chars < length t
    → split_extraction_batches segment ≡ err oversized_source
unfolding split_extraction_batches
split_extraction_batches-oversized segment before after t e h = rw e (go before [] [] 0)
  where
    go :
        (before : List Text) (batches : List (List Text)) (current : List Text) (chars : ℕ)
        → split_from batches current chars (before ++ t ∷ after) ≡ err oversized_source
    go [] batches current chars = rw (lt→ltb _ _ h)
    go (u ∷ us) batches current chars =
        elim (Bool-cases (ltb max_extraction_batch_chars (length u))) [
          | inl over ↦ rw over
          | inr fits ↦ rw fits (go us _ _ _)
        ]
