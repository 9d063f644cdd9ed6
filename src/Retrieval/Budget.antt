-- ===== src/Retrieval/Budget.antt =====
-- The budget of `render_memory_context`, in crates/mega-memory/src/retrieval.rs.
use stalky.Prelude.Words.{u64_max, saturating_add, wrapping_add}
use stalky.Retrieval.{MemoryContextRequest, RetrievedMemory}
use stalky.Prelude.Int.{ℤ}
use stalky.Prelude.{
  ℕ, ◌++◌, List, ◌≡◌, ◌+◌, arith, ◌<◌, ◌∷◌, ◌≤◌, [], sym, append-nil, ◌⊎◌, Bool-cases, ltb, inl,
  inr, ◌∙◌, append_assoc, ap, ◌==◌, refl,
}
use stalky.Retrieval.Render.{
  conservative_token_estimate, render_items, opening, closing, render_item, render_memory_context,
}
use stalky.Prelude.Text.{Text}
use stalky.Model.Floats.{Float32}
use mathlib.Core.List.{Sublist}
use mathlib.Core.List.Sublist

abbrev estimate : Text → ℕ
estimate = conservative_token_estimate

estimate-append : (s t : Text) → estimate (s ++ t) ≡ estimate s + estimate t
unfolding conservative_token_estimate
estimate-append [] t = omega arith
estimate-append (c ∷ s) t = omega (arith, estimate-append s t)

module _ (fl : Float32) (display_i64 : ℤ → Text) where
  open fl use {F}

  -- The lines of some memories.
  unfoldable pub lines : List (RetrievedMemory F) → Text
  lines [] = []
  lines (r ∷ rs) = render_item fl display_i64 r ++ lines rs

  -- Some of the memories, in their order, one line each, and the whole within the budget.
  pub record IsContext (budget : ℕ) (ranked : List (RetrievedMemory F))
      (kept : List (RetrievedMemory F)) (out : Text) : Type 0 where
    pub some_of : Sublist kept ranked
    pub rendered : out ≡ opening ++ lines kept ++ closing
    pub within : conservative_token_estimate out ≤ budget

  -- The loop's lines fit beside what is there.
  record IsRest (budget tokens : ℕ) (before : Text) (items kept : List (RetrievedMemory F))
      (out : Text) : Type 0 where
    chosen : Sublist kept items
    extended : out ≡ before ++ lines kept
    fits : tokens + estimate (lines kept) ≤ budget

  push-IsRest :
      (budget tokens : ℕ) (before : Text) (r : RetrievedMemory F)
      (rs kept : List (RetrievedMemory F)) (out : Text)
      → IsRest budget
          (tokens + estimate (render_item fl display_i64 r))
          (before ++ render_item fl display_i64 r)
          rs
          kept
          out
      → IsRest budget tokens before (r ∷ rs) (r ∷ kept) out
  unfolding lines
  push-IsRest budget tokens before r rs kept out v = record {
    chosen = Sublist.cons-cons r v.chosen;
    extended = v.extended ∙ append_assoc before (render_item fl display_i64 r) (lines kept);
    fits = omega (arith, v.fits, estimate-append (render_item fl display_i64 r) (lines kept));
  }

  render_items-IsRest :
      (budget : ℕ) (before : Text) (tokens : ℕ) (items : List (RetrievedMemory F))
      → budget < u64_max
      → tokens ≤ budget
      → (kept : List (RetrievedMemory F)) × IsRest budget tokens before items kept
          (render_items fl display_i64 budget before tokens items)
  unfolding render_items lines conservative_token_estimate
  render_items-IsRest budget before tokens [] b h = (
    [],
    record { chosen = Sublist.refl []; extended = sym (append-nil before); fits = omega arith },
  )
  render_items-IsRest budget before tokens (r ∷ rs) b h =
      let line = render_item fl display_i64 r in
      elim (Bool-cases (ltb budget (saturating_add tokens (estimate line)))) [
        | inl k ↦
            let (kept, v) = render_items-IsRest budget before tokens rs b h in
            rw k (
              kept,
              record { chosen = Sublist.cons r v.chosen; extended = v.extended; fits = v.fits },
            )
        | inr k ↦
            let e : wrapping_add tokens (estimate line) ≡ tokens + estimate line = ground arith in
            let (kept, v) =
              render_items-IsRest budget (before ++ line) (tokens + estimate line) rs b
                (ground arith) in
            rw (k, e) (r ∷ kept, push-IsRest budget tokens before r rs kept _ v)
      ]

  wrap-IsContext :
      (budget : ℕ) (ranked kept : List (RetrievedMemory F)) (out : Text)
      → IsRest budget (estimate opening + estimate closing) opening ranked kept out
      → IsContext budget ranked kept (out ++ closing)
  wrap-IsContext budget ranked kept out v = record {
    some_of = v.chosen;
    rendered = ap (λ t. t ++ closing) v.extended ∙ append_assoc opening (lines kept) closing;
    within = omega (
      arith,
      v.fits,
      estimate-append out closing,
      ap estimate v.extended,
      estimate-append opening (lines kept),
    );
  }

  -- The context of a request is empty, or the lines of some of the ranked memories in their order, in
  -- the envelope, and at most as many bytes as the request's budget, if that is below the greatest
  -- `usize`.
  pub render_memory_context-IsContext :
      (request : MemoryContextRequest) (ranked : List (RetrievedMemory F))
      → request.total_token_budget < u64_max
      → (render_memory_context fl display_i64 request ranked ≡ [])
        ⊎ ((kept : List (RetrievedMemory F)) × IsContext request.total_token_budget ranked kept
              (render_memory_context fl display_i64 request ranked))
  unfolding render_memory_context
  render_memory_context-IsContext request ranked h =
      let budget = request.total_token_budget in
      let tokens = estimate opening + estimate closing in
      elim (Bool-cases (budget == 0)) [
        | inl z ↦ rw z (inl refl)
        | inr z ↦ elim (Bool-cases (ltb budget tokens)) [
          | inl k ↦ rw (z, k) (inl refl)
          | inr k ↦
              let (kept, v) = render_items-IsRest budget opening tokens ranked h (ground arith) in
              rw (z, k) (inr (kept, wrap-IsContext budget ranked kept _ v))
        ]
      ]
