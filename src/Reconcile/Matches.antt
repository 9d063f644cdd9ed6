-- ===== src/Reconcile/Matches.antt =====
-- `best_match` of crates/mega-memory/src/reconcile.rs.
use stalky.Prelude.{
  Bool, List, ◌≡◌, In, false, none, same, some, true, [], arith, inl, retain, ◌∷◌, ◌≢◌, inr, refl,
  retain-In, subst, sym, Bool-cases, In-retain, same→eq,
}
use stalky.Model.Floats.{Float32}
use stalky.Reconcile.{
  CandidateRelationship, CandidateRelationship-discrete, ReconciliationMatch, best_from, best_match,
}

module _ (fl : Float32) where
  open fl use {F, total_le, total_le_total, total_le_trans}

  total_le_refl : (a : F) → total_le a a ≡ true
  total_le_refl a = elim (total_le_total a a) [ inl h ↦ h | inr h ↦ h ]

  total_le_of_false : (a b : F) → total_le a b ≡ false → total_le b a ≡ true
  total_le_of_false a b h = elim (total_le_total a b) [ inl k ↦ cc | inr k ↦ k ]

  -- Of the list, and as sure as any of it.
  pub record IsBest (ms : List (ReconciliationMatch F)) (m : ReconciliationMatch F) : Type 0 where
    pub is_in : In m ms
    pub is_surest :
        (n : ReconciliationMatch F) → In n ms → total_le n.confidence m.confidence ≡ true

  best_from-IsBest :
      (b : ReconciliationMatch F) (ms : List (ReconciliationMatch F)) (m : ReconciliationMatch F)
      → best_from fl (some b) ms ≡ some m
      → IsBest (b ∷ ms) m
  unfolding best_from
  best_from-IsBest b [] m e =
      let k : b ≡ m = cc in
      record {
        is_in = inl (sym k);
        is_surest =
            λ n i. elim i [ inl h ↦ rw (h, k) (total_le_refl m.confidence) | inr h ↦ elim h [ ] ];
      }
  best_from-IsBest b (x ∷ ms) m e = elim (Bool-cases (total_le b.confidence x.confidence)) [
    | inl t ↦
        let v = best_from-IsBest x ms m (rw t at e) in
        record {
          is_in = inr v.is_in;
          is_surest = λ n i. elim i [
            | inl h ↦
                rw h (
                  total_le_trans b.confidence x.confidence m.confidence t
                    (v.is_surest x (inl refl)))
            | inr h ↦ v.is_surest n h
          ];
        }
    | inr t ↦
        let v = best_from-IsBest b ms m (rw t at e) in
        record {
          is_in = elim v.is_in [ inl h ↦ inl h | inr h ↦ inr (inr h) ];
          is_surest = λ n i. elim i [
            | inl h ↦ v.is_surest n (inl h)
            | inr j ↦ elim j [
              | inl h ↦ rw h (
                  total_le_trans x.confidence b.confidence m.confidence
                    (total_le_of_false b.confidence x.confidence t) (v.is_surest b (inl refl)))
              | inr h ↦ v.is_surest n (inr h)
            ]
          ];
        }
  ]

  best_from-some :
      (ms : List (ReconciliationMatch F)) (b : ReconciliationMatch F)
      → best_from fl (some b) ms ≢ none
  unfolding best_from
  best_from-some [] b e = cc
  best_from-some (x ∷ ms) b e = best_from-some ms _ e

  abbrev has : CandidateRelationship → ReconciliationMatch F → Bool
  has r m = same CandidateRelationship-discrete m.relationship r

  has-eq :
      (r : CandidateRelationship) (m : ReconciliationMatch F) → m.relationship ≡ r → has r m ≡ true
  has-eq r m e = ground arith

  from_none-IsBest :
      (ms : List (ReconciliationMatch F)) (m : ReconciliationMatch F)
      → best_from fl none ms ≡ some m
      → IsBest ms m
  unfolding best_from
  from_none-IsBest [] m e = cc
  from_none-IsBest (x ∷ ms) m e = best_from-IsBest x ms m e

  from_none-none : (ms : List (ReconciliationMatch F)) → best_from fl none ms ≡ none → ms ≡ []
  unfolding best_from
  from_none-none [] e = refl
  from_none-none (x ∷ ms) e = absurd (best_from-some ms x e)

  -- The match that is found is one of the given ones, of the wanted relationship, and none of that
  -- relationship has a greater confidence.
  pub best_match-some :
      (ms : List (ReconciliationMatch F)) (r : CandidateRelationship) (m : ReconciliationMatch F)
      → best_match fl ms r ≡ some m
      → In m ms
        × (m.relationship ≡ r)
        × ((n : ReconciliationMatch F)
            → In n ms
            → n.relationship ≡ r
            → total_le n.confidence m.confidence ≡ true)
  unfolding best_match
  best_match-some ms r m e =
      let v = from_none-IsBest (retain (has r) ms) m e in
      let i = retain-In (has r) ms m v.is_in in
      (
        i.0,
        same→eq CandidateRelationship-discrete m.relationship r i.1,
        λ n j k. v.is_surest n (In-retain (has r) ms n j (has-eq r n k)),
      )

  -- None is found only if no match has the relationship.
  pub best_match-none :
      (ms : List (ReconciliationMatch F)) (r : CandidateRelationship)
      → best_match fl ms r ≡ none
      → (n : ReconciliationMatch F) → In n ms
      → n.relationship ≢ r
  unfolding best_match
  best_match-none ms r e n i k =
      subst (In n) (from_none-none (retain (has r) ms) e) (In-retain (has r) ms n i (has-eq r n k))
