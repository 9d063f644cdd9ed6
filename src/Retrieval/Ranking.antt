-- ===== src/Retrieval/Ranking.antt =====
-- `rank_memories` of crates/mega-memory/src/retrieval.rs sorts what is eligible.
use stalky.Model.{Memory}
use stalky.Prelude.Comparisons.{
  then_with-IsOrder, descending-IsOrder, by_key-IsOrder, cmp_ℤ, cmp_ℤ-IsOrder, cmp_text-IsOrder,
}
use stalky.Retrieval.{
  MemoryContextRequest, rank_memories, rank_order, total_cmp, RetrievedMemory, eligible, scored,
}
use stalky.Retrieval.Scopes.{IsVisible, eligible_iff}
use stalky.Prelude.Comparisons.{cmp_ℤ-le, le-cmp_ℤ}
use stalky.Prelude.Int.{◌≤ℤ◌}
use stalky.Prelude.Orders.{
  IsOrdered, IsSorted-IsOrdered, then_with, then_with-first, then_with-second,
}
use stalky.Prelude.Orders.{IsOrder, is_gt, reverse, sort_by-Perm, cmp_text, sort_by-IsSorted}
use stalky.Prelude.{◌↔◌, ◌≡◌, List, false, true, inl, map, inr, retain, arith}
use stalky.Model.Floats.{Float32}
use mathlib.Core.List.{Perm}

module _ (fl : Float32) where
  open fl use {F, total_le, total_le_total, total_le_trans}

  total_cmp-reverses : (a b : F) → total_cmp fl b a ≡ reverse (total_cmp fl a b)
  total_cmp-reverses a b = elim (total_le_total a b) [ inl h ↦ ground arith | inr h ↦ ground arith ]

  pub total_cmp-le : (a b : F) → is_gt (total_cmp fl a b) ≡ false → total_le a b ≡ true
  total_cmp-le a b h = ground arith

  total_le-cmp : (a b : F) → total_le a b ≡ true → is_gt (total_cmp fl a b) ≡ false
  total_le-cmp a b h = ground arith

  pub total_cmp-IsOrder : IsOrder (total_cmp fl)
  total_cmp-IsOrder = record {
    reverses = total_cmp-reverses;
    transits = λ a b c h k.
        total_le-cmp a c (total_le_trans a b c (total_cmp-le a b h) (total_cmp-le b c k));
  }

  rank_order-IsOrder : IsOrder (rank_order fl)
  unfolding rank_order
  rank_order-IsOrder =
      then_with-IsOrder _ _
        (descending-IsOrder _
          (by_key-IsOrder (λ r. RetrievedMemory.score r) (total_cmp fl) total_cmp-IsOrder))
        (then_with-IsOrder _ _
          (descending-IsOrder _ (
            by_key-IsOrder (λ r. Memory.updated_at_ms (RetrievedMemory.memory r)) cmp_ℤ
              cmp_ℤ-IsOrder))
          (by_key-IsOrder (λ r. Memory.id (RetrievedMemory.memory r)) cmp_text cmp_text-IsOrder))

  pub total_cmp-second :
      (a b : F) → total_le b a ≡ true → is_gt (reverse (total_cmp fl a b)) ≡ false
  total_cmp-second a b h = rw⁻¹ (total_cmp-reverses a b) (total_le-cmp b a h)

  -- The first of two memories ranks before the second, or as high: its score is no less; if the scores
  -- are equal it was not updated before; if the updates are equal too its id is no greater.
  abbrev pub RanksBefore : RetrievedMemory F → RetrievedMemory F → Type 0
  RanksBefore x y =
      (total_le y.score x.score ≡ true)
      × (total_le x.score y.score ≡ true
          → (y.memory.updated_at_ms ≤ℤ x.memory.updated_at_ms)
            × (x.memory.updated_at_ms ≤ℤ y.memory.updated_at_ms
                → is_gt (cmp_text x.memory.id y.memory.id) ≡ false))

  rank_order-RanksBefore :
      (x y : RetrievedMemory F) → is_gt (rank_order fl x y) ≡ false → RanksBefore x y
  unfolding rank_order
  rank_order-RanksBefore x y h =
      let scores = total_cmp fl y.score x.score in
      let times = cmp_ℤ y.memory.updated_at_ms x.memory.updated_at_ms in
      let ids = cmp_text x.memory.id y.memory.id in
      (
        total_cmp-le y.score x.score (then_with-first scores (then_with times ids) h),
        λ e.
            let k =
              then_with-second scores (then_with times ids) h
                (total_cmp-second y.score x.score e) in
            (
              cmp_ℤ-le y.memory.updated_at_ms x.memory.updated_at_ms (then_with-first times ids k),
              λ f. then_with-second times ids k (
                  rw⁻¹ (cmp_ℤ-IsOrder.reverses y.memory.updated_at_ms x.memory.updated_at_ms)
                    (le-cmp_ℤ x.memory.updated_at_ms y.memory.updated_at_ms f)),
            ),
      )

  -- The ranking holds exactly the candidates that are eligible, each as often as it is given and with
  -- its score, and a memory is eligible exactly if the request may see it. Of two memories the one
  -- with the greater score comes first, or, of equal scores, the later update, or, of equal updates
  -- too, the lesser id.
  pub rank_memories-IsRanked :
      (request : MemoryContextRequest) (candidates : List (RetrievedMemory F))
      → Perm
          (rank_memories fl request candidates)
          (map (scored fl request) (retain (λ c. eligible request c.memory) candidates))
        × ((m : Memory F) → (eligible request m ≡ true) ↔ IsVisible request m)
        × IsOrdered RanksBefore (rank_memories fl request candidates)
  unfolding rank_memories
  rank_memories-IsRanked request candidates =
      let kept = map (scored fl request) (retain (λ c. eligible request c.memory) candidates) in
      (
        sort_by-Perm (rank_order fl) kept,
        eligible_iff request,
        IsSorted-IsOrdered (rank_order fl) RanksBefore rank_order-RanksBefore _
            (sort_by-IsSorted (rank_order fl) rank_order-IsOrder kept),
      )
