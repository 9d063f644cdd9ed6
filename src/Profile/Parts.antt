-- ===== src/Profile/Parts.antt =====
-- The two parts of a profile (crates/mega-memory/src/profile.rs).
use stalky.Prelude.Int.{ℤ, ◌≤ℤ◌}
use stalky.Prelude.Text.{Text}
use stalky.Prelude.{
  Bool-cases, List, true, false, ◌↔◌, ap, append_assoc, append-nil, inl, inr, map, not, refl,
  retain, ℕ, ◌++◌, ◌∷◌, ◌≡◌, [],
}
use mathlib.Core.List.{Perm}
use stalky.Prelude.Comparisons.{
  by_key-IsOrder, cmp_ℤ, cmp_ℤ-IsOrder, cmp_ℤ-le, cmp_text-IsOrder, descending-IsOrder, le-cmp_ℤ,
  then_with-IsOrder,
}
use stalky.Prelude.Orders.{
  IsOrder, IsOrdered, IsSorted-IsOrdered, cmp_text, is_gt, sort_by, sort_by-IsSorted, sort_by-Perm,
  then_with, then_with-first, then_with-second,
}
use stalky.Model.Floats.{Float32}
use stalky.Model.{Memory, MemoryType, active}
use stalky.Retrieval.{total_cmp}
use stalky.Retrieval.Ranking.{total_cmp-IsOrder, total_cmp-le, total_cmp-second}
use stalky.Profile.Members.{BelongsTo, IsLasting, is_included_iff, is_stable_iff}
use stalky.Profile.{
  ProfileItem, ProfileProjection, ProfileProjectionType, build_profile, is_included, is_stable,
  item_of, profile_order, push_items,
}

module _ {F : Type 0} where
  abbrev pub stable_items : List (Memory F) → List ProfileItem
  stable_items ms = map item_of (retain (λ m. is_stable m.memory_type) ms)

  abbrev pub current_items : List (Memory F) → List ProfileItem
  current_items ms = map item_of (retain (λ m. not (is_stable m.memory_type)) ms)

  push_items-parts :
      (stable current : List ProfileItem) (ms : List (Memory F))
      → push_items stable current ms ≡ (stable ++ stable_items ms, current ++ current_items ms)
  unfolding push_items
  push_items-parts stable current [] = rw (append-nil stable, append-nil current) refl
  push_items-parts stable current (m ∷ ms) = elim (Bool-cases (is_stable m.memory_type)) [
    | inl e ↦
        rw
          (
            e,
            push_items,
            push_items-parts (stable ++ item_of m ∷ []) current ms,
            append_assoc stable,
          )
          refl
    | inr e ↦
        rw
          (
            e,
            push_items,
            push_items-parts stable (current ++ item_of m ∷ []) ms,
            append_assoc current,
          )
          refl
  ]

module _ (fl : Float32) where
  open fl use {F, total_le}

  profile_order-IsOrder : IsOrder (profile_order fl)
  unfolding profile_order
  profile_order-IsOrder =
      then_with-IsOrder _ _
        (descending-IsOrder _
          (by_key-IsOrder (λ m. Memory.importance m) (total_cmp fl) (total_cmp-IsOrder fl)))
        (then_with-IsOrder _ _
          (descending-IsOrder _
            (by_key-IsOrder (λ m. Memory.confidence m) (total_cmp fl) (total_cmp-IsOrder fl)))
          (then_with-IsOrder _ _
            (descending-IsOrder _
              (by_key-IsOrder (λ m. Memory.updated_at_ms m) cmp_ℤ cmp_ℤ-IsOrder))
            (by_key-IsOrder (λ m. Memory.id m) cmp_text cmp_text-IsOrder)))

  -- The first of two memories comes before the second in a profile, or as early: it is no less
  -- important; if they are as important it is no less sure; if they are as sure too it was not updated
  -- before; if the updates are equal too its id is no greater.
  abbrev pub ProfiledBefore : Memory F → Memory F → Type 0
  ProfiledBefore x y =
      (total_le y.importance x.importance ≡ true)
      × (total_le x.importance y.importance ≡ true
          → (total_le y.confidence x.confidence ≡ true)
            × (total_le x.confidence y.confidence ≡ true
                → (y.updated_at_ms ≤ℤ x.updated_at_ms)
                  × (x.updated_at_ms ≤ℤ y.updated_at_ms → is_gt (cmp_text x.id y.id) ≡ false)))

  profile_order-ProfiledBefore :
      (x y : Memory F) → is_gt (profile_order fl x y) ≡ false → ProfiledBefore x y
  unfolding profile_order
  profile_order-ProfiledBefore x y h =
      let importances = total_cmp fl y.importance x.importance in
      let confidences = total_cmp fl y.confidence x.confidence in
      let times = cmp_ℤ y.updated_at_ms x.updated_at_ms in
      let ids = cmp_text x.id y.id in
      let after = then_with confidences (then_with times ids) in
      (
        total_cmp-le fl y.importance x.importance (then_with-first importances after h),
        λ d.
            let j =
              then_with-second importances after h
                (total_cmp-second fl y.importance x.importance d) in
            (
              total_cmp-le fl y.confidence x.confidence
                  (then_with-first confidences (then_with times ids) j),
              λ e.
                  let k =
                    then_with-second confidences (then_with times ids) j
                      (total_cmp-second fl y.confidence x.confidence e) in
                  (
                    cmp_ℤ-le y.updated_at_ms x.updated_at_ms (then_with-first times ids k),
                    λ f. then_with-second times ids k (
                        rw⁻¹ (cmp_ℤ-IsOrder.reverses y.updated_at_ms x.updated_at_ms)
                          (le-cmp_ℤ x.updated_at_ms y.updated_at_ms f)),
                  ),
            ),
      )

  -- What a profile shows of the memories `ms`, in their order.
  pub record IsProfile (p : ProfileProjection) (ms : List (Memory F)) : Type 0 where
    pub stable_part : p.stable ≡ stable_items ms
    pub current_part : p.current ≡ current_items ms

  -- A profile is made of exactly the memories that the projection includes, each as often as it is
  -- given, and a memory is included exactly if it is active and belongs to the projection. The more
  -- important come first, or, of equal importance, the surer, then the later update, then the lesser
  -- id. The stable part has the memories among them whose type is stable, which are the preferences,
  -- facts and procedures, and the current part has the others, in that order.
  pub build_profile-IsProfile :
      (t : ProfileProjectionType) (key : Text) (memories : List (Memory F)) (revision : ℕ) (now : ℤ)
      → (ms : List (Memory F)) × Perm ms (retain (is_included t key) memories)
        × ((m : Memory F)
            → (is_included t key m ≡ true) ↔ ((m.status ≡ active) × BelongsTo t key m))
        × IsOrdered ProfiledBefore ms
        × IsProfile (build_profile fl t key memories revision now) ms
        × ((u : MemoryType) → (is_stable u ≡ true) ↔ IsLasting u)
  unfolding build_profile
  build_profile-IsProfile t key memories revision now =
      let kept = retain (is_included t key) memories in
      let ms = sort_by (profile_order fl) kept in
      let e = push_items-parts [] [] ms in
      (
        ms,
        sort_by-Perm (profile_order fl) kept,
        is_included_iff t key,
        IsSorted-IsOrdered (profile_order fl) ProfiledBefore profile_order-ProfiledBefore ms
            (sort_by-IsSorted (profile_order fl) profile_order-IsOrder kept),
        record { stable_part = ap (λ x. x.0) e; current_part = ap (λ x. x.1) e },
        is_stable_iff,
      )
