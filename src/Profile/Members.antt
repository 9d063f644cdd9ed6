-- ===== src/Profile/Members.antt =====
-- Which memories a profile of crates/mega-memory/src/profile.rs has, and in which part.
use stalky.Prelude.Text.{Text, text_eq, text_eq_iff, text_eq_refl}
use stalky.Prelude.{
  Bool-cases, In, In-any, any, any-In, ap, arith, drop, inl, inr, length, refl, same, same→eq,
  subst, true, ◌++◌, ◌∙◌, ◌∷◌, ◌≡◌, ◌⊎◌, ◌↔◌, [],
}
use stalky.Privacy.{starts_with}
use stalky.Model.{
  EntityReference, Memory, MemoryStatus, MemoryStatus-discrete, MemoryType, ScopeType, active, app,
  decision, entity, episode, fact, global, preference, procedure, project, task,
}
use stalky.Profile.{
  ProfileProjectionType, belongs_to_projection, for_app, for_category, for_entity, for_global,
  for_project, is_included, is_scope, is_stable, is_within,
}

-- What lasts: preferences, facts and procedures.
abbrev pub IsLasting : MemoryType → Type 0
IsLasting t = (t ≡ preference) ⊎ (t ≡ fact) ⊎ (t ≡ procedure)

pub is_stable_iff : (t : MemoryType) → (is_stable t ≡ true) ↔ IsLasting t
is_stable_iff preference = (λ h. inl refl, λ k. refl)
is_stable_iff fact = (λ h. inr (inl refl), λ k. refl)
is_stable_iff procedure = (λ h. inr (inr refl), λ k. refl)
is_stable_iff decision = (λ h. cc, λ k. elim k [ inl e ↦ cc | inr (inl e) ↦ cc | inr (inr e) ↦ cc ])
is_stable_iff episode = (λ h. cc, λ k. elim k [ inl e ↦ cc | inr (inl e) ↦ cc | inr (inr e) ↦ cc ])
is_stable_iff task = (λ h. cc, λ k. elim k [ inl e ↦ cc | inr (inl e) ↦ cc | inr (inr e) ↦ cc ])

-- The category itself, or one below it.
abbrev pub IsBelow : Text → Text → Type 0
IsBelow key slug = (slug ≡ key) ⊎ ((rest : Text) × (slug ≡ key ++ 46 ∷ rest))

starts_with-rest : (t p : Text) → starts_with t p ≡ true → t ≡ p ++ drop (length p) t
unfolding starts_with
starts_with-rest t [] h = refl
starts_with-rest [] (y ∷ p) h = cc
starts_with-rest (x ∷ t) (y ∷ p) h =
    let e : x ≡ y = ground (arith, h) in
    let k = starts_with-rest t p (ground (arith, h)) in rw e (ap (◌∷◌ y) k)

starts_with-append :
    (p rest : Text) → (starts_with (p ++ rest) p ≡ true) × (drop (length p) (p ++ rest) ≡ rest)
unfolding starts_with
starts_with-append [] rest = (refl, refl)
starts_with-append (x ∷ p) rest = let k = starts_with-append p rest in (ground (arith, k), k.1)

is_within-IsBelow : (key slug : Text) → is_within key slug ≡ true → IsBelow key slug
unfolding is_within
is_within-IsBelow key slug h = elim (Bool-cases (text_eq slug key)) [
  | inl e ↦ inl ((text_eq_iff slug key).0 e)
  | inr e ↦
      let a = starts_with-rest slug key (ground (arith, h, e)) in
      let b = starts_with-rest (drop (length key) slug) (46 ∷ []) (ground (arith, h, e)) in
      inr (drop 1 (drop (length key) slug), a ∙ ap (λ t. key ++ t) b)
]

IsBelow-is_within : (key slug : Text) → IsBelow key slug → is_within key slug ≡ true
unfolding is_within starts_with
IsBelow-is_within key slug (inl e) = rw ((text_eq_iff slug key).1 e) refl
IsBelow-is_within key slug (inr (rest, e)) =
    let (a, b) = starts_with-append key (46 ∷ rest) in rw (e, a, b) (ground arith)

is_scope_refl : (t : ScopeType) → is_scope t t ≡ true
is_scope_refl global = refl
is_scope_refl app = refl
is_scope_refl project = refl
is_scope_refl entity = refl

is_scope_iff : (s t : ScopeType) → (is_scope s t ≡ true) ↔ (s ≡ t)
is_scope_iff s t = (ground arith, λ e. rw e (is_scope_refl t))

is_active-true : (s : MemoryStatus) → s ≡ active → same MemoryStatus-discrete s active ≡ true
unfolding MemoryStatus-discrete
is_active-true s e = rw e refl

module _ {F : Type 0} where
  -- What belongs to a projection.
  abbrev pub BelongsTo : ProfileProjectionType → Text → Memory F → Type 0
  BelongsTo for_global key m = m.scope.scope_type ≡ global
  BelongsTo for_app key m =
      In key m.applicable_app_ids ⊎ ((m.scope.scope_type ≡ app) × (m.scope.scope_key ≡ key))
  BelongsTo for_project key m = (m.scope.scope_type ≡ project) × (m.scope.scope_key ≡ key)
  BelongsTo for_category key m = (slug : Text) × In slug m.category_slugs × IsBelow key slug
  BelongsTo for_entity key m = (e : EntityReference) × In e m.entities × (e.entity_id ≡ key)

  belongs-BelongsTo :
      (t : ProfileProjectionType) (key : Text) (m : Memory F)
      → belongs_to_projection t key m ≡ true
      → BelongsTo t key m
  unfolding belongs_to_projection
  belongs-BelongsTo for_global key m h = (is_scope_iff m.scope.scope_type global).0 h
  belongs-BelongsTo for_app key m h =
      elim (Bool-cases (any (λ id. text_eq id key) m.applicable_app_ids)) [
        | inl e ↦
            let (id, i, k) = In-any (λ id. text_eq id key) m.applicable_app_ids e in
            inl (subst (λ x. In x m.applicable_app_ids) ((text_eq_iff id key).0 k) i)
        | inr e ↦ inr (
          (is_scope_iff m.scope.scope_type app).0 (ground (arith, h, e)),
          (text_eq_iff m.scope.scope_key key).0 (ground (arith, h, e)),
        )
      ]
  belongs-BelongsTo for_project key m h = (
    (is_scope_iff m.scope.scope_type project).0 (ground (arith, h)),
    (text_eq_iff m.scope.scope_key key).0 (ground (arith, h)),
  )
  belongs-BelongsTo for_category key m h =
      let (slug, i, k) = In-any (is_within key) m.category_slugs h in
      (slug, i, is_within-IsBelow key slug k)
  belongs-BelongsTo for_entity key m h =
      let (e, i, k) = In-any (λ (e : EntityReference). text_eq e.entity_id key) m.entities h in
      (e, i, (text_eq_iff e.entity_id key).0 k)

  BelongsTo-belongs :
      (t : ProfileProjectionType) (key : Text) (m : Memory F)
      → BelongsTo t key m
      → belongs_to_projection t key m ≡ true
  unfolding belongs_to_projection
  BelongsTo-belongs for_global key m h = (is_scope_iff m.scope.scope_type global).1 h
  BelongsTo-belongs for_app key m (inl i) =
      let k = any-In (λ id. text_eq id key) m.applicable_app_ids key i (text_eq_refl key) in
      rw k refl
  BelongsTo-belongs for_app key m (inr (e, k)) =
      let a = (is_scope_iff m.scope.scope_type app).1 e in
      let b = (text_eq_iff m.scope.scope_key key).1 k in ground (arith, a, b)
  BelongsTo-belongs for_project key m (e, k) =
      let a = (is_scope_iff m.scope.scope_type project).1 e in
      let b = (text_eq_iff m.scope.scope_key key).1 k in ground (arith, a, b)
  BelongsTo-belongs for_category key m (slug, i, k) =
      any-In (is_within key) m.category_slugs slug i (IsBelow-is_within key slug k)
  BelongsTo-belongs for_entity key m (e, i, k) =
      any-In (λ (e : EntityReference). text_eq e.entity_id key) m.entities e i
        ((text_eq_iff e.entity_id key).1 k)

  -- A profile has exactly the active memories that belong to its projection.
  pub is_included_iff :
      (t : ProfileProjectionType) (key : Text) (m : Memory F)
      → (is_included t key m ≡ true) ↔ ((m.status ≡ active) × BelongsTo t key m)
  unfolding MemoryStatus-discrete
  is_included_iff t key m = (
    λ h. (
      same→eq MemoryStatus-discrete m.status active (ground (arith, h)),
      belongs-BelongsTo t key m (ground (arith, h)),
    ),
    λ h.
        let a = is_active-true m.status h.0 in
        let b = BelongsTo-belongs t key m h.1 in ground (arith, a, b),
  )
