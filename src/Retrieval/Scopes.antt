-- ===== src/Retrieval/Scopes.antt =====
-- What crates/mega-memory/src/retrieval.rs lets a request see.
use stalky.Prelude.Orders.{sort_by-All}
use stalky.Model.Floats.{Float32}
use stalky.Model.{
  Memory, active_only, active, forgotten, rejected, allows, pending_review, public_only, public,
  sensitive, include_sensitive, private, include_private, include_history, superseded, expired,
  global, MemoryStatus, HistoricalMode, SensitivityAllowance, Sensitivity, ScopeType, app, project,
  entity, EntityReference,
}
use stalky.Retrieval.{
  MemoryContextRequest, eligible, is_active_only, is_some_and, is_hidden, scope_allows,
  is_active_status, mentions, rank_memories, RetrievedMemory, rank_order, scored,
}
use stalky.Prelude.Text.{text_mem, Text, is_empty, text_eq, text_eq_iff}
use stalky.Prelude.{
  any-In, ◌↔◌, List, Option, Bool, ◌≡◌, true, ◌&&◌, In, [], arith, not, some, none, ◌∷◌, ◌≢◌,
  Bool-cases, false, refl, inl, sym, ◌⊎◌, inr, All, ◌∙◌, In-any, ap, map, retain,
}

-- The memory is the request's to see: it is in force, or part of a history that is asked for; it is no
-- more sensitive than is allowed; it applies to the current app; and its scope is the current one.
pub record IsVisible {F : Type 0} (request : MemoryContextRequest) (memory : Memory F)
    : Type 0 where
  pub in_force : request.historical_mode ≡ active_only → memory.status ≡ active
  pub not_hidden :
      (memory.status ≢ forgotten) × (memory.status ≢ rejected) × (memory.status ≢ pending_review)
  pub public_only_public : request.sensitivity_allowance ≡ public_only → memory.sensitivity ≡ public
  pub sensitive_allowed :
      memory.sensitivity ≡ sensitive → request.sensitivity_allowance ≡ include_sensitive
  pub applies :
      (memory.applicable_app_ids ≡ [])
      ⊎ ((a : Text) × (request.current_app_id ≡ some a) × In a memory.applicable_app_ids)
  pub in_app : memory.scope.scope_type ≡ app → request.current_app_id ≡ some memory.scope.scope_key
  pub in_project :
      memory.scope.scope_type ≡ project → request.active_project_key ≡ some memory.scope.scope_key
  pub of_entity :
      memory.scope.scope_type ≡ entity
      → (e : EntityReference) × In e memory.entities × In e.entity_id request.mentioned_entity_ids

text_mem-In : (t : Text) (xs : List Text) → text_mem t xs ≡ true → In t xs
unfolding text_mem
text_mem-In t [] h = cc
text_mem-In t (x ∷ xs) h = elim (Bool-cases (text_eq x t)) [
  | inl k ↦ inl (sym ((text_eq_iff x t).0 k))
  | inr k ↦ inr (text_mem-In t xs (rw k at h))
]

some_and :
    {A : Type 0} (o : Option A) (p : A → Bool)
    → is_some_and o p ≡ true
    → (a : A) × (o ≡ some a) × (p a ≡ true)
some_and none p h = cc
some_and (some a) p h = (a, refl, h)

empty-nil : {A : Type 0} (xs : List A) → is_empty xs ≡ true → xs ≡ []
empty-nil [] h = refl
empty-nil (x ∷ xs) h = cc

module _ {F : Type 0} (request : MemoryContextRequest) (memory : Memory F) where
  -- The five tests of `eligible`, all passed.
  record Passes : Type 0 where
    mode : (is_active_only request.historical_mode && not (is_active_status memory.status)) ≡ false
    shown : is_hidden memory.status ≡ false
    allowed : allows request.sensitivity_allowance memory.sensitivity ≡ true
    applied :
        (is_empty memory.applicable_app_ids ≡ true)
        ⊎ (is_some_and request.current_app_id (λ a. text_mem a memory.applicable_app_ids) ≡ true)
    scoped : scope_allows request memory ≡ true

  eligible-Passes : eligible request memory ≡ true → Passes
  unfolding eligible
  eligible-Passes h = record {
    mode = ground arith;
    shown = ground arith;
    allowed = ground arith;
    applied = ground arith;
    scoped = ground arith;
  }

  applied-app :
      is_some_and request.current_app_id (λ a. text_mem a memory.applicable_app_ids) ≡ true
      → (a : Text) × (request.current_app_id ≡ some a) × In a memory.applicable_app_ids
  applied-app h =
      let (a, e, k) =
        some_and request.current_app_id (λ a. text_mem a memory.applicable_app_ids) h in
      (a, e, text_mem-In a memory.applicable_app_ids k)

  key_matches :
      (o : Option Text) (key : Text) → is_some_and o (λ a. text_eq a key) ≡ true → o ≡ some key
  key_matches o key h =
      let (a, e, k) = some_and o (λ a. text_eq a key) h in e ∙ ap some ((text_eq_iff a key).0 k)

  mentions-In :
      mentions request memory ≡ true
      → (e : EntityReference) × In e memory.entities × In e.entity_id request.mentioned_entity_ids
  unfolding mentions
  mentions-In h =
      let (e, i, k) =
        In-any (λ e. text_mem (EntityReference.entity_id e) request.mentioned_entity_ids)
          memory.entities h in
      (e, i, text_mem-In e.entity_id request.mentioned_entity_ids k)

  Passes-IsVisible : Passes → IsVisible request memory
  unfolding scope_allows allows
  Passes-IsVisible p = record {
    in_force = λ e. let m = p.mode in ground arith;
    not_hidden = let m = p.shown in (λ e. ground arith, λ e. ground arith, λ e. ground arith);
    public_only_public = λ e. let m = p.allowed in ground arith;
    sensitive_allowed = λ e. let m = p.allowed in ground arith;
    applies = elim p.applied [
      | inl h ↦ inl (empty-nil memory.applicable_app_ids h)
      | inr h ↦ inr (applied-app h)
    ];
    in_app = λ e.
        key_matches request.current_app_id memory.scope.scope_key
          (rw (e, scope_allows) at p.scoped);
    in_project = λ e.
        key_matches request.active_project_key memory.scope.scope_key
          (rw (e, scope_allows) at p.scoped);
    of_entity = λ e. mentions-In (rw (e, scope_allows) at p.scoped);
  }

is_hidden-false :
    (status : MemoryStatus)
    → status ≢ forgotten
    → status ≢ rejected
    → status ≢ pending_review
    → is_hidden status ≡ false
is_hidden-false forgotten a b c = absurd (a refl)
is_hidden-false rejected a b c = absurd (b refl)
is_hidden-false pending_review a b c = absurd (c refl)
is_hidden-false active a b c = refl
is_hidden-false superseded a b c = refl
is_hidden-false expired a b c = refl

mode-false :
    (mode : HistoricalMode) (status : MemoryStatus)
    → (mode ≡ active_only → status ≡ active)
    → (is_active_only mode && not (is_active_status status)) ≡ false
mode-false active_only status h = rw (h refl) refl
mode-false include_history status h = refl

allows-true :
    (allowance : SensitivityAllowance) (sensitivity : Sensitivity)
    → (allowance ≡ public_only → sensitivity ≡ public)
    → (sensitivity ≡ sensitive → allowance ≡ include_sensitive)
    → allows allowance sensitivity ≡ true
unfolding allows
allows-true public_only sensitivity h k = rw (h refl) refl
allows-true include_private public h k = refl
allows-true include_private private h k = refl
allows-true include_private sensitive h k = absurd (let e = k refl in cc)
allows-true include_sensitive public h k = refl
allows-true include_sensitive private h k = refl
allows-true include_sensitive sensitive h k = refl

text_mem-holds : (t : Text) (xs : List Text) → In t xs → text_mem t xs ≡ true
unfolding text_mem
text_mem-holds t [] i = elim i [ ]
text_mem-holds t (x ∷ xs) (inl e) = rw ((text_eq_iff x t).1 (sym e)) refl
text_mem-holds t (x ∷ xs) (inr i) = let k = text_mem-holds t xs i in ground (arith, k)

module _ {F : Type 0} (request : MemoryContextRequest) (memory : Memory F) where
  scope-allowed :
      (t : ScopeType)
      → memory.scope.scope_type ≡ t
      → IsVisible request memory
      → scope_allows request memory ≡ true
  unfolding scope_allows mentions
  scope-allowed global e v = rw (e, scope_allows) refl
  scope-allowed app e v =
      rw (e, scope_allows, v.in_app e) ((text_eq_iff memory.scope.scope_key _).1 refl)
  scope-allowed project e v =
      rw (e, scope_allows, v.in_project e) ((text_eq_iff memory.scope.scope_key _).1 refl)
  scope-allowed entity e v =
      let (r, i, k) = v.of_entity e in
      rw (e, scope_allows)
        (any-In (λ x. text_mem (EntityReference.entity_id x) request.mentioned_entity_ids)
          memory.entities r i (text_mem-holds r.entity_id request.mentioned_entity_ids k))

  applied-false :
      IsVisible request memory
      → (not (is_empty memory.applicable_app_ids)
          && not (is_some_and request.current_app_id (λ a. text_mem a memory.applicable_app_ids)))
        ≡ false
  applied-false v = elim v.applies [
    | inl e ↦ rw e refl
    | inr (app_id, e, i) ↦
        let f = text_mem-holds app_id memory.applicable_app_ids i in rw (e, f) (ground arith)
  ]

  IsVisible-eligible : IsVisible request memory → eligible request memory ≡ true
  unfolding eligible
  IsVisible-eligible v =
      let a = mode-false request.historical_mode memory.status v.in_force in
      let (n1, n2, n3) = v.not_hidden in
      let b = is_hidden-false memory.status n1 n2 n3 in
      let c =
        allows-true request.sensitivity_allowance memory.sensitivity v.public_only_public
          v.sensitive_allowed in
      let d = scope-allowed memory.scope.scope_type refl v in
      let e = applied-false v in simp (a, b, c, e) d

  -- A memory is eligible exactly if it is the request's to see.
  pub eligible_iff : (eligible request memory ≡ true) ↔ IsVisible request memory
  eligible_iff =
      (λ h. Passes-IsVisible request memory (eligible-Passes request memory h), IsVisible-eligible)

All-retain-map :
    {A B : Type 0} (P : B → Type 0) (f : A → B) (p : A → Bool)
    → ((a : A) → p a ≡ true → P (f a))
    → (xs : List A) → All P (map f (retain p xs))
All-retain-map P f p g [] = tt
All-retain-map P f p g (x ∷ xs) = elim (Bool-cases (p x)) [
  | inl h ↦ rw h (g x h, All-retain-map P f p g xs)
  | inr h ↦ rw h (All-retain-map P f p g xs)
]

-- Every memory of a ranking is the request's to see.
pub rank_memories-IsVisible :
    (fl : Float32) (request : MemoryContextRequest) (candidates : List (RetrievedMemory fl.F))
    → All (λ r. IsVisible request r.memory) (rank_memories fl request candidates)
unfolding rank_memories
rank_memories-IsVisible fl request candidates =
    sort_by-All (rank_order fl) (λ r. IsVisible request r.memory)
      (map (scored fl request) (retain (λ c. eligible request c.memory) candidates))
      (All-retain-map (λ r. IsVisible request (RetrievedMemory.memory r)) (scored fl request)
        (λ c. eligible request (RetrievedMemory.memory c))
        (λ c h. Passes-IsVisible request c.memory (eligible-Passes request c.memory h)) candidates)
