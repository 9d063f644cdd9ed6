-- ===== src/Profile.antt =====
-- crates/mega-memory/src/profile.rs: the profile of the active memories that belong to a projection.
-- `F` is `f32`.
pub mod Members
pub mod Parts
mod Tests
use stalky.Prelude.Int.{ℤ}
use stalky.Prelude.Orders.{cmp_text, sort_by, then_with}
use stalky.Prelude.Comparisons.{cmp_ℤ}
use stalky.Prelude.Text.{Text, text_eq, text_mem}
use stalky.Prelude.{
  Bool, List, any, false, if◌then◌else◌, leb, length, retain, same, take, true, ℕ, ◌&&◌, ◌++◌, ◌==◌,
  ◌∷◌, ◌||◌, [], drop,
}
use stalky.Privacy.{starts_with}
use Prim.Native.Nat.{Ordering}
use stalky.Model.Floats.{Float32}
use stalky.Model.{
  EntityReference, Memory, MemoryStatus, MemoryStatus-discrete, MemoryType, ScopeType, active, app,
  decision, entity, episode, fact, global, preference, procedure, project, task,
}
use stalky.Retrieval.{total_cmp}

pub data ProfileProjectionType : Type 0 where
  for_global for_app for_project for_category for_entity : ProfileProjectionType

pub record ProfileItem : Type 0 where
  pub memory_id : Text
  pub content : Text
  pub updated_at_ms : ℤ

pub record ProfileProjection : Type 0 where
  pub projection_type : ProfileProjectionType
  pub projection_key : Text
  pub stable : List ProfileItem
  pub current : List ProfileItem
  pub source_revision : ℕ
  pub generated_at_ms : ℤ

abbrev pub is_scope : ScopeType → ScopeType → Bool
is_scope global global = true
is_scope app app = true
is_scope project project = true
is_scope entity entity = true
is_scope _ _ = false

-- The arms of the `match` on a memory's type.
abbrev pub is_stable : MemoryType → Bool
is_stable preference = true
is_stable fact = true
is_stable procedure = true
is_stable decision = false
is_stable episode = false
is_stable task = false

-- A slug and its descendants: `strip_prefix` leaves a text that starts with a dot.
unfoldable pub is_within : Text → Text → Bool
unfolding starts_with
is_within key slug =
    text_eq slug key || (starts_with slug key && starts_with (drop (length key) slug) (46 ∷ []))

module _ {F : Type 0} where
  abbrev is_of_scope : ScopeType → Text → Memory F → Bool
  is_of_scope t key m = is_scope m.scope.scope_type t && text_eq m.scope.scope_key key

  unfoldable pub belongs_to_projection : ProfileProjectionType → Text → Memory F → Bool
  belongs_to_projection for_global key m = is_scope m.scope.scope_type global
  belongs_to_projection for_app key m =
      any (λ id. text_eq id key) m.applicable_app_ids || is_of_scope app key m
  belongs_to_projection for_project key m = is_of_scope project key m
  belongs_to_projection for_category key m = any (is_within key) m.category_slugs
  belongs_to_projection for_entity key m =
      any (λ (e : EntityReference). text_eq e.entity_id key) m.entities

  abbrev pub is_included : ProfileProjectionType → Text → Memory F → Bool
  is_included t key m = same MemoryStatus-discrete m.status active && belongs_to_projection t key m

  abbrev pub item_of : Memory F → ProfileItem
  item_of m = record {
    memory_id = m.id;
    content = m.display_content;
    updated_at_ms = m.updated_at_ms;
  }

  -- The loop over what is included, with the items pushed so far.
  unfoldable pub push_items :
      List ProfileItem → List ProfileItem → List (Memory F) → List ProfileItem × List ProfileItem
  push_items stable current [] = (stable, current)
  push_items stable current (m ∷ ms) = elim (is_stable m.memory_type) [
    | true ↦ push_items (stable ++ item_of m ∷ []) current ms
    | false ↦ push_items stable (current ++ item_of m ∷ []) ms
  ]

  -- Three memories at the least; `take(3)` only ends the count.
  unfoldable pub entity_profile_is_eligible : Text → List (Memory F) → Bool
  entity_profile_is_eligible entity_id memories = leb 3 (
      length (
        take 3 (
          retain (λ m. any (λ (e : EntityReference). text_eq e.entity_id entity_id) m.entities)
            (retain (λ m. same MemoryStatus-discrete m.status active) memories))))

module _ (fl : Float32) where
  open fl use {F}

  unfoldable pub profile_order : Memory F → Memory F → Ordering
  profile_order left right = then_with (total_cmp fl right.importance left.importance) (
      then_with (total_cmp fl right.confidence left.confidence)
        (then_with (cmp_ℤ right.updated_at_ms left.updated_at_ms) (cmp_text left.id right.id)))

  unfoldable pub build_profile :
      ProfileProjectionType → Text → List (Memory F) → ℕ → ℤ → ProfileProjection
  build_profile t key memories source_revision generated_at_ms =
      let (stable, current) =
        push_items [] [] (sort_by profile_order (retain (is_included t key) memories)) in
      record {
        projection_type = t;
        projection_key = key;
        stable = stable;
        current = current;
        source_revision = source_revision;
        generated_at_ms = generated_at_ms;
      }
