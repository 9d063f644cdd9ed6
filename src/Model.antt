-- ===== src/Model.antt =====
-- crates/mega-memory/src/model.rs: the vocabulary of the memory crate. Ids are texts; `F` is `f32`.
pub mod Floats
pub mod Hundredths
use stalky.Prelude.Int.{ℤ}
use stalky.Prelude.Text.{Text, text}
use stalky.Prelude.{ℕ, Bool, true, false, ◌&&◌, ◌||◌, Option, List, ◌++◌}

pub data MemoryType : Type 0 where
  preference fact decision episode task procedure : MemoryType

pub MemoryType-discrete : Discrete MemoryType
MemoryType-discrete = hlevel

unfoldable pub freshness_sensitive : MemoryType → Bool
freshness_sensitive episode = true
freshness_sensitive task = true
freshness_sensitive _ = false

pub data AssertionMode : Type 0 where
  explicit observed inferred imported manual : AssertionMode

-- 1.0, 0.9, 0.75 and 0.95, in hundredths.
unfoldable pub ceiling_hundredths : AssertionMode → ℕ
ceiling_hundredths explicit = 100
ceiling_hundredths manual = 100
ceiling_hundredths observed = 90
ceiling_hundredths inferred = 75
ceiling_hundredths imported = 95

unfoldable pub trust_rank : AssertionMode → ℕ
trust_rank manual = 5
trust_rank explicit = 4
trust_rank imported = 3
trust_rank observed = 2
trust_rank inferred = 1

pub data MemoryStatus : Type 0 where
  active superseded expired forgotten pending_review rejected : MemoryStatus

unfoldable pub MemoryStatus-discrete : Discrete MemoryStatus
MemoryStatus-discrete = hlevel

pub data Sensitivity : Type 0 where
  public private sensitive : Sensitivity

pub data ScopeType : Type 0 where
  global app project entity : ScopeType

pub record MemoryScope : Type 0 where
  pub id : Text
  pub scope_type : ScopeType
  pub scope_key : Text
  pub display_name : Text

unfoldable pub label : MemoryScope → Text
label s = elim s.scope_type [
  | global ↦ text "global"
  | app ↦ text "app:" ++ s.scope_key
  | project ↦ text "project:" ++ s.scope_key
  | entity ↦ text "entity:" ++ s.scope_key
]

pub data EntityType : Type 0 where
  person organization project place product : EntityType

pub data EntityRole : Type 0 where
  subject object participant mentioned scope : EntityRole

pub record EntityReference : Type 0 where
  pub entity_id : Text
  pub canonical_name : Text
  pub role : EntityRole

pub record Memory (F : Type 0) : Type 0 where
  pub id : Text
  pub normalized_content : Text
  pub display_content : Text
  pub memory_type : MemoryType
  pub assertion_mode : AssertionMode
  pub status : MemoryStatus
  pub scope : MemoryScope
  pub source_app_ids : List Text
  pub applicable_app_ids : List Text
  pub category_slugs : List Text
  pub entities : List EntityReference
  pub source_event_ids : List Text
  pub importance : F
  pub confidence : F
  pub sensitivity : Sensitivity
  pub valid_from_ms : Option ℤ
  pub valid_until_ms : Option ℤ
  pub created_at_ms : ℤ
  pub updated_at_ms : ℤ
  pub revision : ℕ

pub data HistoricalMode : Type 0 where
  active_only include_history : HistoricalMode

pub data SensitivityAllowance : Type 0 where
  public_only include_private include_sensitive : SensitivityAllowance

is_public : Sensitivity → Bool
is_public public = true
is_public _ = false

is_private : Sensitivity → Bool
is_private private = true
is_private _ = false

is_sensitive_allowance : SensitivityAllowance → Bool
is_sensitive_allowance include_sensitive = true
is_sensitive_allowance _ = false

is_private_allowance : SensitivityAllowance → Bool
is_private_allowance include_private = true
is_private_allowance include_sensitive = true
is_private_allowance _ = false

unfoldable pub allows : SensitivityAllowance → Sensitivity → Bool
unfolding is_public is_private is_sensitive_allowance is_private_allowance
allows a s = is_public s || (is_private_allowance a && is_private s) || is_sensitive_allowance a
