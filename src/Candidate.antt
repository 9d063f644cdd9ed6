-- ===== src/Candidate.antt =====
-- crates/mega-memory/src/extraction.rs: what the extractor may hand over, and its validation.
use stalky.Prelude.Int.{ℤ}
use stalky.Prelude.{List, Option, Bool}
use stalky.Prelude.Text.{Text}
use stalky.Model.{MemoryType, AssertionMode, ScopeType, EntityType, EntityRole, Sensitivity}

pub record CandidateScope : Type 0 where
  pub scope_type : ScopeType
  pub scope_key : Text
  pub display_name : Text

pub record CandidateEntity (F : Type 0) : Type 0 where
  pub entity_type : EntityType
  pub mention : Text
  pub role : EntityRole
  pub confidence : F

pub record MemoryCandidate (F : Type 0) : Type 0 where
  pub content : Text
  pub memory_type : MemoryType
  pub assertion_mode : AssertionMode
  pub category_slugs : List Text
  pub scope : CandidateScope
  pub source_app_ids : List Text
  pub applicable_app_ids : List Text
  pub entity_mentions : List (CandidateEntity F)
  pub importance : F
  pub confidence : F
  pub valid_from_ms : Option ℤ
  pub valid_until_ms : Option ℤ
  pub supporting_source_event_ids : List Text
  pub sensitivity : Sensitivity
  pub from_password_field : Bool
