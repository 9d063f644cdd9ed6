-- ===== src/Retrieval/Tests.antt =====
-- Runs of the retrieval on a few memories, as in the tests of crates/mega-memory/src/retrieval.rs.
use stalky.Retrieval.Ranking.{RanksBefore, rank_memories-IsRanked}
use stalky.Retrieval.Scopes.{IsVisible}
use stalky.Prelude.Orders.{IsOrdered}
use stalky.Model.Hundredths.{hundredths_f32}
use stalky.Retrieval.Render.{escape_xml, replace_char}
use stalky.Retrieval.Escape.{unescape, is_markup, unescape-escape_xml}
use stalky.Retrieval.{
  MemoryContextRequest, rank_memories, RetrievedMemory, default_request, scored, eligible,
  rank_order,
}
use stalky.Prelude.Text.{Text, text}
use stalky.Prelude.Int.{ℤ, pos}
use stalky.Prelude.{◌↔◌, true, All, List, ℕ, false, map, ◌∷◌, ◌≡◌, [], refl, some, retain, none}
use stalky.Model.{MemoryScope, Memory, app, global, preference, explicit, active, private}
use mathlib.Core.List.{Perm}
use stalky.Prelude.Orders.{sort_by, insert_by, cmp_text}
use stalky.Prelude.Text.{text_mem, text_eq}
use stalky.Model.{allows, freshness_sensitive, trust_rank}
use stalky.Retrieval.{scope_allows, score, blended, unit, scope_match, bonus, mentions}

abbrev global_scope : MemoryScope
global_scope = record {
  id = text "g";
  scope_type = global;
  scope_key = text "g";
  display_name = [];
}

abbrev slack_scope : MemoryScope
slack_scope = record {
  id = text "s";
  scope_type = app;
  scope_key = text "slack";
  display_name = [];
}

abbrev memory_of : Text → MemoryScope → Text → Memory ℕ
memory_of name scope content = record {
  id = name;
  normalized_content = content;
  display_content = content;
  memory_type = preference;
  assertion_mode = explicit;
  status = active;
  scope = scope;
  source_app_ids = [];
  applicable_app_ids = [];
  category_slugs = [];
  entities = [];
  source_event_ids = [];
  importance = 50;
  confidence = 100;
  sensitivity = private;
  valid_from_ms = none;
  valid_until_ms = none;
  created_at_ms = pos 10;
  updated_at_ms = pos 10;
  revision = 1;
}

abbrev retrieved : Text → MemoryScope → Text → ℕ → RetrievedMemory ℕ
retrieved name scope content similarity = record {
  memory = memory_of name scope content;
  signals = record {
    semantic_similarity = similarity;
    fts_relevance = 0;
    freshness = 0;
    exact_entity_alias_match = false;
  };
  score = 0;
  source_timestamp_ms = some (pos 9);
}

abbrev candidates : List (RetrievedMemory ℕ)
candidates =
    retrieved (text "a") global_scope (text "<b>") 10
    ∷ retrieved (text "s") slack_scope (text "Slack") 90
    ∷ retrieved (text "b") global_scope (text "Tea") 80
    ∷ []

abbrev names_of : List (RetrievedMemory ℕ) → List Text
names_of [] = []
names_of (r ∷ rs) = r.memory.id ∷ names_of rs

-- The memory of another app is left out, and the more similar one comes first.
ranked_names :
    names_of (rank_memories hundredths_f32 default_request candidates) ≡ text "b" ∷ text "a" ∷ []
unfolding rank_memories sort_by insert_by eligible allows scope_allows rank_order score blended unit
    scope_match bonus freshness_sensitive trust_rank mentions cmp_text text_mem text_eq
ranked_names = refl

escaped_tag : escape_xml (text "<b>") ≡ text "&lt;b&gt;"
unfolding escape_xml replace_char
escaped_tag = refl

abbrev no_number : ℤ → Text
no_number n = text "0"

abbrev small_request : MemoryContextRequest
small_request = record default_request { total_token_budget = 230 }

rank_memories-IsRanked_example :
    Perm (rank_memories hundredths_f32 default_request candidates) (
      map
        (scored hundredths_f32 default_request)
        (retain (λ c. eligible default_request c.memory) candidates))
    × ((m : Memory ℕ) → (eligible default_request m ≡ true) ↔ IsVisible default_request m)
    × IsOrdered
        (RanksBefore hundredths_f32)
        (rank_memories hundredths_f32 default_request candidates)
rank_memories-IsRanked_example = rank_memories-IsRanked hundredths_f32 default_request candidates

unescape-escape_xml_example :
    (unescape (escape_xml (text "<b> & 'c'")) ≡ text "<b> & 'c'")
    × All (λ x. is_markup x ≡ false) (escape_xml (text "<b> & 'c'"))
unescape-escape_xml_example = unescape-escape_xml (text "<b> & 'c'")
