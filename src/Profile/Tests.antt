-- ===== src/Profile/Tests.antt =====
-- The profile of a category, with numbers in hundredths.
use stalky.Prelude.Int.{pos}
use stalky.Prelude.Text.{Text, text}
use stalky.Prelude.{List, none, retain, true, ℕ, ◌∷◌, ◌≡◌, ◌↔◌, []}
use mathlib.Core.List.{Perm}
use stalky.Prelude.Orders.{IsOrdered}
use stalky.Model.{Memory, MemoryType, active, explicit, global, preference, private, task}
use stalky.Model.Hundredths.{hundredths_f32}
use stalky.Profile.{build_profile, for_category, is_included, is_stable}
use stalky.Profile.Members.{BelongsTo, IsLasting}
use stalky.Profile.Parts.{IsProfile, ProfiledBefore, build_profile-IsProfile}

abbrev memory_of : Text → MemoryType → Text → Memory ℕ
memory_of id memory_type slug = record {
  id = id;
  normalized_content = id;
  display_content = id;
  memory_type = memory_type;
  assertion_mode = explicit;
  status = active;
  scope = record {
    id = text "global";
    scope_type = global;
    scope_key = text "global";
    display_name = text "Global";
  };
  source_app_ids = [];
  applicable_app_ids = [];
  category_slugs = slug ∷ [];
  entities = [];
  source_event_ids = [];
  importance = 50;
  confidence = 100;
  sensitivity = private;
  valid_from_ms = none;
  valid_until_ms = none;
  created_at_ms = pos 0;
  updated_at_ms = pos 1;
  revision = 1;
}

abbrev memories : List (Memory ℕ)
memories =
    memory_of (text "preference") preference (text "choices.design.typography")
    ∷ memory_of (text "task") task (text "choices.design")
    ∷ memory_of (text "food") preference (text "choices.food")
    ∷ []

abbrev design : Text
design = text "choices.design"

build_profile-IsProfile_example :
    (ms : List (Memory ℕ)) × Perm ms (retain (is_included for_category design) memories)
    × ((m : Memory ℕ)
        → (is_included for_category design m ≡ true)
          ↔ ((m.status ≡ active) × BelongsTo for_category design m))
    × IsOrdered (ProfiledBefore hundredths_f32) ms
    × IsProfile hundredths_f32
        (build_profile hundredths_f32 for_category design memories 4 (pos 10))
        ms
    × ((u : MemoryType) → (is_stable u ≡ true) ↔ IsLasting u)
build_profile-IsProfile_example =
    build_profile-IsProfile hundredths_f32 for_category design memories 4 (pos 10)
