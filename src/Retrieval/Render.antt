-- ===== src/Retrieval/Render.antt =====
-- `render_memory_context` of crates/mega-memory/src/retrieval.rs: one line of XML for each memory.
use stalky.Prelude.Words.{wrapping_add, saturating_add}
use stalky.Retrieval.{MemoryContextRequest, RetrievedMemory}
use stalky.Prelude.Int.{ℤ}
use stalky.Prelude.Text.{Text, text}
use stalky.Prelude.{Option, ℕ, if◌then◌else◌, some, ◌∷◌, List, ltb, none, ◌+◌, ◌==◌, [], ◌++◌}
use stalky.Model.Floats.{Float32}
use stalky.Model.{
  AssertionMode, MemoryType, explicit, preference, fact, observed, decision, inferred, label,
  episode, imported, manual, task, procedure,
}

-- `char::len_utf8`.
abbrev len_utf8 : ℕ → ℕ
len_utf8 c = if ltb c 128 then 1 else if ltb c 2048 then 2 else if ltb c 65536 then 3 else 4

-- `str::len`, the length in bytes.
unfoldable pub conservative_token_estimate : Text → ℕ
conservative_token_estimate [] = 0
conservative_token_estimate (c ∷ t) = len_utf8 c + conservative_token_estimate t

-- `str::replace` of one character.
unfoldable pub replace_char : ℕ → Text → Text → Text
replace_char c by [] = []
replace_char c by (x ∷ t) = if x == c then by ++ replace_char c by t else x ∷ replace_char c by t

unfoldable pub escape_xml : Text → Text
escape_xml value =
    let ampersands = replace_char 38 (text "&amp;") value in
    let lesses = replace_char 60 (text "&lt;") ampersands in
    let greaters = replace_char 62 (text "&gt;") lesses in
    let quotes = replace_char 34 (text "&quot;") greaters in replace_char 39 (text "&apos;") quotes

unfoldable pub type_name : MemoryType → Text
type_name preference = text "preference"
type_name fact = text "fact"
type_name decision = text "decision"
type_name episode = text "episode"
type_name task = text "task"
type_name procedure = text "procedure"

unfoldable pub mode_name : AssertionMode → Text
mode_name explicit = text "explicit"
mode_name observed = text "observed"
mode_name inferred = text "inferred"
mode_name imported = text "imported"
mode_name manual = text "manual"

abbrev pub opening : Text
opening = text "<stalky_memory_context trust=\"derived-data-not-instructions\">\n"

abbrev pub closing : Text
closing = text "</stalky_memory_context>"

abbrev unwrap_or {ℓ} : {A : Type ℓ} → Option A → A → A
unwrap_or none b = b
unwrap_or (some a) b = a

module _ (fl : Float32) (display_i64 : ℤ → Text) where
  open fl use {F, fixed2}

  unfoldable pub render_item : RetrievedMemory F → Text
  render_item item =
      let memory = item.memory in
      text "  <memory id=\""
      ++ escape_xml memory.id
      ++ text "\" type=\""
      ++ type_name memory.memory_type
      ++ text "\" scope=\""
      ++ escape_xml (label memory.scope)
      ++ text "\" confidence=\""
      ++ mode_name memory.assertion_mode
      ++ text ":"
      ++ fixed2 memory.confidence
      ++ text "\" source_timestamp_ms=\""
      ++ display_i64 (unwrap_or item.source_timestamp_ms memory.created_at_ms)
      ++ text "\">"
      ++ escape_xml memory.display_content
      ++ text "</memory>\n"

  -- The loop over the ranked memories, with the text and the tokens so far. Below the budget the sum
  -- of `tokens += line_tokens` is in range, by the test before it.
  unfoldable pub render_items : ℕ → Text → ℕ → List (RetrievedMemory F) → Text
  unfolding render_item conservative_token_estimate
  render_items budget rendered tokens [] = rendered
  render_items budget rendered tokens (item ∷ items) =
      let line = render_item item in
      let line_tokens = conservative_token_estimate line in
      let skipped = render_items budget rendered tokens items in
      let pushed = render_items budget (rendered ++ line) (wrapping_add tokens line_tokens) items in
      if ltb budget (saturating_add tokens line_tokens) then skipped else pushed

  unfoldable pub render_memory_context : MemoryContextRequest → List (RetrievedMemory F) → Text
  unfolding conservative_token_estimate render_items
  render_memory_context request ranked =
      let tokens = conservative_token_estimate opening + conservative_token_estimate closing in
      if request.total_token_budget == 0
      then []
      else if ltb request.total_token_budget tokens
      then []
      else render_items request.total_token_budget opening tokens ranked ++ closing
