-- ===== src/Accessibility/Normalizer.antt =====
-- crates/stalky-accessibility/src/normalizer.rs: from the tree that the system reports, which may be
-- endless or secret, to the bounded and redacted one that is kept. A node's own fields are a record, and
-- its children, a list of the type itself, are the second type of a mutual block. `F` is `f64`; the
-- Display text of a `usize` is a parameter.
pub mod Sizes
pub mod Bounds
pub mod Secrets
use stalky.Prelude.Words.{saturating_add}
use stalky.Accessibility.{AccessibilityElementId, AccessibilityRect, AccessibilityAction}
use stalky.Prelude.Text.{Text, text, text_eq}
use stalky.Prelude.{
  true, Bool, Option, ℕ, ◌+◌, List, [], false, if◌then◌else◌, ltb, not, some, suc, ◌||◌, leb, none,
  take, ◌==◌, ◌∷◌, any, map, ◌&&◌, retain, zero,
}

abbrev pub max_depth : ℕ
max_depth = 16

abbrev pub max_nodes : ℕ
max_nodes = 512

abbrev pub max_string_chars : ℕ
max_string_chars = 256

abbrev pub max_value_chars : ℕ
max_value_chars = 256

abbrev pub max_children : ℕ
max_children = 128

pub record RawFields (F : Type 0) : Type 0 where
  pub key : ℕ
  pub role : Option Text
  pub subrole : Option Text
  pub title : Option Text
  pub value : Option Text
  pub bounds : Option (AccessibilityRect F)
  pub enabled : Option Bool
  pub focused : Option Bool
  pub secure : Bool
  pub supported_actions : List AccessibilityAction
  pub value_settable : Bool
  pub truncated : Bool

mutual
  pub data RawNode (F : Type 0) : Type 0 where
    raw_node : RawFields F → RawNodes F → RawNode F

  pub data RawNodes (F : Type 0) : Type 0 where
    no_raw : RawNodes F
    more_raw : RawNode F → RawNodes F → RawNodes F

pub record NodeFields (F : Type 0) : Type 0 where
  pub element : Option AccessibilityElementId
  pub role : Option Text
  pub subrole : Option Text
  pub title : Option Text
  pub value : Option Text
  pub bounds : Option (AccessibilityRect F)
  pub enabled : Option Bool
  pub focused : Option Bool
  pub children_count : ℕ
  pub truncated : Bool
  pub supported_actions : List AccessibilityAction
  pub value_settable : Bool

mutual
  pub data AccessibilityNode (F : Type 0) : Type 0 where
    node : NodeFields F → AccessibilityNodes F → AccessibilityNode F

  pub data AccessibilityNodes (F : Type 0) : Type 0 where
    no_nodes : AccessibilityNodes F
    more_nodes : AccessibilityNode F → AccessibilityNodes F → AccessibilityNodes F

pub record NormalizedTree (F : Type 0) : Type 0 where
  pub root : Option (AccessibilityNode F)
  pub nodes : ℕ

-- `char::is_control`.
abbrev pub is_control : ℕ → Bool
is_control c = ltb c 32 || (leb 127 c && ltb c 160)

abbrev pub is_shown : ℕ → Bool
is_shown c = not (is_control c) || (c == 10) || (c == 9)

abbrev pub space_for_newline : ℕ → ℕ
space_for_newline c = if c == 10 then 32 else c

unfoldable pub sanitize : Option Text → ℕ → Option Text
sanitize none limit = none
sanitize (some value) limit = some (take limit (map space_for_newline (retain is_shown value)))

abbrev pub redacted : Text
redacted = text "[redacted]"

abbrev has_role : Option Text → Text → Bool
has_role none t = false
has_role (some role) t = text_eq role t

redact : Option Text → Option Text
redact none = none
redact (some value) = some redacted

pub record NormalizeContext : Type 0 where
  pub generation : ℕ
  pub nodes : ℕ
  pub next_id : ℕ
  pub visited : List ℕ

module _ {F : Type 0} where
  unfoldable pub is_secret : RawFields F → Bool
  is_secret raw = raw.secure || has_role raw.role (text "AXSecureTextField")

  unfoldable pub value_of : RawFields F → Option Text
  unfolding redact
  value_of raw = if is_secret raw then redact raw.value else sanitize raw.value max_value_chars

  abbrev count_raw : RawNodes F → ℕ
  count_raw no_raw = 0
  count_raw (more_raw r rs) = suc (count_raw rs)

  -- The guards of `node`; `HashSet::insert` says whether the key is new.
  abbrev pub is_refused : NormalizeContext → RawFields F → ℕ → Bool
  is_refused c raw depth =
      ltb max_depth depth || leb max_nodes c.nodes || any (λ k. k == raw.key) c.visited

  abbrev pub enter : NormalizeContext → RawFields F → NormalizeContext
  enter c raw = record c {
    nodes = c.nodes + 1;
    next_id = saturating_add c.next_id 1;
    visited = raw.key ∷ c.visited;
  }

  -- The early return; any other node goes on in the context that it has entered.
  abbrev pub unless_refused :
      Bool
      → NormalizeContext
      → NormalizeContext
      → (NormalizeContext → NormalizeContext × Option (AccessibilityNode F))
      → NormalizeContext × Option (AccessibilityNode F)
  unless_refused true c entered visit = (c, none)
  unless_refused false c entered visit = visit entered

  -- A refused child ends the loop; after any other, `others` goes on with the rest.
  abbrev pub after_child :
      (NormalizeContext → NormalizeContext × AccessibilityNodes F × Bool)
      → NormalizeContext × Option (AccessibilityNode F)
      → NormalizeContext × AccessibilityNodes F × Bool
  after_child others (after, none) = (after, no_nodes, true)
  after_child others (after, some n) =
      let (last, ns, is_cut) = others after in (last, more_nodes n ns, is_cut)

  module _ (display_usize : ℕ → Text) where
    -- The node, of which the children have been made; `is_cut` if one of them was refused.
    unfoldable pub finish_node : NormalizeContext → RawFields F → RawNodes F → Bool → NodeFields F
    unfolding value_of
    finish_node c raw children is_cut = record {
      element = some (record { id = 101 ∷ display_usize c.next_id; generation = c.generation });
      role = sanitize raw.role max_string_chars;
      subrole = sanitize raw.subrole max_string_chars;
      title = sanitize raw.title max_string_chars;
      value = value_of raw;
      bounds = raw.bounds;
      enabled = raw.enabled;
      focused = raw.focused;
      children_count = count_raw children;
      truncated = raw.truncated || is_cut || ltb max_children (count_raw children);
      supported_actions = raw.supported_actions;
      value_settable = raw.value_settable;
    }

    unfoldable mutual
      pub node_from :
          NormalizeContext → RawNode F → ℕ → NormalizeContext × Option (AccessibilityNode F)
      node_from c (raw_node raw children) depth =
          unless_refused (is_refused c raw depth) c (enter c raw) λ entered.
            let (after, made, is_cut) = children_from entered children (depth + 1) max_children in
            (after, some (node (finish_node c raw children is_cut) made))

      -- The loop over the children that may still be taken; true if it is left at a refused one.
      pub children_from :
          NormalizeContext → RawNodes F → ℕ → ℕ → NormalizeContext × AccessibilityNodes F × Bool
      children_from c no_raw depth left = (c, no_nodes, false)
      children_from c (more_raw child children) depth zero = (c, no_nodes, false)
      children_from c (more_raw child children) depth (suc left) =
          after_child (λ after. children_from after children depth left) (node_from c child depth)

    unfoldable pub normalize_tree : RawNode F → ℕ → NormalizedTree F
    normalize_tree raw generation =
        let start : NormalizeContext = record {
          generation = generation;
          nodes = 0;
          next_id = 0;
          visited = [];
        } in
        let (after, root) = node_from start raw 0 in record { root = root; nodes = after.nodes }
