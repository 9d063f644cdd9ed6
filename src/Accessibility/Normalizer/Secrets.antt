-- ===== src/Accessibility/Normalizer/Secrets.antt =====
-- What a normalized tree (crates/stalky-accessibility/src/normalizer.rs) tells of secret fields.
use stalky.Prelude.Text.{Text}
use stalky.Prelude.{
  [], ℕ, Option, some, none, ◌≡◌, refl, ap, Bool, if◌then◌else◌, suc, zero, ◌+◌, ◌||◌, ltb, arith,
}
use stalky.Accessibility.Normalizer.{
  NormalizeContext, RawFields, RawNode, raw_node, RawNodes, no_raw, more_raw, node_from,
  children_from, max_children, is_secret, value_of, finish_node, count_raw, unless_refused, enter,
  is_refused, after_child, normalize_tree, node,
}

-- A present value, replaced.
abbrev replaced : Text → Option Text → Option Text
replaced t none = none
replaced t (some value) = some t

module _ {F : Type 0} (t : Text) where
  -- A node with another value, if it is secret.
  abbrev pub masked : RawFields F → RawFields F
  masked raw = record raw { value = if is_secret raw then replaced t raw.value else raw.value }

  unfoldable mutual
    pub mask : RawNode F → RawNode F
    mask (raw_node raw children) = raw_node (masked raw) (mask_all children)

    pub mask_all : RawNodes F → RawNodes F
    mask_all no_raw = no_raw
    mask_all (more_raw child children) = more_raw (mask child) (mask_all children)

  value_of-masked : (raw : RawFields F) → value_of (masked raw) ≡ value_of raw
  unfolding value_of is_secret
  value_of-masked raw = ground arith

  count_raw-mask_all : (raw : RawNodes F) → count_raw (mask_all raw) ≡ count_raw raw
  unfolding mask_all
  count_raw-mask_all no_raw = refl
  count_raw-mask_all (more_raw child children) = ap suc (count_raw-mask_all children)

  module _ (display_usize : ℕ → Text) where
    finish_node-masked :
        (c : NormalizeContext) (raw : RawFields F) (children : RawNodes F) (is_cut : Bool)
        → finish_node display_usize c (masked raw) (mask_all children) is_cut
          ≡ finish_node display_usize c raw children is_cut
    unfolding finish_node
    finish_node-masked c raw children is_cut =
        let n = count_raw-mask_all children in
        λ i. record (finish_node display_usize c raw children is_cut) {
          value = value_of-masked raw i;
          children_count = n i;
          truncated = raw.truncated || is_cut || ltb max_children (n i);
        }

    mutual
      unfolding node_from children_from mask mask_all

      node_from-mask :
          (raw : RawNode F) (c : NormalizeContext) (depth : ℕ)
          → node_from display_usize c (mask raw) depth ≡ node_from display_usize c raw depth
      node_from-mask (raw_node raw children) c depth = λ i.
          unless_refused (is_refused c raw depth) c (enter c raw) λ entered.
            let (after, made, is_cut) =
              children_from-mask children entered (depth + 1) max_children i in
            (after, some (node (finish_node-masked c raw children is_cut i) made))

      children_from-mask :
          (raw : RawNodes F) (c : NormalizeContext) (depth left : ℕ)
          → children_from display_usize c (mask_all raw) depth left
            ≡ children_from display_usize c raw depth left
      children_from-mask no_raw c depth left = refl
      children_from-mask (more_raw child children) c depth zero = refl
      children_from-mask (more_raw child children) c depth (suc left) = λ i.
          after_child (λ after. children_from-mask children after depth left i)
            (node_from-mask child c depth i)

-- The normalized tree does not depend on the values of secret nodes, those marked as secure or with
-- the role of a secure text field: with any other text in place of each it is the same tree.
pub normalize_tree-mask :
    {F : Type 0} (display_usize : ℕ → Text) (t : Text) (raw : RawNode F) (generation : ℕ)
    → normalize_tree display_usize (mask t raw) generation
      ≡ normalize_tree display_usize raw generation
unfolding normalize_tree
normalize_tree-mask display_usize t raw generation =
    let start : NormalizeContext = record {
      generation = generation;
      nodes = 0;
      next_id = 0;
      visited = [];
    } in
    let e = node_from-mask t display_usize raw start 0 in
    λ i. record { root = (e i).1; nodes = (e i).0.nodes }
