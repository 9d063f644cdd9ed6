-- ===== src/Accessibility/Normalizer/Bounds.antt =====
-- The trees that `normalize_tree` makes (crates/stalky-accessibility/src/normalizer.rs) are bounded,
-- and their tokens are distinct numbers.
use stalky.Prelude.Text.{Text}
use stalky.Prelude.{
  refl, [], false, ap, ◌∙◌, Bool, true, ℕ, Option, some, none, ◌≡◌, ◌≤◌, ◌+◌, List, suc, zero,
  arith,
}
use stalky.Accessibility.{AccessibilityElementId}
use stalky.Accessibility.Normalizer.{
  NormalizeContext, RawNode, raw_node, RawNodes, no_raw, more_raw, node_from, children_from,
  max_children, enter, unless_refused, finish_node, node, RawFields, AccessibilityNode,
  AccessibilityNodes, after_child, is_refused, normalize_tree, NormalizedTree,
}
use stalky.Accessibility.Normalizer.Sizes.{
  IsMade, IsReady, root_size, root_levels, root_elements, sizes, levels_below, elements_below,
  nothing-IsMade, both-IsMade, enter-IsReady, finish-IsMade, numbered,
}

made-IsReady :
    (display_usize : ℕ → Text) (c after : NormalizeContext) (depth n h : ℕ)
    (xs : List (Option AccessibilityElementId))
    → IsMade display_usize c depth after n h xs
    → IsReady display_usize after depth
made-IsReady d c after depth n h xs m = record {
  ids = m.ids_follow;
  room = m.few;
  height = omega (arith, m.shallow);
}

module _ {F : Type 0} (display_usize : ℕ → Text) where
  -- What a call of `node_from` and one of `children_from` return.
  abbrev IsNode : NormalizeContext → ℕ → NormalizeContext × Option (AccessibilityNode F) → Type 0
  IsNode c depth p =
      IsMade display_usize c depth p.0 (root_size p.1) (root_levels p.1) (root_elements p.1)

  abbrev AreNodes : NormalizeContext → ℕ → NormalizeContext × AccessibilityNodes F × Bool → Type 0
  AreNodes c depth p =
      IsMade display_usize c depth p.0 (sizes p.1) (levels_below p.1) (elements_below p.1)

  -- The children after one that gave `p`.
  more-AreNodes :
      (c : NormalizeContext) (depth : ℕ)
      (others : NormalizeContext → NormalizeContext × AccessibilityNodes F × Bool)
      (p : NormalizeContext × Option (AccessibilityNode F))
      → IsNode c depth p
      → ((after : NormalizeContext)
          → IsReady display_usize after depth
          → AreNodes after depth (others after))
      → AreNodes c depth (after_child others p)
  unfolding sizes levels_below elements_below
  more-AreNodes c depth others (after, none) m rest = m
  more-AreNodes c depth others (after, some n) m rest =
      both-IsMade display_usize c after (others after).0 depth _ _ _ _ _ _ m
        (rest after (made-IsReady display_usize c after depth _ _ _ m))

  unless-IsNode :
      (c : NormalizeContext) (raw : RawFields F) (children : RawNodes F) (depth : ℕ) (b : Bool)
      → is_refused c raw depth ≡ b
      → IsReady display_usize c depth
      → (IsReady display_usize (enter c raw) (depth + 1)
          → AreNodes
              (enter c raw)
              (depth + 1)
              (children_from display_usize (enter c raw) children (depth + 1) max_children))
      → IsNode c depth (
          unless_refused b c (enter c raw) λ entered.
            let (after, made, is_cut) =
              children_from display_usize entered children (depth + 1) max_children in
            (after, some (node (finish_node display_usize c raw children is_cut) made)))
  unless-IsNode c raw children depth true h r made = nothing-IsMade display_usize c depth r
  unless-IsNode c raw children depth false h r made =
      finish-IsMade display_usize c _ raw children _ depth _ r
        (made (enter-IsReady display_usize c raw depth r h))

  mutual
    unfolding node_from children_from sizes levels_below elements_below

    node_from-IsNode :
        (c : NormalizeContext) (raw : RawNode F) (depth : ℕ)
        → IsReady display_usize c depth
        → IsNode c depth (node_from display_usize c raw depth)
    node_from-IsNode c (raw_node raw children) depth r =
        unless-IsNode c raw children depth (is_refused c raw depth) refl r
          (children_from-AreNodes (enter c raw) children (depth + 1) max_children)

    children_from-AreNodes :
        (c : NormalizeContext) (raw : RawNodes F) (depth left : ℕ)
        → IsReady display_usize c depth
        → AreNodes c depth (children_from display_usize c raw depth left)
    children_from-AreNodes c no_raw depth left r = nothing-IsMade display_usize c depth r
    children_from-AreNodes c (more_raw child children) depth zero r =
        nothing-IsMade display_usize c depth r
    children_from-AreNodes c (more_raw child children) depth (suc left) r =
        more-AreNodes c depth (λ after. children_from display_usize after children depth left)
          (node_from display_usize c child depth) (node_from-IsNode c child depth r)
          (λ after. children_from-AreNodes after children depth left)

-- A made tree and its number of nodes.
pub record IsBounded {F : Type 0} (display_usize : ℕ → Text) (generation : ℕ) (t : NormalizedTree F)
    : Type 0 where
  pub nodes_counted : t.nodes ≡ root_size t.root
  pub few_nodes : root_size t.root ≤ 512
  pub few_levels : root_levels t.root ≤ 17
  pub tokens_numbered : root_elements t.root ≡ numbered display_usize generation 0 t.nodes

-- A normalized tree has as many nodes as it says, at most 512 on at most seventeen levels, however
-- large, deep or cyclic the given one is; and its elements, from the root on, each before its
-- children, have the tokens `e0`, `e1` and so on, all with the tree's generation.
pub normalize_tree-IsBounded :
    {F : Type 0} (display_usize : ℕ → Text) (raw : RawNode F) (generation : ℕ)
    → IsBounded display_usize generation (normalize_tree display_usize raw generation)
unfolding normalize_tree
normalize_tree-IsBounded display_usize raw generation =
    let start : NormalizeContext = record {
      generation = generation;
      nodes = 0;
      next_id = 0;
      visited = [];
    } in
    let m =
      node_from-IsNode display_usize start raw 0
        (record { ids = refl; room = omega arith; height = omega arith }) in
    record {
      nodes_counted = omega (arith, m.counted);
      few_nodes = omega (arith, m.few, m.counted);
      few_levels = omega (arith, m.shallow);
      tokens_numbered =
          m.next_tokens ∙ ap (numbered display_usize generation 0) (omega (arith, m.counted));
    }
