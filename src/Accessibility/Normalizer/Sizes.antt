-- ===== src/Accessibility/Normalizer/Sizes.antt =====
-- The bounds of the tree that `normalize_tree` makes, and the tokens of its nodes
-- (crates/stalky-accessibility/src/normalizer.rs).
use stalky.Accessibility.{AccessibilityElementId}
use stalky.Prelude.Text.{Text}
use stalky.Prelude.{
  Option, ℕ, List, some, none, suc, ◌+◌, [], max, ◌∷◌, ◌≡◌, arith, zero, ◌++◌, ◌≤◌, Bool, false,
  refl, ◌∙◌, ap₂, ap, sym,
}
use stalky.Accessibility.Normalizer.{
  AccessibilityNode, node, NormalizeContext, finish_node, AccessibilityNodes, RawFields, RawNodes,
  is_refused, more_nodes, max_nodes, enter, max_depth,
}
use stalky.Accessibility.Normalizer.{no_nodes, more_nodes, node}

module _ {F : Type 0} where
  -- How many nodes there are, on how many levels, and their tokens, a node before its children.
  unfoldable mutual
    pub size : AccessibilityNode F → ℕ
    size (node f ns) = suc (sizes ns)

    pub sizes : AccessibilityNodes F → ℕ
    sizes no_nodes = 0
    sizes (more_nodes n ns) = size n + sizes ns

  unfoldable mutual
    pub levels : AccessibilityNode F → ℕ
    levels (node f ns) = suc (levels_below ns)

    pub levels_below : AccessibilityNodes F → ℕ
    levels_below no_nodes = 0
    levels_below (more_nodes n ns) = max (levels n) (levels_below ns)

  unfoldable mutual
    pub elements : AccessibilityNode F → List (Option AccessibilityElementId)
    elements (node f ns) = f.element ∷ elements_below ns

    pub elements_below : AccessibilityNodes F → List (Option AccessibilityElementId)
    elements_below no_nodes = []
    elements_below (more_nodes n ns) = elements n ++ elements_below ns

  abbrev pub root_size : Option (AccessibilityNode F) → ℕ
  root_size none = 0
  root_size (some n) = size n

  abbrev pub root_levels : Option (AccessibilityNode F) → ℕ
  root_levels none = 0
  root_levels (some n) = levels n

  abbrev pub root_elements : Option (AccessibilityNode F) → List (Option AccessibilityElementId)
  root_elements none = []
  root_elements (some n) = elements n

module _ (display_usize : ℕ → Text) where
  abbrev pub token : ℕ → ℕ → Option AccessibilityElementId
  token generation a = some (record { id = 101 ∷ display_usize a; generation = generation })

  -- The tokens `e` and a number, for the numbers from `a` on.
  unfoldable pub numbered : ℕ → ℕ → ℕ → List (Option AccessibilityElementId)
  numbered generation a zero = []
  numbered generation a (suc n) = token generation a ∷ numbered generation (suc a) n

  numbered-append : (g a m n : ℕ) → numbered g a (m + n) ≡ numbered g a m ++ numbered g (a + m) n
  unfolding numbered
  numbered-append g a zero n =
      let e : a + 0 ≡ a = omega arith in let f : 0 + n ≡ n = omega arith in rw (e, f) refl
  numbered-append g a (suc m) n =
      let e : suc m + n ≡ suc (m + n) = omega arith in
      let f : suc a + m ≡ a + suc m = omega arith in
      ap (numbered g a) e
      ∙ ap (◌∷◌ (token g a))
          (numbered-append g (suc a) m n ∙ ap (λ b. numbered g (suc a) m ++ numbered g b n) f)

  -- What a call has made at a depth: so many more nodes, with the next tokens.
  pub record IsMade (c : NormalizeContext) (depth : ℕ) (after : NormalizeContext) (n high : ℕ)
      (made : List (Option AccessibilityElementId)) : Type 0 where
    pub same_generation : after.generation ≡ c.generation
    pub counted : after.nodes ≡ c.nodes + n
    pub ids_follow : after.next_id ≡ after.nodes
    pub few : after.nodes ≤ max_nodes
    pub shallow : depth + high ≤ suc max_depth
    pub next_tokens : made ≡ numbered c.generation c.nodes n

  -- A context in which the next token is the number of nodes.
  pub record IsReady (c : NormalizeContext) (depth : ℕ) : Type 0 where
    pub ids : c.next_id ≡ c.nodes
    pub room : c.nodes ≤ max_nodes
    pub height : depth ≤ suc max_depth

  pub nothing-IsMade :
      (c : NormalizeContext) (depth : ℕ) → IsReady c depth → IsMade c depth c 0 0 []
  unfolding numbered
  nothing-IsMade c depth r = record {
    same_generation = refl;
    counted = omega arith;
    ids_follow = r.ids;
    few = r.room;
    shallow = omega (arith, r.height);
    next_tokens = refl;
  }

  pub both-IsMade :
      (c after last : NormalizeContext) (depth m n h k : ℕ)
      (xs ys : List (Option AccessibilityElementId))
      → IsMade c depth after m h xs
      → IsMade after depth last n k ys
      → IsMade c depth last (m + n) (max h k) (xs ++ ys)
  both-IsMade c after last depth m n h k xs ys p q = record {
    same_generation = q.same_generation ∙ p.same_generation;
    counted = omega (arith, p.counted, q.counted);
    ids_follow = q.ids_follow;
    few = q.few;
    shallow = omega (arith, p.shallow, q.shallow);
    next_tokens =
        rw (numbered-append c.generation c.nodes m n)
          (ap₂ ◌++◌ p.next_tokens (rw (sym p.counted, sym p.same_generation) q.next_tokens));
  }

  module _ {F : Type 0} where
    pub enter-IsReady :
        (c : NormalizeContext) (raw : RawFields F) (depth : ℕ)
        → IsReady c depth
        → is_refused c raw depth ≡ false
        → IsReady (enter c raw) (depth + 1)
    enter-IsReady c raw depth r h = record {
      ids = let e = r.ids in let k = r.room in ground arith;
      room = ground arith;
      height = ground arith;
    }

    pub finish-IsMade :
        (c after : NormalizeContext) (raw : RawFields F) (children : RawNodes F) (is_cut : Bool)
        (depth : ℕ) (made : AccessibilityNodes F)
        → IsReady c depth
        → IsMade
            (enter c raw)
            (depth + 1)
            after
            (sizes made)
            (levels_below made)
            (elements_below made)
        → IsMade c depth after
            (size (node (finish_node display_usize c raw children is_cut) made))
            (levels (node (finish_node display_usize c raw children is_cut) made))
            (elements (node (finish_node display_usize c raw children is_cut) made))
    unfolding size levels elements finish_node numbered
    finish-IsMade c after raw children is_cut depth made r m = record {
      same_generation = m.same_generation;
      counted = omega (arith, m.counted);
      ids_follow = m.ids_follow;
      few = m.few;
      shallow = omega (arith, m.shallow);
      next_tokens =
          let e : c.nodes + 1 ≡ suc c.nodes = omega arith in
          rw r.ids (ap (◌∷◌ (token c.generation c.nodes)) (rw e at m.next_tokens));
    }
