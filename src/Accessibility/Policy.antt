-- ===== src/Accessibility/Policy.antt =====
-- The actions that `validate_action` (crates/stalky-accessibility/src/policy.rs) lets through.
use stalky.Prelude.Text.{Text, text_eq_iff}
use stalky.Prelude.{
  Bool-cases, In, In-any, Option-cases, ap, sym, subst, arith, false, inl, inr, length, none, ok,
  refl, same→eq, some, true, ◌≡◌, ◌≢◌, ◌≤◌, ◌⊎◌,
}
use stalky.Accessibility.{
  AccessibilityAction, AccessibilityAction-discrete, AccessibilityActionRequest, press,
  AccessibilityElementId, ActionBinding, is_action, max_action_value_chars, same_element, set_value,
  validate_action,
}

-- A value is set where that can be done, and is not too long; any other action comes without a value
-- and is one that the element supports.
abbrev pub IsPermitted : AccessibilityActionRequest → ActionBinding → Type 0
IsPermitted request binding =
    ((request.action ≡ set_value)
      × (binding.value_settable ≡ true)
      × (value : Text) × (request.value ≡ some value)
      × (length value ≤ max_action_value_chars))
    ⊎ ((request.action ≢ set_value)
        × (request.value ≡ none)
        × In request.action binding.supported_actions)

same_element-eq : (a b : AccessibilityElementId) → same_element a b ≡ true → a ≡ b
same_element-eq a b h =
    let t : a.id ≡ b.id = (text_eq_iff a.id b.id).0 (ground arith) in
    let g : a.generation ≡ b.generation = ground arith in λ i. record { id = t i; generation = g i }

is_action_self : (a : AccessibilityAction) → is_action a a ≡ true
unfolding AccessibilityAction-discrete
is_action_self press = refl
is_action_self _ = refl

module _ (request : AccessibilityActionRequest) (binding : ActionBinding)
    (h : validate_action request binding ≡ ok tt) where
  same_element-ok : same_element request.element binding.element ≡ true
  unfolding validate_action
  same_element-ok = ground arith

  set_value-IsPermitted : is_action request.action set_value ≡ true → IsPermitted request binding
  unfolding validate_action
  set_value-IsPermitted a = elim (Option-cases request.value) [
    | inl e ↦ absurd (ground arith)
    | inr (value, e) ↦ inl (
      same→eq AccessibilityAction-discrete request.action set_value a,
      ground arith,
      value,
      e,
      ground arith,
    )
  ]

  other-IsPermitted : is_action request.action set_value ≡ false → IsPermitted request binding
  unfolding validate_action
  other-IsPermitted a =
      let (b, m, e) = In-any (is_action request.action) binding.supported_actions (ground arith) in
      inr (
        (λ q. cc (is_action_self set_value, ap (λ c. is_action c set_value) q, a)),
        ground arith,
        subst (λ c. In c binding.supported_actions)
            (sym (same→eq AccessibilityAction-discrete request.action b e)) m,
      )

  -- If an action is let through then its element is the one that is bound, of the same generation,
  -- and it is permitted there.
  validate_action-IsPermitted : (request.element ≡ binding.element) × IsPermitted request binding
  validate_action-IsPermitted = (
    same_element-eq request.element binding.element same_element-ok,
    elim (Bool-cases (is_action request.action set_value)) [
      | inl a ↦ set_value-IsPermitted a
      | inr a ↦ other-IsPermitted a
    ],
  )
