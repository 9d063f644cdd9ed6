-- ===== src/Accessibility.antt =====
-- crates/stalky-accessibility/src: the tree of what is on the screen, and the actions on it (model.rs,
-- policy.rs). `F` is `f64`.
pub mod Normalizer
pub mod Policy
pub mod Service
mod Tests
use stalky.Prelude.Text.{Text, text_eq}
use stalky.Prelude.Int.{ℤ, eq_ℤ}
use stalky.Prelude.{
  Bool, List, Option, Result, ℕ, err, false, if◌then◌else◌, same, not, some, ◌&&◌, any, ltb, true,
  ◌==◌, length, none, ok,
}

pub data AccessibilityAction : Type 0 where
  press increment decrement show_menu raise focus set_value : AccessibilityAction

unfoldable pub AccessibilityAction-discrete : Discrete AccessibilityAction
AccessibilityAction-discrete = hlevel

pub record AccessibilityElementId : Type 0 where
  pub id : Text
  pub generation : ℕ

pub record AccessibilityActionRequest : Type 0 where
  pub element : AccessibilityElementId
  pub action : AccessibilityAction
  pub value : Option Text

pub record AccessibilityRect (F : Type 0) : Type 0 where
  pub x : F
  pub y : F
  pub width : F
  pub height : F

abbrev pub max_action_value_chars : ℕ
max_action_value_chars = 256

pub record ActionBinding : Type 0 where
  pub element : AccessibilityElementId
  pub supported_actions : List AccessibilityAction
  pub value_settable : Bool

pub data ActionPolicyError : Type 0 where
  stale_element unsupported_action value_required value_not_settable value_too_long
        unexpected_value :
      ActionPolicyError

abbrev pub same_element : AccessibilityElementId → AccessibilityElementId → Bool
same_element a b = text_eq a.id b.id && (a.generation == b.generation)

abbrev pub is_action : AccessibilityAction → AccessibilityAction → Bool
is_action a b = same AccessibilityAction-discrete a b

abbrev check_value : Option Text → Result (Unit {0}) ActionPolicyError
check_value none = err value_required
check_value (some value) =
    if ltb max_action_value_chars (length value) then err value_too_long else ok tt

abbrev is_some {ℓ} : {A : Type ℓ} → Option A → Bool
is_some none = false
is_some (some a) = true

unfoldable pub validate_action :
    AccessibilityActionRequest → ActionBinding → Result (Unit {0}) ActionPolicyError
validate_action request binding =
    if not (same_element request.element binding.element)
    then err stale_element
    else if is_action request.action set_value
    then if not binding.value_settable then err value_not_settable else check_value request.value
    else if is_some request.value
    then err unexpected_value
    else if any (is_action request.action) binding.supported_actions
    then ok tt
    else err unsupported_action

-- The three process ids are `i32`.
unfoldable pub should_rebind_focused_application : ℤ → ℤ → Option ℤ → Bool
should_rebind_focused_application focused_pid own_pid current_external_pid =
    not (eq_ℤ focused_pid own_pid) && not (is_current current_external_pid)
  where
    is_current : Option ℤ → Bool
    is_current none = false
    is_current (some pid) = eq_ℤ pid focused_pid
