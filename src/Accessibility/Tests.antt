-- ===== src/Accessibility/Tests.antt =====
-- Concrete trees, actions and services.
use stalky.Prelude.Text.{Text, text}
use stalky.Prelude.{
  List, Option, Result, [], arith, false, newest, none, ok, refl, some, true, ◌∷◌, ◌≡◌, ℕ,
}
use stalky.Permissions.{PermissionState-discrete, denied, granted}
use stalky.Accessibility.{
  AccessibilityActionRequest, AccessibilityElementId, ActionBinding, press, set_value,
}
use stalky.Accessibility.Normalizer.{
  RawFields, RawNode, more_raw, no_raw, node_from, normalize_tree, raw_node,
}
use stalky.Accessibility.Normalizer.Bounds.{IsBounded, normalize_tree-IsBounded}
use stalky.Accessibility.Normalizer.Secrets.{mask, normalize_tree-mask}
use stalky.Accessibility.Service.{finds_stale}
use stalky.Accessibility.Service.{
  AccessibilityError, AccessibilityService, AccessibilitySnapshot, Event, busy, free,
  max_recent_events, on_events, publishes, records, running, failed, status_from_inner,
  title_changed, value_changed, with_backend,
}
use stalky.Accessibility.Service.Calls.{
  AccessibilityActionResult, execute, halt_session, refresh_permission, stop,
}
use stalky.Accessibility.Service.Recent.{on_events-newest, recorded}
use stalky.Accessibility.Service.Idle.{Refuses}
use stalky.Accessibility.Service.Revoked.{revoked-snapshot, revoked_until_start}
use stalky.Accessibility.Service.Sessions.{
  IsSettled, Op, executes, run_all, run_all-settles, starts, stops,
}
use stalky.Accessibility.Service.Stops.{LeavesNothing, stop-leaves}

abbrev display_usize : ℕ → Text
display_usize n = n ∷ []

abbrev field : ℕ → Option Text → RawFields ℕ
field key role = record {
  key = key;
  role = role;
  subrole = none;
  title = some (text "Name");
  value = some (text "hunter2");
  bounds = none;
  enabled = some true;
  focused = none;
  secure = false;
  supported_actions = press ∷ [];
  value_settable = true;
  truncated = false;
}

-- A window with a password field, a text field and itself.
abbrev window : RawNode ℕ
window = raw_node (field 1 none) (
    more_raw (raw_node (field 2 (some (text "AXSecureTextField"))) no_raw) (
      more_raw (raw_node (field 3 none) no_raw) (more_raw (raw_node (field 1 none) no_raw) no_raw)))

normalize_tree-IsBounded_example : IsBounded display_usize 7 (normalize_tree display_usize window 7)
normalize_tree-IsBounded_example = normalize_tree-IsBounded display_usize window 7

window-nodes : (normalize_tree display_usize window 7).nodes ≡ 3
unfolding normalize_tree node_from
window-nodes = refl

normalize_tree-mask_example :
    normalize_tree display_usize (mask (text "none") window) 7
    ≡ normalize_tree display_usize window 7
normalize_tree-mask_example = normalize_tree-mask display_usize (text "none") window 7

abbrev first : AccessibilityElementId
first = record { id = text "e0"; generation = 7 }

abbrev write : AccessibilityActionRequest
write = record { element = first; action = set_value; value = some (text "hello") }

abbrev bound : ActionBinding
bound = record { element = first; supported_actions = press ∷ []; value_settable = true }

abbrev Service : Type 0
Service = AccessibilityService ℕ ℕ

abbrev no_text : AccessibilityError → Text
no_text e = []

abbrev empty : AccessibilitySnapshot ℕ
empty = record {
  generation = 1;
  observed_at_millis = 5;
  application = none;
  focused_window = none;
  focused_element = none;
  tree = none;
}

abbrev callbacks : List (Event ℕ)
callbacks =
    records free title_changed none 1
    ∷ records busy value_changed none 2
    ∷ publishes free empty
    ∷ records free value_changed (some first) 3
    ∷ []

on_events-newest_example :
    (on_events {S = ℕ} no_text with_backend callbacks).inner.recent_events
    ≡ newest max_recent_events (recorded 0 callbacks)
unfolding with_backend
on_events-newest_example =
    on_events-newest no_text callbacks (with_backend {S = ℕ}) refl (omega arith)

abbrev halts : ℕ → Result (Unit {0}) AccessibilityError
halts session = ok tt

abbrev calls : List (Op ℕ ℕ)
calls = starts callbacks (ok 4) ∷ stops callbacks halts ∷ []

run_all-settles_example : IsSettled (run_all {F = ℕ} no_text with_backend calls)
unfolding with_backend
run_all-settles_example =
    run_all-settles no_text calls with_backend
      (record { fits = refl; recent_bounded = omega arith })

-- A running service.
abbrev observing : Service
observing = record with_backend {
  inner = record (with_backend.inner) { state = running; permission = granted; session = some 4 };
  is_poisoned = false;
  is_lifecycle_poisoned = false;
}

stop-leaves_example :
    LeavesNothing (halt_session halts (some 4)) (stop no_text observing callbacks halts)
stop-leaves_example = stop-leaves no_text observing callbacks halts refl refl

revoked-snapshot_example :
    let p =
      refresh_permission no_text observing
        (ok denied)
        (publishes free empty ∷ finds_stale ∷ [])
        halts in
    (p.0.inner.state ≡ failed)
    × (p.0.inner.session ≡ none)
    × (p.0.inner.snapshot ≡ some empty)
    × (p.1 ≡ ok (status_from_inner p.0))
unfolding PermissionState-discrete
revoked-snapshot_example =
    revoked-snapshot no_text observing denied (publishes free empty ∷ finds_stale ∷ []) halts refl
      refl refl refl

abbrev acts :
    ℕ → AccessibilityActionRequest → ℕ × Result AccessibilityActionResult AccessibilityError
acts session request =
    (session, ok (record { executed = true; element = request.element; action = request.action }))

revoked_until_start_example :
    let s =
      run_all no_text
        (refresh_permission no_text observing (ok denied) callbacks halts).0
        (executes write acts ∷ stops callbacks halts ∷ []) in
    Refuses s (execute no_text s write acts)
unfolding PermissionState-discrete
revoked_until_start_example =
    revoked_until_start no_text observing denied callbacks halts
      (executes write acts ∷ stops callbacks halts ∷ []) write acts refl refl refl refl
      (tt, (tt, tt))
