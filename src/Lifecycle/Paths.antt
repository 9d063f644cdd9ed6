-- ===== src/Lifecycle/Paths.antt =====
-- Which states follow which in crates/mega-core/src/lifecycle.rs.
use stalky.Prelude.{List, ◌≡◌, false, true, ◌++◌, ◌∷◌, [], arith, refl, sym, subst}
use stalky.Lifecycle.{
  LifecycleState, stopped, starting, running, degraded, stopping, failed, LifecycleTransition,
  can_transition_to, is_active,
}

infix 40 ◌⟶◌ ◌⟶*◌
abbrev pub ◌⟶◌ : LifecycleState → LifecycleState → Type 0
s ⟶ t = can_transition_to s t ≡ true

pub data ◌⟶*◌ (s : LifecycleState) : LifecycleState → Type 0 where
  here : s ⟶* s
  then : {t u : LifecycleState} → s ⟶* t → t ⟶ u → s ⟶* u

-- The only way from a state that is not active to one that is leads into `starting`.
pub activates_by_starting :
    (s t : LifecycleState) → s ⟶ t → is_active s ≡ false → is_active t ≡ true → t ≡ starting
unfolding can_transition_to is_active
activates_by_starting stopped t h a b = ground arith
activates_by_starting starting t h a b = cc
activates_by_starting running t h a b = cc
activates_by_starting (degraded r) t h a b = cc
activates_by_starting stopping t h a b = ground arith
activates_by_starting (failed r q) t h a b = ground arith

via_stopping : (s : LifecycleState) → s ⟶ stopping → s ⟶* stopped
unfolding can_transition_to
via_stopping s h = then {t = stopping} (then {t = s} here h) refl

-- Every state can be brought to `stopped` by allowed transitions.
pub reaches_stopped : (s : LifecycleState) → s ⟶* stopped
unfolding can_transition_to
reaches_stopped stopped = here
reaches_stopped starting = via_stopping starting refl
reaches_stopped running = via_stopping running refl
reaches_stopped (degraded r) = via_stopping (degraded r) refl
reaches_stopped stopping = then {t = stopping} here refl
reaches_stopped (failed b r) = then {t = failed b r} here refl

-- The states along a sequence of transitions, each allowed and each from where the last one led.
abbrev pub Chain : LifecycleState → List LifecycleTransition → LifecycleState → Type 0
Chain s [] t = s ≡ t
Chain s (x ∷ xs) t = (x.from ≡ s) × (s ⟶ x.to) × Chain x.to xs t

pub Chain-snoc :
    (s : LifecycleState) (xs : List LifecycleTransition) (t u : LifecycleState)
    → Chain s xs t
    → t ⟶ u
    → Chain s (xs ++ record { from = t; to = u } ∷ []) u
Chain-snoc s [] t u h k = (sym h, subst (λ v. v ⟶ u) (sym h) k, refl)
Chain-snoc s (x ∷ xs) t u h k = (h.0, h.1, Chain-snoc x.to xs t u h.2 k)
