-- ===== src/EventBus/Bounds.antt =====
-- What `publish` leaves in the queue of crates/mega-runtime/src/event_bus.rs.
use stalky.Prelude.{
  ℕ, ◌-◌, ◌≤◌, ◌<◌, ◌≡◌, refl, ap, ap₂, sym, ◌∙◌, false, List, [], ◌∷◌, ◌++◌, ok, arith, leb,
  length, length-append, newest, newest-short, newest-snoc, append_assoc, append-nil, Bool-cases,
  inl, inr,
}
use stalky.EventBus.{
  Notify, QueueState, OverflowPolicy, drop_oldest, bounded_queue, publish, recv_turn, pop_front,
}

module _ {ℓ} {P : Type 0} {A : Type ℓ} where
  pub record IsValid (q : QueueState P A) : Type 0 where
    pub has_room : 0 < q.capacity
    pub within : length q.items ≤ q.capacity

  -- Neither closed nor poisoned.
  pub record IsOpen (q : QueueState P A) : Type 0 where
    pub not_closed : q.is_closed ≡ false
    pub not_poisoned : q.is_poisoned ≡ false

module _ {ℓ} {A : Type ℓ} where
  pub length-pop_front : (xs : List A) → length (pop_front xs) ≡ length xs - 1
  length-pop_front [] = refl
  length-pop_front (x ∷ xs) = omega arith

  newest-snoc_full :
      (n : ℕ) (x : A) (xs : List A)
      → 0 < n
      → length xs ≡ n
      → newest n (xs ++ x ∷ []) ≡ pop_front xs ++ x ∷ []
  newest-snoc_full n x [] h e = absurd (omega arith)
  newest-snoc_full n x (y ∷ xs) h e =
      ground (arith, length-append xs (x ∷ []), newest-short n (xs ++ x ∷ []))

module _ {ℓ} (N : Notify) {A : Type ℓ} where
  open N use {Permit}

  pub bounded_queue-IsValid :
      (capacity : ℕ) (policy : OverflowPolicy) {q : QueueState Permit A}
      → bounded_queue N capacity policy ≡ ok q
      → IsValid q
  unfolding bounded_queue
  bounded_queue-IsValid capacity policy e = ground arith

  pub publish-IsValid : (q : QueueState Permit A) (x : A) → IsValid q → IsValid (publish N q x).0
  unfolding publish
  publish-IsValid q x v = ground (
    arith,
    length-append q.items (x ∷ []),
    length-append (pop_front q.items) (x ∷ []),
    length-pop_front q.items,
  )

  pub recv_turn-IsValid : (q : QueueState Permit A) → IsValid q → IsValid (recv_turn N q).0
  unfolding recv_turn
  recv_turn-IsValid q v = ground arith

  -- What the queue keeps of its configuration.
  pub record SameConfig (q r : QueueState Permit A) : Type 0 where
    pub same_capacity : r.capacity ≡ q.capacity
    pub same_policy : r.policy ≡ q.policy
    pub same_closed : r.is_closed ≡ q.is_closed
    pub same_poisoned : r.is_poisoned ≡ q.is_poisoned

  pub publish-SameConfig : (q : QueueState Permit A) (x : A) → SameConfig q (publish N q x).0
  unfolding publish
  publish-SameConfig q x = ground arith

  publish-newest :
      (q : QueueState Permit A) (x : A)
      → IsValid q
      → IsOpen q
      → q.policy ≡ drop_oldest
      → (publish N q x).0.items ≡ newest q.capacity (q.items ++ x ∷ [])
  unfolding publish
  publish-newest q x v o p = elim (Bool-cases (leb q.capacity (length q.items))) [
    | inl e ↦
        rw (o.not_poisoned, o.not_closed, e, p)
          (sym (newest-snoc_full q.capacity x q.items v.has_room (ground (arith, v.within))))
    | inr e ↦
        rw (o.not_poisoned, o.not_closed, e)
          (sym (
            newest-short q.capacity (q.items ++ x ∷ [])
              (ground (arith, length-append q.items (x ∷ [])))))
  ]

  unfoldable pub publish_all : QueueState Permit A → List A → QueueState Permit A
  publish_all q [] = q
  publish_all q (x ∷ xs) = publish_all (publish N q x).0 xs

  publish_all_from :
      (q : QueueState Permit A) (seen xs : List A)
      → IsValid q
      → IsOpen q
      → q.policy ≡ drop_oldest
      → q.items ≡ newest q.capacity seen
      → (publish_all q xs).items ≡ newest q.capacity (seen ++ xs)
  unfolding publish_all
  publish_all_from q seen [] v o p e = e ∙ ap (newest q.capacity) (sym (append-nil seen))
  publish_all_from q seen (x ∷ xs) v o p e =
      let c = publish-SameConfig q x in
      let here : (publish N q x).0.items ≡ newest (publish N q x).0.capacity (seen ++ x ∷ []) =
        publish-newest q x v o p
        ∙ ap (λ ys. newest q.capacity (ys ++ x ∷ [])) e
        ∙ newest-snoc q.capacity seen x
        ∙ ap (λ n. newest n (seen ++ x ∷ [])) (sym c.same_capacity) in
      publish_all_from (publish N q x).0 (seen ++ x ∷ []) xs (publish-IsValid q x v)
        (record {
          not_closed = c.same_closed ∙ o.not_closed;
          not_poisoned = c.same_poisoned ∙ o.not_poisoned;
        })
        (c.same_policy ∙ p) here
      ∙ ap₂ newest c.same_capacity (append_assoc seen (x ∷ []) xs)

  -- Publishing any items, in order, to an open queue that drops its oldest leaves it with exactly
  -- the newest ones of all that it held and was given, as many as its capacity allows.
  publish_all-newest :
      (q : QueueState Permit A) (xs : List A)
      → IsValid q
      → IsOpen q
      → q.policy ≡ drop_oldest
      → (publish_all q xs).items ≡ newest q.capacity (q.items ++ xs)
  publish_all-newest q xs v o p =
      publish_all_from q q.items xs v o p (sym (newest-short q.capacity q.items v.within))
