-- ===== src/EventBus/Delivery.antt =====
-- Which published items the receiver of crates/mega-runtime/src/event_bus.rs gets, and in which
-- order, over any sequence of calls of the two ends.
use stalky.Prelude.Words.{u64_mod}
use stalky.Prelude.{
  Bool-cases, leb, inl, inr, sym, ◌∙◌, List, [], arith, length, ok, Result, some, ◌∷◌, ◌≢◌, err,
  append_assoc, length-append, ◌++◌, ◌≡◌, ◌+◌, ◌%◌, refl, ℕ, ◌<◌, ◌≤◌,
}
use stalky.Prelude.{none}
use stalky.EventBus.{
  reject, drop_newest, on_full, push_back, take_item, Notify, QueueState, drop_oldest,
  PublishOutcome, EventBusError, Turn, returns, waits, publish, close, recv_turn, OverflowPolicy,
  bounded_queue,
}

pub data Call (A : Type 0) : Type 0 where
  publishes : A → Call A
  closes : Call A
  receives : Call A

-- What the callers have seen: the items taken on, in order, those handed out, in order, and those
-- pushed out by later ones.
pub record Log (A : Type 0) : Type 0 where
  pub taken : List A
  pub received : List A
  pub evicted : List A

abbrev pub empty_log : {A : Type 0} → Log A
empty_log = record { taken = []; received = []; evicted = [] }

-- Two lists merged into one: the last element of the third is the last of one of the others.
pub data Merges {A : Type 0} : List A → List A → List A → Type 0 where
  merges_none : Merges [] [] []
  merges_left :
      {xs ys zs vs ws : List A} (x : A)
      → Merges xs ys zs
      → vs ≡ xs ++ x ∷ []
      → ws ≡ zs ++ x ∷ []
      → Merges vs ys ws
  merges_right :
      {xs ys zs vs ws : List A} (y : A)
      → Merges xs ys zs
      → vs ≡ ys ++ y ∷ []
      → ws ≡ zs ++ y ∷ []
      → Merges xs vs ws

note_publish : {A : Type 0} → List A → A → Result PublishOutcome EventBusError → Log A → Log A
note_publish items x (err e) l = l
note_publish items x (ok PublishOutcome.dropped_newest) l = l
note_publish items x (ok PublishOutcome.published) l = record l { taken = l.taken ++ x ∷ [] }
note_publish [] x (ok PublishOutcome.dropped_oldest) l = record l { taken = l.taken ++ x ∷ [] }
note_publish (y ∷ ys) x (ok PublishOutcome.dropped_oldest) l = record l {
  taken = l.taken ++ x ∷ [];
  evicted = l.evicted ++ y ∷ [];
}

note_turn : {A : Type 0} → Turn A → Log A → Log A
note_turn (returns (ok (some x))) l = record l { received = l.received ++ x ∷ [] }
note_turn (returns (ok none)) l = l
note_turn (returns (err e)) l = l
note_turn waits l = l

module _ (N : Notify) {A : Type 0} where
  open N use {Permit}

  pub step : QueueState Permit A × Log A → Call A → QueueState Permit A × Log A
  unfolding note_publish note_turn
  step (q, l) (publishes x) =
      let (r, outcome) = publish N q x in (r, note_publish q.items x outcome l)
  step (q, l) closes = ((close N q).0, l)
  step (q, l) receives = let (r, turn) = recv_turn N q in (r, note_turn turn l)

  pub run : QueueState Permit A × Log A → List (Call A) → QueueState Permit A × Log A
  run s [] = s
  run s (c ∷ cs) = run (step s c) cs

  -- In the order of `taken` come what was received or evicted, and what is queued.
  InOrder : QueueState Permit A × Log A → Type 0
  InOrder (q, l) = (q.policy ≢ drop_oldest) × (l.taken ≡ l.received ++ q.items)

  receive-InOrder :
      (q : QueueState Permit A) (l : Log A) (items : List A)
      → q.items ≡ items
      → InOrder (q, l)
      → InOrder (step (q, l) receives)
  unfolding step recv_turn InOrder
  receive-InOrder q l [] e h = ground arith
  receive-InOrder q l (x ∷ xs) e h = ground (arith, append_assoc l.received (x ∷ []) xs)

  step-InOrder : (s : QueueState Permit A × Log A) (c : Call A) → InOrder s → InOrder (step s c)
  unfolding step publish close recv_turn InOrder
  step-InOrder (q, l) (publishes x) h = ground (arith, append_assoc l.received q.items (x ∷ []))
  step-InOrder (q, l) closes h = ground arith
  step-InOrder (q, l) receives h = receive-InOrder q l q.items refl h

  Counted : ℕ → QueueState Permit A × Log A → Type 0
  Counted n (q, l) =
      (0 < n)
      × (q.capacity ≡ n)
      × (length q.items ≤ n)
      × (length l.taken ≡ length l.received + length l.evicted + length q.items)
      × (q.stats.accepted ≡ length l.taken % u64_mod)
      × (q.stats.dropped_oldest ≡ length l.evicted % u64_mod)

  publish-Counted :
      (n : ℕ) (q : QueueState Permit A) (l : Log A) (x : A) (items : List A)
      → q.items ≡ items
      → Counted n (q, l)
      → Counted n (step (q, l) (publishes x))
  unfolding step publish Counted
  publish-Counted n q l x [] e h = ground (arith, length-append l.taken (x ∷ []))
  publish-Counted n q l x (y ∷ ys) e h = ground (
    arith,
    length-append (y ∷ ys) (x ∷ []),
    length-append ys (x ∷ []),
    length-append l.taken (x ∷ []),
    length-append l.evicted (y ∷ []),
  )

  receive-Counted :
      (n : ℕ) (q : QueueState Permit A) (l : Log A) (items : List A)
      → q.items ≡ items
      → Counted n (q, l)
      → Counted n (step (q, l) receives)
  unfolding step recv_turn Counted
  receive-Counted n q l [] e h = ground arith
  receive-Counted n q l (x ∷ xs) e h = ground (arith, length-append l.received (x ∷ []))

  step-Counted :
      (n : ℕ) (s : QueueState Permit A × Log A) (c : Call A) → Counted n s → Counted n (step s c)
  unfolding step publish close recv_turn Counted
  step-Counted n (q, l) (publishes x) h = publish-Counted n q l x q.items refl h
  step-Counted n (q, l) closes h = ground arith
  step-Counted n (q, l) receives h = receive-Counted n q l q.items refl h

  -- What has left the queue, in the order of `taken`: the received and the evicted items.
  Gone : QueueState Permit A × Log A → Type 0
  Gone (q, l) = (gone : List A) × Merges l.received l.evicted gone × (l.taken ≡ gone ++ q.items)

  -- An item is added at the end, with or without one leaving at the front.
  added-Gone :
      (q q' : QueueState Permit A) (l l' : Log A) (x : A)
      → l'.received ≡ l.received
      → l'.evicted ≡ l.evicted
      → l'.taken ≡ l.taken ++ x ∷ []
      → q'.items ≡ q.items ++ x ∷ []
      → Gone (q, l)
      → Gone (q', l')
  unfolding Gone
  added-Gone q q' l l' x r e t i (gone, m, h) =
      (gone, rw (r, e) m, rw (t, i, h) (append_assoc gone q.items (x ∷ [])))

  evicted-Gone :
      (q q' : QueueState Permit A) (l l' : Log A) (x y : A) (ys : List A)
      → q.items ≡ y ∷ ys
      → l'.received ≡ l.received
      → l'.evicted ≡ l.evicted ++ y ∷ []
      → l'.taken ≡ l.taken ++ x ∷ []
      → q'.items ≡ ys ++ x ∷ []
      → Gone (q, l)
      → Gone (q', l')
  unfolding Gone
  evicted-Gone q q' l l' x y ys s r e t i (gone, m, h) = (
    gone ++ y ∷ [],
    rw r (merges_right y m e refl),
    rw (t, i, h, s)
        (append_assoc gone (y ∷ ys) (x ∷ []) ∙ sym (append_assoc gone (y ∷ []) (ys ++ x ∷ []))),
  )

  on_full-Gone :
      (q : QueueState Permit A) (l : Log A) (x : A) (items : List A) (policy : OverflowPolicy)
      → q.items ≡ items
      → Gone (q, l)
      → let (r, outcome) = on_full N policy q x in Gone (r, note_publish q.items x outcome l)
  unfolding on_full push_back note_publish
  on_full-Gone q l x items reject e h = h
  on_full-Gone q l x items drop_newest e h = unfold Gone in h
  on_full-Gone q l x [] drop_oldest e h =
      added-Gone q _ l _ x (rw e refl) (rw e refl) (rw e refl) (rw e refl) h
  on_full-Gone q l x (y ∷ ys) drop_oldest e h =
      evicted-Gone q _ l _ x y ys e (rw e refl) (rw e refl) (rw e refl) (rw e refl) h

  publish-Gone :
      (q : QueueState Permit A) (l : Log A) (x : A) → Gone (q, l) → Gone (step (q, l) (publishes x))
  unfolding step publish note_publish
  publish-Gone q l x h = elim (Bool-cases q.is_poisoned) [
    | inl e ↦ simp (e, publish) h
    | inr e ↦ elim (Bool-cases q.is_closed) [
      | inl f ↦ simp (e, f, publish) h
      | inr f ↦ elim (Bool-cases (leb q.capacity (length q.items))) [
        | inl g ↦ simp (e, f, g, publish) (on_full-Gone q l x q.items q.policy refl h)
        | inr g ↦ simp (e, f, g, publish) (added-Gone q _ l _ x refl refl refl refl h)
      ]
    ]
  ]

  take_item-Gone :
      (q : QueueState Permit A) (l : Log A) (items : List A)
      → q.items ≡ items
      → Gone (q, l)
      → let (r, turn) = take_item N items q in Gone (r, note_turn turn l)
  unfolding take_item note_turn Gone
  take_item-Gone q l [] e h = elim (Bool-cases q.is_closed) [ inl c ↦ simp c h | inr c ↦ simp c h ]
  take_item-Gone q l (x ∷ xs) e (gone, m, h) =
      (gone ++ x ∷ [], merges_left x m refl refl, rw (h, e) (sym (append_assoc gone (x ∷ []) xs)))

  receive-Gone : (q : QueueState Permit A) (l : Log A) → Gone (q, l) → Gone (step (q, l) receives)
  unfolding step recv_turn note_turn
  receive-Gone q l h = elim (Bool-cases q.is_poisoned) [
    | inl p ↦ simp (p, recv_turn) h
    | inr p ↦ simp (p, recv_turn) (take_item-Gone q l q.items refl h)
  ]

  step-Gone : (s : QueueState Permit A × Log A) (c : Call A) → Gone s → Gone (step s c)
  unfolding step close
  step-Gone (q, l) (publishes x) h = publish-Gone q l x h
  step-Gone (q, l) closes h = elim (Bool-cases q.is_poisoned) [
    | inl p ↦ unfold Gone in simp p h
    | inr p ↦ unfold Gone in simp p h
  ]
  step-Gone (q, l) receives h = receive-Gone q l h

  run-Gone : (s : QueueState Permit A × Log A) (cs : List (Call A)) → Gone s → Gone (run s cs)
  unfolding run
  run-Gone s [] h = h
  run-Gone s (c ∷ cs) h = run-Gone (step s c) cs (step-Gone s c h)

  run-InOrder :
      (s : QueueState Permit A × Log A) (cs : List (Call A)) → InOrder s → InOrder (run s cs)
  unfolding run
  run-InOrder s [] h = h
  run-InOrder s (c ∷ cs) h = run-InOrder (step s c) cs (step-InOrder s c h)

  run-Counted :
      (n : ℕ) (s : QueueState Permit A × Log A) (cs : List (Call A))
      → Counted n s
      → Counted n (run s cs)
  unfolding run
  run-Counted n s [] h = h
  run-Counted n s (c ∷ cs) h = run-Counted n (step s c) cs (step-Counted n s c h)

  -- A fresh queue that does not drop its oldest items loses and reorders nothing that it took on:
  -- after any calls, those items are the ones received and then the ones queued, in order.
  pub received_in_order :
      (capacity : ℕ) (policy : OverflowPolicy) {q : QueueState Permit A} (cs : List (Call A))
      → bounded_queue N capacity policy ≡ ok q
      → policy ≢ drop_oldest
      → let (r, l) = run (q, empty_log) cs in l.taken ≡ l.received ++ r.items
  unfolding InOrder
  received_in_order capacity policy {q} cs e h =
      (run-InOrder (q, empty_log) cs (unfold bounded_queue in ground arith)).1

  -- After any calls on a fresh queue, under every policy, it is within its capacity, and the items
  -- taken on are, in their order, those that left it and then those that are queued. Those that left
  -- are the received and the evicted items, merged with each of them in its own order. The counters
  -- hold the numbers of items taken on and evicted, modulo 2^64.
  pub every_item_counted :
      (capacity : ℕ) (policy : OverflowPolicy) {q : QueueState Permit A} (cs : List (Call A))
      → bounded_queue N capacity policy ≡ ok q
      → let (r, l) = run (q, empty_log) cs in
        (length r.items ≤ capacity)
        × ((gone : List A) × Merges l.received l.evicted gone × (l.taken ≡ gone ++ r.items))
        × (r.stats.accepted ≡ length l.taken % u64_mod)
        × (r.stats.dropped_oldest ≡ length l.evicted % u64_mod)
  unfolding Counted Gone
  every_item_counted capacity policy {q} cs e =
      let h = run-Counted capacity (q, empty_log) cs (unfold bounded_queue in ground arith) in
      let start : [] ≡ q.items = unfold bounded_queue in ground arith in
      (h.2, run-Gone (q, empty_log) cs ([], merges_none, start), h.4, h.5)
