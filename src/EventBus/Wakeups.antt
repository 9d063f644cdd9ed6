-- ===== src/EventBus/Wakeups.antt =====
-- The receiver of crates/mega-runtime/src/event_bus.rs beside publishers that run at any moment:
-- between the turn of `recv` that finds nothing and the await that follows, too.
use stalky.Prelude.{
  ◌≡◌, ◌≢◌, [], some, false, ◌⊎◌, true, List, Option, arith, inl, ℕ, Bool, ok, ◌∷◌, inr, refl, none,
}
use stalky.EventBus.{
  Notify, QueueState, OverflowPolicy, Turn, returns, waits, bounded_queue, publish, close,
  recv_turn,
}

pub data Phase : Type 0 where
  turning awaiting : Phase

pub record System (P : Type 0) (A : Type 0) : Type 0 where
  pub queue : QueueState P A
  pub phase : Phase

abbrev phase_after : {A : Type 0} → Turn A → Phase
phase_after (returns r) = Phase.turning
phase_after waits = Phase.awaiting

abbrev is_some : {A : Type 0} → Option A → Bool
is_some none = false
is_some (some a) = true

is_some-some : {A : Type 0} (o : Option A) → is_some o ≡ true → (a : A) × (o ≡ some a)
is_some-some none h = cc
is_some-some (some a) h = (a, refl)

ready_notify : (N : Notify) (p : N.Permit) → is_some (N.notified (N.notify_one p)) ≡ true
ready_notify N p = rw ((N.notified-notify_one p).1)

module _ (N : Notify) {A : Type 0} where
  open N use {Permit, notified, notify_one, notified-notify_one}

  unfoldable pub turn : System Permit A → System Permit A
  turn s = let (q, t) = recv_turn N s.queue in record { queue = q; phase = phase_after t }

  -- One atomic step of a publisher, of either closing end, or of the receiver, which makes a turn
  -- only when it does not await, and wakes only when its wait completes.
  pub data Step : System Permit A → System Permit A → Type 0 where
    publishing :
        {s : System Permit A} (x : A) → Step s (record s { queue = (publish N s.queue x).0 })
    closing : {s : System Permit A} → Step s (record s { queue = (close N s.queue).0 })
    taking_turn : {s : System Permit A} → s.phase ≡ Phase.turning → Step s (turn s)
    waking :
        {s : System Permit A} {p : Permit}
        → s.phase ≡ Phase.awaiting
        → notified s.queue.notify ≡ some p
        → Step s (record { queue = record (s.queue) { notify = p }; phase = Phase.turning })

  pub data Reach (s : System Permit A) : System Permit A → Type 0 where
    here : Reach s s
    next : {t u : System Permit A} → Reach s t → Step t u → Reach s u

  -- A receiver that awaits is owed nothing, or its wait completes.
  Attentive : System Permit A → Type 0
  Attentive s =
      s.phase ≡ Phase.awaiting
      → ((s.queue.items ≡ []) × (s.queue.is_closed ≡ false))
        ⊎ (is_some (notified s.queue.notify) ≡ true)

  publish-Attentive :
      (s : System Permit A) (x : A)
      → Attentive s
      → Attentive (record s { queue = (publish N s.queue x).0 })
  unfolding publish Attentive
  publish-Attentive s x h w = ground (arith, ready_notify N s.queue.notify, h w)

  close-Attentive :
      (s : System Permit A) → Attentive s → Attentive (record s { queue = (close N s.queue).0 })
  unfolding close Attentive
  close-Attentive s h w = ground (arith, ready_notify N s.queue.notify, h w)

  take_idle :
      (q : QueueState Permit A) (items : List A)
      → q.items ≡ items
      → phase_after (recv_turn N q).1 ≡ Phase.awaiting
      → ((recv_turn N q).0.items ≡ []) × ((recv_turn N q).0.is_closed ≡ false)
  unfolding recv_turn
  take_idle q [] e w = ground arith
  take_idle q (x ∷ xs) e w = ground arith

  turn-Attentive : (s : System Permit A) → Attentive (turn s)
  unfolding turn Attentive
  turn-Attentive s w = inl (turn_idle s.queue w)
    where
      turn_idle :
          (q : QueueState Permit A)
          → phase_after (recv_turn N q).1 ≡ Phase.awaiting
          → ((recv_turn N q).0.items ≡ []) × ((recv_turn N q).0.is_closed ≡ false)
      turn_idle q w = take_idle q q.items refl w

  Step-Attentive : {s t : System Permit A} → Step s t → Attentive s → Attentive t
  Step-Attentive (publishing {s} x) h = publish-Attentive s x h
  Step-Attentive (closing {s}) h = close-Attentive s h
  Step-Attentive (taking_turn {s} e) h = turn-Attentive s
  Step-Attentive (waking e p) h = unfold Attentive in λ w. cc

  Reach-Attentive : {s t : System Permit A} → Reach s t → Attentive s → Attentive t
  Reach-Attentive here h = h
  Reach-Attentive (next r st) h = Step-Attentive st (Reach-Attentive r h)

  -- However publishers, closers and the receiver interleave from a fresh queue on, a receiver that
  -- awaits while an item is queued or the queue is closed has a completed wait to wake from: no
  -- notification is lost between its look at the queue and its await.
  pub no_lost_wakeup :
      (capacity : ℕ) (policy : OverflowPolicy) {q : QueueState Permit A} {s : System Permit A}
      → bounded_queue N capacity policy ≡ ok q
      → Reach (record { queue = q; phase = Phase.turning }) s
      → s.phase ≡ Phase.awaiting
      → (s.queue.items ≢ []) ⊎ (s.queue.is_closed ≡ true)
      → (p : Permit) × (notified s.queue.notify ≡ some p)
  unfolding Attentive
  no_lost_wakeup capacity policy {q} {s} e r w owed =
      is_some-some (notified s.queue.notify) (awake (Reach-Attentive r (λ v. cc) w) owed)
    where
      awake :
          ((s.queue.items ≡ []) × (s.queue.is_closed ≡ false))
            ⊎ (is_some (notified s.queue.notify) ≡ true)
          → (s.queue.items ≢ []) ⊎ (s.queue.is_closed ≡ true)
          → is_some (notified s.queue.notify) ≡ true
      awake (inr k) o = k
      awake (inl (i, c)) (inl o) = absurd (o i)
      awake (inl (i, c)) (inr o) = cc
