-- ===== src/EventBus.antt =====
-- crates/mega-runtime/src/event_bus.rs: the bounded queue between publishers and one receiver.
-- `LatestState` and `NotificationBus` only pass calls on to tokio's channels and are not modelled.
-- The mutex makes each call one step; `poisoned` says whether its lock is.
pub mod Bounds
pub mod Delivery
pub mod Wakeups
mod Tests
use stalky.Prelude.{
  ℕ, ◌+◌, ◌≡◌, Bool, true, false, Option, none, some, List, [], ◌∷◌, ◌++◌, Result, ok, err,
  if◌then◌else◌, leb, ◌==◌, length,
}
use stalky.Prelude.Words.{wrapping_add}

-- tokio's `Notify` with one waiter: `notified p` is `none` while the wait is pending, else what is
-- left once it completes. The law is its documented one: `notify_one` wakes the waiter or keeps a
-- permit for the next wait.
pub record Notify : Type 1 where
  pub Permit : Type 0
  pub new_notify : Permit
  pub notify_one : Permit → Permit
  pub notified : Permit → Option Permit
  pub notified-notify_one : (p : Permit) → (q : Permit) × (notified (notify_one p) ≡ some q)

pub data OverflowPolicy : Type 0 where
  reject drop_newest drop_oldest : OverflowPolicy

pub record QueueStats : Type 0 where
  pub accepted : ℕ
  pub dropped_newest : ℕ
  pub dropped_oldest : ℕ

pub data EventBusError : Type 0 where
  invalid_capacity full closed poisoned : EventBusError

pub data PublishOutcome : Type 0 where
  published dropped_newest dropped_oldest : PublishOutcome

pub record QueueState {ℓ} (P : Type 0) (A : Type ℓ) : Type ℓ where
  pub items : List A
  pub stats : QueueStats
  pub is_closed : Bool
  pub notify : P
  pub capacity : ℕ
  pub policy : OverflowPolicy
  pub is_poisoned : Bool

-- What one turn of the loop of `recv` comes to: a return, or a wait for a notification.
pub data Turn {ℓ} (A : Type ℓ) : Type ℓ where
  returns : Result (Option A) EventBusError → Turn A
  waits : Turn A

abbrev pop_front {ℓ} : {A : Type ℓ} → List A → List A
pop_front [] = []
pop_front (x ∷ xs) = xs

module _ {ℓ} (N : Notify) {A : Type ℓ} where
  open N use {Permit, new_notify, notify_one}

  pub bounded_queue : ℕ → OverflowPolicy → Result (QueueState Permit A) EventBusError
  bounded_queue capacity policy =
      if capacity == 0
      then err EventBusError.invalid_capacity
      else ok (record {
        items = [];
        stats = record { accepted = 0; dropped_newest = 0; dropped_oldest = 0 };
        is_closed = false;
        notify = new_notify;
        capacity = capacity;
        policy = policy;
        is_poisoned = false;
      })

  push_back : QueueState Permit A → List A → A → QueueStats → QueueState Permit A
  push_back q items item stats = record q {
    items = items ++ item ∷ [];
    stats = record stats { accepted = wrapping_add stats.accepted 1 };
    notify = notify_one q.notify;
  }

  on_full :
      OverflowPolicy
      → QueueState Permit A
      → A
      → QueueState Permit A × Result PublishOutcome EventBusError
  unfolding push_back
  on_full reject q item = (q, err EventBusError.full)
  on_full drop_newest q item =
      let stats = q.stats in
      (
        record q { stats = record stats { dropped_newest = wrapping_add stats.dropped_newest 1 } },
        ok PublishOutcome.dropped_newest,
      )
  on_full drop_oldest q item =
      let stats = q.stats in
      (
        push_back q (pop_front q.items) item
            (record stats { dropped_oldest = wrapping_add stats.dropped_oldest 1 }),
        ok PublishOutcome.dropped_oldest,
      )

  pub publish : QueueState Permit A → A → QueueState Permit A × Result PublishOutcome EventBusError
  unfolding on_full push_back
  publish q item =
      if q.is_poisoned
      then (q, err EventBusError.poisoned)
      else if q.is_closed
      then (q, err EventBusError.closed)
      else if leb q.capacity (length q.items)
      then on_full q.policy q item
      else (push_back q q.items item q.stats, ok PublishOutcome.published)

  -- `close` of either end.
  pub close : QueueState Permit A → QueueState Permit A × Result (Unit {0}) EventBusError
  close q =
      if q.is_poisoned
      then (q, err EventBusError.poisoned)
      else (record q { is_closed = true; notify = notify_one q.notify }, ok tt)

  take_item : List A → QueueState Permit A → QueueState Permit A × Turn A
  take_item [] q = (q, if q.is_closed then returns (ok none) else waits)
  take_item (x ∷ xs) q = (record q { items = xs }, returns (ok (some x)))

  -- One turn of `recv`, up to its `return` or its `await`.
  pub recv_turn : QueueState Permit A → QueueState Permit A × Turn A
  unfolding take_item
  recv_turn q =
      if q.is_poisoned then (q, returns (err EventBusError.poisoned)) else take_item q.items q

  pub stats : QueueState Permit A → Result QueueStats EventBusError
  stats q = if q.is_poisoned then err EventBusError.poisoned else ok q.stats

  pub len : QueueState Permit A → Result ℕ EventBusError
  len q = if q.is_poisoned then err EventBusError.poisoned else ok (length q.items)
