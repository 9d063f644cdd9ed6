-- ===== src/EventBus/Tests.antt =====
-- Runs of the bounded queue on small inputs.
use stalky.Prelude.Words.{u64_mod}
use stalky.Prelude.{
  Bool, List, [], ◌∷◌, Option, false, length, ℕ, ◌≡◌, err, some, true, ◌++◌, ◌≤◌, none, ok, refl,
  ◌%◌, inl,
}
use stalky.EventBus.{
  Notify, QueueState, OverflowPolicy, reject, drop_newest, drop_oldest, bounded_queue, publish,
  close, recv_turn, returns, EventBusError,
}
use stalky.EventBus.Bounds.{publish_all}
use stalky.EventBus.Delivery.{
  Merges, Call, publishes, receives, empty_log, run, received_in_order, every_item_counted,
}
use stalky.EventBus.Wakeups.{here, next, publishing, taking_turn, turn, no_lost_wakeup}

abbrev wait_for : Bool → Option Bool
wait_for true = some false
wait_for false = none

-- `Notify` as one stored permit.
abbrev one_permit : Notify
one_permit = record {
  Permit = Bool;
  new_notify = false;
  notify_one = λ p. true;
  notified = wait_for;
  notified-notify_one = λ p. (false, refl);
}

abbrev queue_of : List ℕ → ℕ → OverflowPolicy → QueueState Bool ℕ
queue_of items capacity policy = record {
  items = items;
  stats = record { accepted = 0; dropped_newest = 0; dropped_oldest = 0 };
  is_closed = false;
  notify = false;
  capacity = capacity;
  policy = policy;
  is_poisoned = false;
}

drop_oldest_test :
    (publish_all one_permit (queue_of [] 2 drop_oldest) (1 ∷ 2 ∷ 3 ∷ [])).items ≡ 2 ∷ 3 ∷ []
unfolding publish_all publish
drop_oldest_test = refl

reject_test : (publish one_permit (queue_of (1 ∷ []) 1 reject) 2).1 ≡ err EventBusError.full
unfolding publish
reject_test = refl

closed_test :
    (recv_turn one_permit (close one_permit (queue_of [] 1 reject)).0).1 ≡ returns (ok none)
unfolding recv_turn close
closed_test = refl

abbrev calls : List (Call ℕ)
calls = publishes 1 ∷ publishes 2 ∷ publishes 3 ∷ receives ∷ publishes 4 ∷ []

received_in_order_example :
    let (r, l) = run one_permit (queue_of [] 2 drop_newest, empty_log) calls in
    l.taken ≡ l.received ++ r.items
unfolding bounded_queue
received_in_order_example = received_in_order one_permit 2 drop_newest calls refl (λ e. cc)

every_item_counted_example :
    let (r, l) = run one_permit (queue_of [] 2 drop_oldest, empty_log) calls in
    (length r.items ≤ 2)
    × ((gone : List ℕ) × Merges l.received l.evicted gone × (l.taken ≡ gone ++ r.items))
    × (r.stats.accepted ≡ length l.taken % u64_mod)
    × (r.stats.dropped_oldest ≡ length l.evicted % u64_mod)
unfolding bounded_queue
every_item_counted_example = every_item_counted one_permit 2 drop_oldest calls refl

no_lost_wakeup_example : (p : Bool) × (wait_for true ≡ some p)
unfolding bounded_queue turn recv_turn publish
no_lost_wakeup_example =
    no_lost_wakeup one_permit 1 reject {q = queue_of [] 1 reject} refl
      (next (next here (taking_turn refl)) (publishing 7)) refl (inl (λ e. cc))
