-- ===== src/Bus/Subscribe.antt =====
-- `Subscribe`, `Close` and `snapshotSubscribers` of internal/bus/memory_bus.go. The idle timer and the
-- context's watcher call `close` and nothing else.
use yaralpho.Base.{
  ℕ, ◌==◌, Bool, true, false, ◌&&◌, Option, none, some, List, [], ◌∷◌, ◌++◌, String, length,
  get_elem?, modify, if◌then◌else◌,
}
use yaralpho.Base.Int.{ℤ, pos, leb_ℤ, ltb_ℤ}
use yaralpho.Bus.State.{
  Bus, Bucket, Subscriber, Config, BusError, session_limit, subscriber_limit, find_bucket,
  put_bucket, drop_bucket,
}

-- `newSubscriber`
unfoldable pub new_subscriber : ℤ → ℤ → Subscriber
new_subscriber buffer idle_timeout = record {
  capacity = buffer;
  events = [];
  closed = false;
  done = false;
  idle_timeout = idle_timeout;
  reset = false;
}

-- A limit above 0 that `n` has reached.
unfoldable pub reached : ℤ → ℕ → Bool
reached limit n = ltb_ℤ (pos 0) limit && leb_ℤ limit (pos n)

-- The members of the session's bucket, and the buckets with a bucket for it; none when a new bucket
-- is one too many.
unfoldable pub open_bucket : Config → String → List Bucket → Option (List ℕ × List Bucket)
unfolding find_bucket put_bucket reached
open_bucket cfg session subs = elim (find_bucket session subs) [
  | some members ↦ some (members, subs)
  | none ↦
      if reached cfg.max_sessions (length subs) then none else some ([], put_bucket session [] subs)
]

unfoldable pub join : Bus → String → List ℕ → List Bucket → (Option BusError × Option ℕ) × Bus
unfolding new_subscriber reached put_bucket
join b session members subs =
    if reached b.cfg.max_subscribers (length members)
    then ((some subscriber_limit, none), record b { subs = subs })
    else let id = length b.heap in
      (
        (none, some id),
        record b {
          subs = put_bucket session (members ++ (id ∷ [])) subs;
          heap = b.heap ++ (new_subscriber b.cfg.buffer_size b.cfg.idle_timeout ∷ []);
        },
      )

-- `Subscribe`: the error and the subscription, which is the index of its subscriber.
unfoldable pub subscribe : Bus → String → (Option BusError × Option ℕ) × Bus
unfolding open_bucket join
subscribe b session = elim (open_bucket b.cfg session b.subs) [
  | none ↦ ((some session_limit, none), b)
  | some r ↦ join b session r.0 r.1
]

-- delete(bucket, sub)
unfoldable pub remove_member : ℕ → List ℕ → List ℕ
remove_member id [] = []
remove_member id (x ∷ xs) = let rest = remove_member id xs in if x == id then rest else x ∷ rest

unfoldable pub put_or_drop : String → List ℕ → List Bucket → List Bucket
unfolding put_bucket drop_bucket
put_or_drop session [] subs = drop_bucket session subs
put_or_drop session (x ∷ xs) subs = put_bucket session (x ∷ xs) subs

-- What the function of `cleanupFunc` does to the buckets.
unfoldable pub leave : String → ℕ → List Bucket → List Bucket
unfolding find_bucket put_or_drop remove_member
leave session id subs = elim (find_bucket session subs) [
  | none ↦ subs
  | some members ↦ put_or_drop session (remove_member id members) subs
]

-- The cleanup, under the lock: the subscriber leaves its bucket and its channel is closed.
unfoldable pub cleanup : String → ℕ → Bus → Bus
unfolding leave
cleanup session id b = record b {
  subs = leave session id b.subs;
  heap = modify b.heap id (λ s. record s { closed = true });
}

-- close(s.done)
unfoldable pub mark_done : ℕ → Bus → Bus
mark_done id b = record b { heap = modify b.heap id (λ s. record s { done = true }) }

-- `Close`, once; `done` says that `closeOnce` has run.
unfoldable pub close : String → ℕ → Bus → Bus
unfolding cleanup mark_done
close session id b = elim (get_elem? b.heap id) [
  | none ↦ b
  | some s ↦ if s.done then b else mark_done id (cleanup session id b)
]

-- `snapshotSubscribers`
unfoldable pub snapshot : Bus → String → List ℕ
unfolding find_bucket
snapshot b session = elim (find_bucket session b.subs) [ some members ↦ members | none ↦ [] ]
