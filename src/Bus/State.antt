-- ===== src/Bus/State.antt =====
-- The data of internal/bus/bus.go and memory_bus.go. A subscriber is an object that the buckets refer
-- to by its index in the list of all subscribers ever made. A buffered channel is the list of what it
-- holds, oldest first, with a mark that it is closed. The logger is left out. A policy is a Go string.
use yaralpho.Base.{
  ℕ, Bool, true, false, Option, none, some, List, [], ◌∷◌, String, Error, str_eq, length,
  if◌then◌else◌,
}
use yaralpho.Base.Int.{ℤ, pos, leb_ℤ}
use yaralpho.Storage.Models.{SessionEvent}

-- SlowConsumerPolicy
pub data SlowPolicy : Type 0 where
  unset block drop_latest drop_oldest : SlowPolicy
  other : String → SlowPolicy

-- CapExceedPolicy
pub data CapPolicy : Type 0 where
  unset error drop : CapPolicy
  other : String → CapPolicy

pub record Config : Type 0 where
  pub buffer_size : ℤ
  pub slow_policy : SlowPolicy
  pub cap_policy : CapPolicy
  pub max_sessions : ℤ
  pub max_subscribers : ℤ
  pub idle_timeout : ℤ

-- The errors that bus.go declares, and the error of a context.
pub data BusError : Type 0 where
  slow_consumer subscription_closed session_limit subscriber_limit : BusError
  context : Error → BusError

abbrev pub default_buffer_size : ℤ
default_buffer_size = pos 64

or_block : SlowPolicy → SlowPolicy
or_block SlowPolicy.unset = SlowPolicy.block
or_block p = p

or_error : CapPolicy → CapPolicy
or_error CapPolicy.unset = CapPolicy.error
or_error p = p

-- `normalizeConfig`
unfoldable pub normalize : Config → Config
unfolding or_block or_error
normalize cfg = record cfg {
  buffer_size = if leb_ℤ cfg.buffer_size (pos 0) then default_buffer_size else cfg.buffer_size;
  slow_policy = or_block cfg.slow_policy;
  cap_policy = or_error cfg.cap_policy;
}

-- `subscriber`: `closed` says that `events` is closed, `done` that `done` is; `reset` is the token
-- in the `idleReset` channel.
pub record Subscriber : Type 0 where
  pub capacity : ℤ
  pub events : List SessionEvent
  pub closed : Bool
  pub done : Bool
  pub idle_timeout : ℤ
  pub reset : Bool

pub record Bucket : Type 0 where
  pub session : String
  pub members : List ℕ

-- `memoryBus`, with the subscribers that live on the heap.
pub record Bus : Type 0 where
  pub cfg : Config
  pub subs : List Bucket
  pub heap : List Subscriber

-- `NewMemoryBus`
unfoldable pub new_memory_bus : Config → Bus
unfolding normalize
new_memory_bus cfg = record { cfg = normalize cfg; subs = []; heap = [] }

-- b.subs[session]
unfoldable pub find_bucket : String → List Bucket → Option (List ℕ)
find_bucket session [] = none
find_bucket session (b ∷ rest) =
    let later = find_bucket session rest in
    if str_eq b.session session then some b.members else later

-- b.subs[session] = members
unfoldable pub put_bucket : String → List ℕ → List Bucket → List Bucket
put_bucket session members [] = record { session = session; members = members } ∷ []
put_bucket session members (b ∷ rest) =
    let later = put_bucket session members rest in
    if str_eq b.session session then record b { members = members } ∷ rest else b ∷ later

-- delete(b.subs, session)
unfoldable pub drop_bucket : String → List Bucket → List Bucket
drop_bucket session [] = []
drop_bucket session (b ∷ rest) =
    let later = drop_bucket session rest in if str_eq b.session session then rest else b ∷ later

-- The room that is left in `events`.
unfoldable pub has_room : Subscriber → Bool
has_room s = elim (leb_ℤ s.capacity (pos (length s.events))) [ true ↦ false | false ↦ true ]
