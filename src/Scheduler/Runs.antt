-- ===== src/Scheduler/Runs.antt =====
-- What a whole tick of internal/scheduler/scheduler.go writes, read off the log of its calls.
use yaralpho.Base.{◌≡◌, ◌⊎◌, false, some, List, [], All}
use yaralpho.Scheduler.State.{Store, State, Worker, Scheduler}
use yaralpho.Scheduler.Tick.{CtxErr, tick}
use yaralpho.Scheduler.Protocol.{lctx, tick-Protocol}
use yaralpho.Scheduler.Calls.{Call, logged, with_calls}
use yaralpho.Scheduler.Writes.{
  LeavesContent, ReadsSound, WritesSound, TakesAgent, Frees, EndsBy, Protocol-WritesSound,
  Protocol-ends_idle,
}

module _ {W : Type 0} (ctx : CtxErr W) (store : Store W) (worker : Worker W) (c : Scheduler W)
    (s : State W) where
  -- The calls that a tick makes of the store and of the worker, the latest first.
  abbrev pub tick_calls : List Call
  tick_calls =
      (tick (lctx ctx store worker c) (some (logged store worker c))
        (with_calls [] s)).1.world.calls

  -- If the batches that a tick which is not draining reads are sound, and the store leaves the items
  -- and the status of a batch that it is given to write, then every batch that the tick writes is
  -- sound: at its claim, at its rollback, and after the worker, on every path.
  pub tick-WritesSound :
      s.draining ≡ false
      → c.store ≡ some store
      → c.worker ≡ some worker
      → All LeavesContent tick_calls
      → All (ReadsSound c.max_retries) tick_calls
      → All (WritesSound c.max_retries) tick_calls
  tick-WritesSound d e f l r =
      Protocol-WritesSound c.max_retries tick_calls _ (tick-Protocol ctx store worker c s d e f).0 l
        r

  -- The last call of a tick that is not draining sets an agent idle, or no call of it sets an agent
  -- busy with success and none is of the worker, whatever the worker and the store answer.
  pub tick_ends_idle :
      s.draining ≡ false
      → c.store ≡ some store
      → c.worker ≡ some worker
      → EndsBy Frees tick_calls ⊎ All (λ x. ¬ TakesAgent x) tick_calls
  tick_ends_idle d e f =
      Protocol-ends_idle c.max_retries tick_calls _ (tick-Protocol ctx store worker c s d e f).0
