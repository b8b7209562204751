-- ===== src/Scheduler/Steps.antt =====
-- The branches of `Tick` of internal/scheduler/scheduler.go as equations.
use Prim.Native.String.{◌++◌ as str_append}
use yaralpho.Base.{ℕ, ◌≡◌, false, none, some, List, arith, Error, wrap, ok, err}
use yaralpho.Storage.Models.{AgentStatus, Batch, Agent}
use yaralpho.Storage.Interface.{request}
use yaralpho.Scheduler.State.{Store, State, Worker, Scheduler}
use yaralpho.Scheduler.Select.{first_idle_agent, select}
use yaralpho.Scheduler.Settle.{claim, rollback}
use yaralpho.Scheduler.Tick.{
  CtxErr, with_agent_status, run_claimed, claim_agent, claim_batch, dispatch, read_agents,
  read_batches, tick,
}

abbrev pub busy : Agent → Agent
busy = with_agent_status AgentStatus.busy

module _ {W : Type 0} (ctx : CtxErr W) (c : Scheduler W) (store : Store W) (worker : Worker W)
    (s : State W) where
  pub claim_agent-refused :
      (b : Batch) (i : ℕ) (idle : Agent) (x : Error)
      → (store.update_agent request (busy idle) s.world).0 ≡ some x
      → claim_agent ctx c store worker b i idle s ≡ (
        some (wrap (str_append "update agent " idle.id) x),
        record s {
          world =
              (store.update_batch request
                (rollback i b)
                (store.update_agent request (busy idle) s.world).2).2;
        },
      )
  unfolding claim_agent
  claim_agent-refused b i idle x e = ground arith

  pub claim_agent-ok :
      (b : Batch) (i : ℕ) (idle : Agent)
      → (store.update_agent request (busy idle) s.world).0 ≡ none
      → claim_agent ctx c store worker b i idle s
        ≡ run_claimed ctx c store worker b i
            (store.update_agent request (busy idle) s.world).1
            (record s { world = (store.update_agent request (busy idle) s.world).2 })
  unfolding claim_agent
  claim_agent-ok b i idle e = ground arith

  pub claim_batch-refused :
      (b : Batch) (i : ℕ) (idle : Agent) (x : Error)
      → (store.update_batch request (claim i b) s.world).0 ≡ some x
      → claim_batch ctx c store worker b i idle s ≡ (
        some (
            wrap
              (str_append "update batch " (store.update_batch request (claim i b) s.world).1.id)
              x),
        record s { world = (store.update_batch request (claim i b) s.world).2 },
      )
  unfolding claim_batch
  claim_batch-refused b i idle x e = ground arith

  pub claim_batch-ok :
      (b : Batch) (i : ℕ) (idle : Agent)
      → (store.update_batch request (claim i b) s.world).0 ≡ none
      → claim_batch ctx c store worker b i idle s
        ≡ claim_agent ctx c store worker
            (store.update_batch request (claim i b) s.world).1
            i
            idle
            (record s { world = (store.update_batch request (claim i b) s.world).2 })
  unfolding claim_batch
  claim_batch-ok b i idle e = ground arith

  pub dispatch-no_agent :
      (bs : List Batch) (ags : List Agent)
      → first_idle_agent ags ≡ none
      → dispatch ctx c store worker bs ags s ≡ (none, s)
  unfolding dispatch
  dispatch-no_agent bs ags e = ground arith

  pub dispatch-no_batch :
      (bs : List Batch) (ags : List Agent)
      → select bs ≡ none
      → dispatch ctx c store worker bs ags s ≡ (none, s)
  unfolding dispatch
  dispatch-no_batch bs ags e = ground arith

  pub dispatch-some :
      (bs : List Batch) (ags : List Agent) (a : Agent) (b : Batch) (i : ℕ)
      → first_idle_agent ags ≡ some a
      → select bs ≡ some (b, i)
      → dispatch ctx c store worker bs ags s ≡ claim_batch ctx c store worker b i a s
  unfolding dispatch
  dispatch-some bs ags a b i e f = ground arith

  pub read_agents-err :
      (bs : List Batch) (x : Error)
      → (store.list_agents request s.world).0 ≡ err x
      → read_agents ctx c store worker bs s
        ≡ (some (wrap "list agents" x), record s { world = (store.list_agents request s.world).1 })
  unfolding read_agents
  read_agents-err bs x e = ground arith

  pub read_agents-ok :
      (bs : List Batch) (ags : List Agent)
      → (store.list_agents request s.world).0 ≡ ok ags
      → read_agents ctx c store worker bs s
        ≡ dispatch ctx c store worker bs ags
            (record s { world = (store.list_agents request s.world).1 })
  unfolding read_agents
  read_agents-ok bs ags e = ground arith

  pub read_batches-err :
      (x : Error)
      → (store.list_batches request 0 s.world).0 ≡ err x
      → read_batches ctx c store worker s ≡ (
        some (wrap "list batches" x),
        record s { world = (store.list_batches request 0 s.world).1 },
      )
  unfolding read_batches
  read_batches-err x e = ground arith

  pub read_batches-ok :
      (bs : List Batch)
      → (store.list_batches request 0 s.world).0 ≡ ok bs
      → read_batches ctx c store worker s
        ≡ read_agents ctx c store worker bs
            (record s { world = (store.list_batches request 0 s.world).1 })
  unfolding read_batches
  read_batches-ok bs e = ground arith

  pub tick-eq :
      s.draining ≡ false
      → c.store ≡ some store
      → c.worker ≡ some worker
      → tick ctx (some c) s ≡ read_batches ctx c store worker s
  unfolding tick
  tick-eq d e f = ground arith
