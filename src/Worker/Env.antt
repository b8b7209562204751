-- ===== src/Worker/Env.antt =====
-- What internal/consumer calls: the configuration, the tracker, the store, the notifier, the event
-- bus, the clock, the agents' clients (internal/copilot/interface.go) and three library functions. A
-- nil configuration, tracker or store, which a work item cannot be processed with, is left out.
use yaralpho.Base.{Option, none, some, List, [], String, Error, Result}
use yaralpho.Base.Int.{ℤ}
use yaralpho.Storage.Models.{Fields, SessionEvent, Time}
use yaralpho.Storage.Interface.{Storage}
use yaralpho.Notify.Events.{Notifier}
use yaralpho.Tracker.Interface.{Tracker}

-- What the worker puts into a context: the two values under its keys, and the timeouts of
-- context.WithTimeout, the innermost first.
pub record Context : Type 0 where
  pub phase : Option String
  pub timeout : Option ℤ
  pub deadlines : List ℤ

-- How the arrivals at the event loop end: the channel is closed, or the context is done.
pub data Ending : Type 0 where
  closed : Ending
  done : Error → Ending

-- A session of an agent: its id, and what the select of the event loop receives.
pub record AgentSession : Type 0 where
  pub id : String
  pub events : List Fields
  pub ending : Ending

-- copilot.Client: the prompt and the repository's path start a session; `stop` ends it.
pub record Client (W : Type 0) : Type 0 where
  pub start_session : Context → String → String → W → Result AgentSession × W
  pub stop : AgentSession → W → W

-- `AgentStructuredResponse`
pub record AgentResponse : Type 0 where
  pub status : String
  pub reason : String
  pub details : String

abbrev pub no_response : AgentResponse
no_response = record { status = ""; reason = ""; details = "" }

-- `bus` is Publish of the session event bus, if there is one; `sprintf` is fmt.Sprintf of a
-- configured text with one argument, `quote` its %q; `unmarshal` is json.Unmarshal into an empty
-- `AgentStructuredResponse`: what it leaves there, and its error.
pub record Env (W : Type 0) : Type 0 where
  pub cfg : String → Result String
  pub tracker : Tracker W
  pub storage : Storage W
  pub notifier : Notifier W
  pub bus : Option (String → SessionEvent → W → Option Error × W)
  pub now : W → Time × W
  pub new_run_id : W → String × W
  pub new_codex : W → Client W × W
  pub new_github : W → Client W × W
  pub parse_duration : String → Result ℤ
  pub sprintf : String → String → String
  pub quote : String → String
  pub unmarshal : String → AgentResponse × Option Error

-- What a `Worker` keeps between items (the map of titles, with the latest entry first, and the
-- clients it has), over the world.
pub record State (W : Type 0) : Type 0 where
  pub titles : List (String × String)
  pub codex_client : Option (Client W)
  pub github_client : Option (Client W)
  pub world : W

-- `NewWorker`, of its own state.
unfoldable pub new_worker : {W : Type 0} → Env W → Option (Client W) → W → State W
new_worker env (some client) w = record {
  titles = [];
  codex_client = some client;
  github_client = none;
  world = w;
}
new_worker env none w =
    let (client, w') = env.new_codex w in
    record { titles = []; codex_client = some client; github_client = none; world = w' }
