-- ===== src/App/Agents.antt =====
-- internal/app/agent_handlers.go.
use Prim.Native.String.{◌++◌ as str_append}
use yaralpho.Base.{Bool, ◌||◌, not, Option, none, some, String, Error, str_eq, if◌then◌else◌}
use yaralpho.Base.Text.{trim_space, to_lower, format_int}
use yaralpho.Storage.Models.{Agent, AgentStatus, Time, is_busy}
use yaralpho.Storage.Interface.{Storage, request}
use yaralpho.App.Http.{
  Response, Handler, empty, agent, agents, write_json, write_error, write_storage_error,
  equals_no_documents, equals_conflict, after_read, after_write,
}

pub record AgentRequest : Type 0 where
  pub name : String
  pub runtime : String

-- `isValidAgentRuntime`
unfoldable pub is_valid_runtime : String → Bool
is_valid_runtime t = str_eq t "codex" || str_eq t "copilot"

-- `strings.TrimSpace` of both fields, and the runtime in lower case.
unfoldable pub normalize : AgentRequest → AgentRequest
normalize req = record { name = trim_space req.name; runtime = to_lower (trim_space req.runtime) }

unfoldable pub missing : Error → Response
unfolding write_storage_error
missing e = if equals_no_documents e then write_error 404 "not found" else write_storage_error e

unfoldable pub conflicting : Error → Response
unfolding write_storage_error
conflicting e =
    if equals_conflict e then write_error 409 "agent already exists" else write_storage_error e

-- The checks of a body that create and update share, and what goes on with an accepted request.
unfoldable pub with_request :
    {W : Type 0} → Option AgentRequest → (AgentRequest → Handler W) → Handler W
unfolding is_valid_runtime normalize
with_request none next w = (write_error 400 "invalid json", w)
with_request (some body) next w =
    let req = normalize body in
    if str_eq req.name ""
    then (write_error 400 "name is required", w)
    else if not (is_valid_runtime req.runtime)
    then (write_error 400 "invalid agent type", w)
    else next req w

-- `listAgentsHandler`
unfoldable pub list_agents : {W : Type 0} → Storage W → Handler W
unfolding write_storage_error
list_agents st w =
    after_read (st.list_agents request w) write_storage_error
      λ l w'. (write_json 200 (agents l), w')

unfoldable pub new_agent : Time → AgentRequest → Agent
unfolding format_int
new_agent now req = record {
  id = str_append "agent-" (format_int now);
  name = req.name;
  runtime = req.runtime;
  status = AgentStatus.idle;
  created_at = now;
  updated_at = now;
}

insert_agent : {W : Type 0} → Storage W → Time → AgentRequest → Handler W
unfolding new_agent conflicting
insert_agent st now req w =
    after_write (st.create_agent request (new_agent now req) w) conflicting
      λ a w'. (write_json 201 (agent a), w')

-- `createAgentHandler`
unfoldable pub create_agent : {W : Type 0} → Storage W → Time → Option AgentRequest → Handler W
unfolding with_request insert_agent
create_agent st now body w = with_request body (insert_agent st now) w

-- `getAgentHandler`
unfoldable pub get_agent : {W : Type 0} → Storage W → String → Handler W
unfolding missing
get_agent st id w =
    after_read (st.get_agent request id w) missing λ a w'. (write_json 200 (agent a), w')

save_agent : {W : Type 0} → Storage W → Time → Agent → AgentRequest → Handler W
unfolding conflicting
save_agent st now existing req w =
    after_write
      (st.update_agent request
        (record existing { name = req.name; runtime = req.runtime; updated_at = now }) w)
      conflicting λ a w'. (write_json 200 (agent a), w')

-- The update once the agent is read.
unfoldable pub change_agent :
    {W : Type 0} → Storage W → Time → Option AgentRequest → Agent → Handler W
unfolding with_request save_agent
change_agent st now body existing w =
    if is_busy existing.status
    then (write_error 409 "agent is busy", w)
    else with_request body (save_agent st now existing) w

-- `updateAgentHandler`
unfoldable pub update_agent :
    {W : Type 0} → Storage W → Time → String → Option AgentRequest → Handler W
unfolding missing change_agent
update_agent st now id body w =
    after_read (st.get_agent request id w) missing (change_agent st now body)

unfoldable pub remove_agent : {W : Type 0} → Storage W → String → Agent → Handler W
unfolding write_storage_error
remove_agent st id existing w =
    if is_busy existing.status
    then (write_error 409 "agent is busy", w)
    else let (e, w') = st.delete_agent request id w in
      elim e [ some x ↦ (write_storage_error x, w') | none ↦ (write_json 204 empty, w') ]

-- `deleteAgentHandler`
unfoldable pub delete_agent : {W : Type 0} → Storage W → String → Handler W
unfolding missing remove_agent
delete_agent st id w = after_read (st.get_agent request id w) missing (remove_agent st id)
