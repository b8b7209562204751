-- ===== src/Worker/Messages.antt =====
-- internal/consumer/worker.go and task_helpers.go: what is read from session events, and the texts
-- of prompts and of responses.
use yaralpho.Base.{
  Bool, false, ◌&&◌, not, Option, none, some, List, [], ◌∷◌, ◌++◌, String, str_eq, if◌then◌else◌,
}
use yaralpho.Base.Text.{trim_space, join, equal_fold, ◌&◌}
use yaralpho.Storage.Models.{Value, text, object, Fields, end, field, SessionEvent}
use yaralpho.Tracker.Interface.{Comment}
use yaralpho.Worker.Env.{AgentResponse}

-- m[key], of a map[string]any.
unfoldable pub lookup : String → Fields → Option Value
lookup key end = none
lookup key (field k v rest) = if str_eq key k then some v else lookup key rest

-- The type assertions .(string) and .(map[string]any).
abbrev pub as_text : Option Value → Option String
as_text (some (text s)) = some s
as_text _ = none

abbrev pub as_object : Option Value → Option Fields
as_object (some (object fs)) = some fs
as_object _ = none

-- `isSessionIdleEvent`
unfoldable pub is_session_idle_event : Fields → Bool
unfolding lookup
is_session_idle_event evt = elim (as_text (lookup "type" evt)) [
  | none ↦ false
  | some s ↦ equal_fold s "session.idle"
]

-- The content of an assistant's message.
unfoldable pub message_content : Fields → Option String
unfolding lookup
message_content evt = elim (as_text (lookup "type" evt)) [
  | none ↦ none
  | some s ↦
      if str_eq s "assistant.message"
      then elim (as_object (lookup "data" evt)) [
        | none ↦ none
        | some payload ↦ as_text (lookup "content" payload)
      ]
      else none
]

-- `assistantMessageContents`
unfoldable pub assistant_message_contents : List SessionEvent → List String
unfolding message_content
assistant_message_contents [] = []
assistant_message_contents (e ∷ rest) =
    let later = assistant_message_contents rest in
    elim (message_content e.event) [ none ↦ later | some s ↦ s ∷ later ]

last_text : List String → String
last_text [] = ""
last_text (s ∷ []) = s
last_text (s ∷ t ∷ rest) = last_text (t ∷ rest)

-- `latestAssistantMessageContent`
unfoldable pub latest_assistant_message_content : List SessionEvent → String
unfolding assistant_message_contents last_text
latest_assistant_message_content events = last_text (assistant_message_contents events)

-- `buildPrompt`
unfoldable pub build_prompt : String → String → String
build_prompt base_prompt fallback =
    let base = trim_space base_prompt in
    let other = trim_space fallback in
    if not (str_eq base "") && not (str_eq other "")
    then base & "\n\n" & other
    else if not (str_eq base "")
    then base
    else other

comment_line : Comment → String
comment_line c = "- " & (if str_eq c.author "" then "" else c.author & ": ") & c.text & "\n"

comment_lines : List Comment → String
unfolding comment_line
comment_lines [] = ""
comment_lines (c ∷ rest) = comment_line c & comment_lines rest

-- The prompt of an execution, with the tracker's comments.
unfoldable pub with_comments : String → List Comment → String
unfolding comment_lines
with_comments prompt [] = prompt
with_comments prompt (c ∷ rest) =
    trim_space (prompt & "\n\nTracker comments:\n" & comment_lines (c ∷ rest))

labelled : String → String → List String
labelled label value =
    let trimmed = trim_space value in if str_eq trimmed "" then [] else (label & trimmed) ∷ []

response_text : List String → String → String
response_text (line ∷ rest) raw_output = join "\n" (line ∷ rest)
response_text [] raw_output =
    let raw = trim_space raw_output in
    if str_eq raw "" then "Agent response unavailable." else "Response: " & raw

-- `formatAgentResponseText`
unfoldable pub format_agent_response_text : AgentResponse → String → String
unfolding labelled response_text
format_agent_response_text response raw_output =
    response_text (labelled "Reason: " response.reason ++ labelled "Details: " response.details)
      raw_output

-- `appendDetailLine`
unfoldable pub append_detail_line : String → String → String
append_detail_line base line =
    let trimmed = trim_space line in
    if str_eq trimmed ""
    then base
    else if str_eq (trim_space base) ""
    then trimmed
    else base & "\n" & trimmed
