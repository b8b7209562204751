-- ===== src/Notify/Texts.antt =====
-- internal/notify/slack.go: the texts of the messages.
use yaralpho.Base.{Bool, ◌||◌, List, [], ◌∷◌, ◌++◌, String, str_eq, if◌then◌else◌}
use yaralpho.Base.Int.{pos, leb_ℤ, ltb_ℤ}
use yaralpho.Base.Text.{trim_space, itoa, join, ◌&◌}
use yaralpho.Notify.Events.{Event}

-- `formatTaskName`
unfoldable pub format_task_name : String → String
format_task_name name =
    let trimmed = trim_space name in if str_eq trimmed "" then "" else " (" & trimmed & ")"

-- "attempt=n", and the maximum where there is one.
unfoldable pub attempt_text : Event → String
attempt_text e =
    if ltb_ℤ (pos 0) e.max_attempts
    then "attempt=" & itoa e.attempt & "/" & itoa e.max_attempts
    else "attempt=" & itoa e.attempt

-- `formatAttempt`
unfoldable pub format_attempt : Event → String
unfolding attempt_text
format_attempt e = if leb_ℤ e.attempt (pos 0) then "" else attempt_text e

-- A part of a message, which an empty value leaves out.
unfoldable pub part : String → String → String → List String
part before value after = if str_eq value "" then [] else (before & value & after) ∷ []

-- The parts that the messages on an attempt share.
unfoldable pub attempt_parts : Event → List String
unfolding format_task_name format_attempt part
attempt_parts e =
    ("["
        & e.kind
        & "] batch="
        & e.batch_id
        & " | task="
        & e.task_ref
        & format_task_name e.task_name)
      ∷ part "parent=" e.parent_task_ref ""
    ++ part "run=" e.run_id ""
    ++ part "status=" e.status ""
    ++ part "" (format_attempt e) ""

-- The parts of the message on a finished task.
unfoldable pub finished_parts : Event → List String
unfolding format_task_name part
finished_parts e =
    ("[task_finished] batch=" & e.batch_id) ∷ part "task=" e.task_ref (format_task_name e.task_name)
    ++ part "status=" e.status ""
    ++ (if str_eq e.commit_hash "" then [] else ("commit=" & trim_space e.commit_hash) ∷ [])

-- The parts of any other message.
unfoldable pub default_parts : Event → List String
unfolding attempt_text part
default_parts e =
    part "[" e.kind "]"
    ++ part "batch=" e.batch_id ""
    ++ part "run=" e.run_id ""
    ++ part "task=" e.task_ref ""
    ++ part "parent=" e.parent_task_ref ""
    ++ part "status=" e.status ""
    ++ (if ltb_ℤ (pos 0) e.attempt then attempt_text e ∷ [] else [])
    ++ part "details=" e.details ""
    ++ (if str_eq e.commit_hash "" then [] else ("commit=" & trim_space e.commit_hash) ∷ [])

unfoldable pub is_verification : String → Bool
is_verification kind =
    str_eq kind "verification_succeeded"
    || str_eq kind "verification_failed"
    || str_eq kind "verification_failed_retrying"
    || str_eq kind "verification_failed_max_retries"

-- `textForEvent`
unfoldable pub text_for_event : Event → String
unfolding format_task_name attempt_parts finished_parts default_parts is_verification
text_for_event e =
    if str_eq e.kind "task_received"
    then "[task_received] batch="
      & e.batch_id
      & " | task="
      & e.task_ref
      & format_task_name e.task_name
      & " | status="
      & e.status
    else if str_eq e.kind "task_started"
    then "[task_started] batch="
      & e.batch_id
      & " | start batch for task "
      & e.task_ref
      & format_task_name e.task_name
    else if str_eq e.kind "attempt_started"
    then join " | " (attempt_parts e)
    else if str_eq e.kind "task_finished"
    then join " | " (finished_parts e)
    else if str_eq e.kind "batch_idle"
    then "[batch_idle] batch=" & e.batch_id & " | status=" & e.status
    else if is_verification e.kind
    then (let base = join " | " (attempt_parts e) in
        if str_eq (trim_space e.details) "" then base else base & "\n" & e.details)
    else join " | " (default_parts e)
