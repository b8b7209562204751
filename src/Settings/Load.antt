-- ===== src/Settings/Load.antt =====
-- internal/config/config.go. A map of strings is a function. The environment (os.LookupEnv), the file
-- (os.ReadFile) and the JSON decoder are arguments. The logger's messages are left out.
use Prim.Native.String.{◌++◌ as str_append}
use yaralpho.Base.{
  Bool, true, false, Option, none, some, List, [], ◌∷◌, String, Error, wrap, Result, ok, err,
  message, str_eq, if◌then◌else◌,
}
use yaralpho.Base.Text.{trim_space}

-- map[string]string
abbrev pub Values : Type 0
Values = String → Option String

abbrev pub mongo_uri_key : String
mongo_uri_key = "YARALPHO_MONGODB_URI"

abbrev pub mongo_db_key : String
mongo_db_key = "YARALPHO_MONGODB_DB"

abbrev pub repo_path_key : String
repo_path_key = "YARALPHO_REPO_PATH"

abbrev pub port_key : String
port_key = "YARALPHO_PORT"

abbrev pub slack_webhook_key : String
slack_webhook_key = "YARALPHO_SLACK_WEBHOOK_URL"

abbrev pub max_retries_key : String
max_retries_key = "YARALPHO_MAX_RETRIES"

abbrev pub scheduler_interval_key : String
scheduler_interval_key = "YARALPHO_SCHEDULER_INTERVAL"

abbrev pub restart_wait_timeout_key : String
restart_wait_timeout_key = "YARALPHO_RESTART_WAIT_TIMEOUT"

abbrev pub execution_task_prompt_key : String
execution_task_prompt_key = "YARALPHO_EXECUTION_TASK_PROMPT"

abbrev pub verification_task_prompt_key : String
verification_task_prompt_key = "YARALPHO_VERIFICATION_TASK_PROMPT"

abbrev pub task_run_timeout_key : String
task_run_timeout_key = "YARALPHO_TASK_RUN_TIMEOUT"

abbrev pub task_exec_timeout_key : String
task_exec_timeout_key = "YARALPHO_TASK_EXEC_TIMEOUT"

abbrev pub task_verify_timeout_key : String
task_verify_timeout_key = "YARALPHO_TASK_VERIFY_TIMEOUT"

abbrev pub config_path_override : String
config_path_override = "RALPH_CONFIG"

abbrev pub default_config_path : String
default_config_path = "config.json"

abbrev pub default_execution_task_prompt : String
default_execution_task_prompt =
    "\nYou are an execution agent. No human will answer questions. Finish the task end-to-end.\n\nEnvironment: shell access is available; use bd CLI for tracking.\n\nProtocol (do not skip steps):\n1) Read the task (and related tasks/epics if referenced) to understand scope/acceptance. If anything is missing, say exactly what is missing and stop.\n2) Write a short execution plan with concrete steps + planned verification.\n3) Claim the task: ensure status is in_progress (run 'bd update <id> --status in_progress' unless already in that state).\n4) Gather only needed context (code/docs).\n5) Implement changes.\n6) Verification: run the relevant tests/checks; state what \"done\" means and show command outputs.\n\n7) Git hygiene before finalizing:\n   - ensure 'git status' clean before commit\n   - commit message must mention the task ID/name\n   - avoid committing build caches, large data, secrets, temp files\n\n8) Finalization sequence (run in order):\n   - 'git pull --rebase'\n   - 'bd sync'\n   - 'git push'\n   - confirm 'git status' reports \"up to date with origin\"\n\n9) Close the task ONLY IF implementation and verification are complete and push succeeded:\n   - run 'bd close <id>'\n   - confirm it succeeded\n   - if not complete, leave open and state what is pending/blocking\n\n10) Report concisely: what changed, tests run/results, git status, whether 'bd close' executed (or why not).\n\nRules:\n- Prefer correctness over speed; explain any deviations.\n- If blocked (missing access, failing tests you cannot fix), stop and state the block clearly.\n- Use staff-software-engineer for code; frontend-engineer for UI work.\n- Never end the session with unpushed commits; only close when truly done.\n\n\nTask to execute: %s\n\n"

abbrev pub default_verification_task_prompt : String
default_verification_task_prompt =
    "\nYou are a verification agent. Verify the work of another coding agent and report a single JSON result.\n\nChecks (stop at first failure; otherwise continue):\n1) Working tree clean: run git status --short. If any tracked or untracked files appear, output:\n   {\n     \"status\": \"failure\",\n     \"reason\": \"working_tree_not_clean\",\n     \"details\": \"Brief list of files and changes (escape quotes/backslashes)\"\n   }\n\n2) Task closed: confirm the task is marked closed in the tracker. If not closed, output:\n   {\n     \"status\": \"failure\",\n     \"reason\": \"task_not_closed\",\n     \"details\": \"Current task status\"\n   }\n\n3) Commit requirement and last commit:\n   - Get last commit: git log -1 --oneline (hash and message).\n   - If the message mentions the task name/ID, summarize the last commit in plain words (no bullets) and output:\n     {\n       \"status\": \"success\",\n       \"reason\": \"<last commit hash>\",\n       \"details\": \"<plain summary, escape quotes/backslashes>\"\n     }\n   - If it does NOT mention the task:\n     * Read the task description. If the task required code/config/doc changes and no commit references it, output:\n       {\n         \"status\": \"failure\",\n         \"reason\": \"commit_missing\",\n         \"details\": \"Task needs commit but none references it\"\n       }\n     * If the task did not require a commit (pure verification/admin), output:\n       {\n         \"status\": \"success\",\n         \"reason\": \"no_commit_required\",\n         \"details\": \"Task completed without commit\"\n       }\n\nRules:\n- Final assistant message must be exactly one JSON object, no code fences, no extra text.\n- Escape JSON specials: replace \" with \\\", \\ with \\\\, newlines with \\n.\n- Do not include Markdown. No extra keys. No trailing commas.\n\nTask name: %s\n\t"

abbrev pub required_keys : List String
required_keys = mongo_uri_key ∷ mongo_db_key ∷ repo_path_key ∷ port_key ∷ []

abbrev pub env_override_keys : List String
env_override_keys =
    mongo_uri_key ∷ mongo_db_key ∷ repo_path_key ∷ port_key ∷ slack_webhook_key ∷ max_retries_key
    ∷ scheduler_interval_key ∷ restart_wait_timeout_key ∷ execution_task_prompt_key
    ∷ verification_task_prompt_key ∷ task_run_timeout_key ∷ task_exec_timeout_key
    ∷ task_verify_timeout_key ∷ []

-- The defaults of `LoadWithPath`, in its order.
abbrev pub defaults : List (String × String)
defaults =
    (port_key, "8080")
    ∷ (max_retries_key, "5")
    ∷ (scheduler_interval_key, "10s")
    ∷ (restart_wait_timeout_key, "20m")
    ∷ (task_run_timeout_key, "1h")
    ∷ (task_exec_timeout_key, "1h")
    ∷ (task_verify_timeout_key, "1h")
    ∷ (execution_task_prompt_key, default_execution_task_prompt)
    ∷ (verification_task_prompt_key, default_verification_task_prompt)
    ∷ []

-- A text that is more than white space, trimmed.
unfoldable pub nonblank : Option String → Option String
nonblank none = none
nonblank (some s) = let t = trim_space s in if str_eq t "" then none else some t

-- `lookupEnv`
unfoldable pub lookup_env : Values → String → Option String
unfolding nonblank
lookup_env env key = nonblank (env key)

-- values[key] = val
unfoldable pub put : String → String → Values → Values
put key val values k = if str_eq key k then some val else values k

-- strings.TrimSpace(values[key]) == "", also for a missing key.
unfoldable pub is_unset : Values → String → Bool
unfolding nonblank
is_unset values key = elim (nonblank (values key)) [ none ↦ true | some s ↦ false ]

-- The loop that seeds the values from the file.
unfoldable pub seed : Values → Values
unfolding nonblank
seed json k = nonblank (json k)

-- The loop that lets the environment override.
unfoldable pub override : Values → List String → Values → Values
unfolding lookup_env put
override env [] values = values
override env (key ∷ rest) values = elim (lookup_env env key) [
  | some val ↦ override env rest (put key val values)
  | none ↦ override env rest values
]

-- The `if`s that set the defaults.
unfoldable pub set_defaults : List (String × String) → Values → Values
unfolding is_unset put
set_defaults [] values = values
set_defaults (d ∷ rest) values =
    set_defaults rest (if is_unset values d.0 then put d.0 d.1 values else values)

-- `missingKeys`
unfoldable pub missing_keys : Values → List String → List String
unfolding is_unset
missing_keys values [] = []
missing_keys values (key ∷ rest) =
    let later = missing_keys values rest in if is_unset values key then key ∷ later else later

-- The outcome of reading a file: the data, no such file, or another error.
pub data FileRead : Type 0 where
  contents : String → FileRead
  not_exist : FileRead
  failed : Error → FileRead

abbrev pub no_values : Values
no_values k = none

-- `loadJSON`
unfoldable pub load_json : (String → FileRead) → (String → Result Values) → String → Result Values
load_json read_file unmarshal path =
    if str_eq (trim_space path) "" then ok no_values else elim (read_file path) [
      | not_exist ↦ ok no_values
      | failed e ↦ err (wrap "read config file" e)
      | contents text ↦ elim (unmarshal text) [
        | ok parsed ↦ ok parsed
        | err e ↦ err (wrap "parse config file" e)
      ]
    ]

or_trimmed : Option String → String → String
or_trimmed none path = trim_space path
or_trimmed (some p) path = p

-- The path that the file is read from.
unfoldable pub config_path : Values → String → String
unfolding lookup_env or_trimmed
config_path env path =
    let given = or_trimmed (lookup_env env config_path_override) path in
    if str_eq given "" then default_config_path else given

-- The values of a configuration, from the environment and what the file holds.
unfoldable pub resolve : Values → Values → Values
unfolding seed override set_defaults
resolve env json = set_defaults defaults (override env env_override_keys (seed json))

-- The outcome of `LoadWithPath`: a configuration, an error, or the panic on keys that are missing.
pub data Loaded : Type 0 where
  loaded : Values → Loaded
  load_error : Error → Loaded
  panics : List String → Loaded

unfoldable pub check_required : Values → List String → Loaded
check_required values [] = loaded values
check_required values (key ∷ rest) = panics (key ∷ rest)

-- `LoadWithPath`
unfoldable pub load_with_path :
    (String → FileRead) → (String → Result Values) → Values → String → Loaded
unfolding load_json config_path resolve missing_keys check_required
load_with_path read_file unmarshal env path =
    elim (load_json read_file unmarshal (config_path env path)) [
      | err e ↦ load_error e
      | ok json ↦
          let values = resolve env json in check_required values (missing_keys values required_keys)
    ]

abbrev pub not_found : String → Error
not_found key = message (str_append (str_append "config key " key) " not found")

-- `mapConfig.Get`
unfoldable pub get : Values → String → Result String
unfolding is_unset
get values key = elim (values key) [
  | none ↦ err (not_found key)
  | some val ↦ if is_unset values key then err (not_found key) else ok val
]
