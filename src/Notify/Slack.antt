-- ===== src/Notify/Slack.antt =====
-- internal/notify/slack.go: `Slack`. The HTTP client and the encoding of a request are parameters;
-- the context and the logger are left out.
use yaralpho.Base.{
  ℕ, sym, ◌∙◌, ◌≤◌, ◌<◌, ◌≡◌, ◌↔◌, inl, inr, ◌||◌, Option, none, some, String, Error, message,
  Result, Result-cases, ok, err, str_eq, ltb, leb, arith, if◌then◌else◌,
}
use yaralpho.Base.Int.{ℤ, pos}
use yaralpho.Base.Text.{trim_space, itoa, ◌&◌}
use yaralpho.Settings.Load.{slack_webhook_key}
use yaralpho.Notify.Events.{Event, no_event, Notifier, noop}
use yaralpho.Notify.Texts.{text_for_event}

-- `slackPayload`
pub record Payload : Type 0 where
  pub text : String
  pub kind : String
  pub batch_id : String
  pub run_id : String
  pub task_ref : String
  pub task_name : String
  pub parent_task : String
  pub status : String
  pub details : String
  pub attempt : ℤ
  pub max_attempt : ℤ
  pub commit_hash : String
  pub error : String

-- What a request needs: the encoded body, and the answer's status code.
pub record Http (W : Type 0) : Type 0 where
  pub marshal : Payload → Result String
  pub send : String → String → W → Result ℕ × W
  pub error_text : Error → String

-- The payload that `NotifyEvent` posts.
unfoldable pub payload_of : Event → Payload
unfolding text_for_event
payload_of e = record {
  text = text_for_event e;
  kind = e.kind;
  batch_id = e.batch_id;
  run_id = e.run_id;
  task_ref = e.task_ref;
  task_name = trim_space e.task_name;
  parent_task = e.parent_task_ref;
  status = e.status;
  details = e.details;
  attempt = e.attempt;
  max_attempt = e.max_attempts;
  commit_hash = trim_space e.commit_hash;
  error = "";
}

-- The error of an answer that is not 2xx.
unfoldable pub check_status : ℕ → Option Error
check_status code =
    if ltb code 200 || leb 300 code
    then some (message ("slack webhook status " & itoa (pos code)))
    else none

-- `post`
unfoldable pub post : {W : Type 0} → Http W → String → Payload → W → Option Error × W
unfolding check_status
post http url payload w = elim (http.marshal payload) [
  | err e ↦ (some e, w)
  | ok body ↦
      let (answer, w') = http.send url body w in
      elim answer [ err e ↦ (some e, w') | ok code ↦ (check_status code, w') ]
]

-- `NotifyEvent`
unfoldable pub notify_event : {W : Type 0} → Http W → String → Event → W → Option Error × W
unfolding payload_of post
notify_event http url e w = post http url (payload_of e) w

-- `NotifyTaskFinished`, `NotifyBatchIdle`, `NotifyError`: the events that they send.
abbrev pub task_finished : String → String → String → String → String → String → Event
task_finished batch_id run_id task_ref task_name status commit_hash = record no_event {
  kind = "task_finished";
  batch_id = batch_id;
  run_id = run_id;
  task_ref = task_ref;
  task_name = task_name;
  status = status;
  commit_hash = commit_hash;
}

abbrev pub batch_idle : String → Event
batch_idle batch_id = record no_event { kind = "batch_idle"; batch_id = batch_id; status = "idle" }

abbrev pub error_event : String → String → String → String → Event
error_event batch_id run_id task_ref text = record no_event {
  kind = "error";
  batch_id = batch_id;
  run_id = run_id;
  task_ref = task_ref;
  status = "error";
  details = text;
}

unfoldable pub slack : {W : Type 0} → Http W → String → Notifier W
unfolding notify_event
slack http url = record {
  notify_event = λ k e w. notify_event http url e w;
  notify_task_finished = λ k b r t n s c w. notify_event http url (task_finished b r t n s c) w;
  notify_batch_idle = λ k b w. notify_event http url (batch_idle b) w;
  notify_error = λ k b r t e w. notify_event http url (error_event b r t (http.error_text e)) w;
}

value_or_empty : Result String → String
value_or_empty (ok s) = s
value_or_empty (err e) = ""

-- `NewSlack`; a nil configuration is `none`.
unfoldable pub new_slack :
    {W : Type 0} → Http W → Option (String → Result String) → Result (Notifier W)
unfolding value_or_empty slack
new_slack http none = err (message "config is required")
new_slack http (some get) =
    let url = trim_space (value_or_empty (get slack_webhook_key)) in
    if str_eq url "" then ok noop else ok (slack http url)

check_status-none : (code : ℕ) → (check_status code ≡ none) ↔ ((200 ≤ code) × (code < 300))
unfolding check_status
check_status-none code = ground arith

post-answered :
    {W : Type 0} (http : Http W) (url body : String) (p : Payload) (code : ℕ) (w : W)
    → http.marshal p ≡ ok body
    → (http.send url body w).0 ≡ ok code
    → (post http url p w).0 ≡ check_status code
unfolding post
post-answered http url body p code w m a = simp (post, m, a)

post-unanswered :
    {W : Type 0} (http : Http W) (url body : String) (p : Payload) (e : Error) (w : W)
    → http.marshal p ≡ ok body
    → (http.send url body w).0 ≡ err e
    → (post http url p w).0 ≡ some e
unfolding post
post-unanswered http url body p e w m a = simp (post, m, a)

post-unencoded :
    {W : Type 0} (http : Http W) (url : String) (p : Payload) (e : Error) (w : W)
    → http.marshal p ≡ err e
    → (post http url p w).0 ≡ some e
unfolding post
post-unencoded http url p e w m = simp (post, m)

-- A notification reports no error exactly when its payload is encoded, the request is answered, and
-- the answer's status is 2xx.
pub notify_event-error :
    {W : Type 0} (http : Http W) (url : String) (e : Event) (w : W)
    → ((notify_event http url e w).0 ≡ none) ↔ (
        (body : String) × (code : ℕ) × (http.marshal (payload_of e) ≡ ok body)
        × ((http.send url body w).0 ≡ ok code)
        × (200 ≤ code)
        × (code < 300))
unfolding notify_event post
notify_event-error http url e w = (
  λ h. elim (Result-cases (http.marshal (payload_of e))) [
    | inr (x, m) ↦ let q = sym (post-unencoded http url _ x w m) ∙ h in absurd (cc)
    | inl (body, m) ↦ elim (Result-cases (http.send url body w).0) [
      | inr (x, a) ↦ let q = sym (post-unanswered http url body _ x w m a) ∙ h in absurd (cc)
      | inl (code, a) ↦
          let (l, u) =
            (check_status-none code).0 (sym (post-answered http url body _ code w m a) ∙ h) in
          (body, code, m, a, l, u)
    ]
  ],
  λ (body, code, m, a, l, u).
      post-answered http url body _ code w m a ∙ (check_status-none code).1 (l, u),
)
