-- ===== src/Notify/Scenarios.antt =====
-- A webhook that answers 200, and the theorem about internal/notify/slack.go applied to it.
use yaralpho.Base.{ℕ, ◌≤◌, ◌<◌, ◌≡◌, ◌↔◌, refl, none, String, ok}
use yaralpho.Base.Int.{pos}
use yaralpho.Base.Text.{itoa, join, trim_space}
use yaralpho.Notify.Events.{Event, no_event}
use yaralpho.Notify.Texts.{text_for_event}
use yaralpho.Notify.Slack.{Http, payload_of, notify_event, notify_event-error}

abbrev webhook : Http ℕ
webhook = record {
  marshal = λ p. ok p.text;
  send = λ url body w. (ok 200, w);
  error_text = λ e. "error";
}

abbrev finished : Event
finished = record no_event {
  kind = "task_finished";
  batch_id = "b-1";
  task_ref = "issue-1";
  task_name = "A task";
  status = "succeeded";
}

text_for_event_test :
    text_for_event finished ≡ "[task_finished] batch=b-1 | task=issue-1 (A task) | status=succeeded"
unfolding text_for_event trim_space join
text_for_event_test = refl

retrying_test :
    text_for_event
      (record finished { kind = "verification_failed"; attempt = pos 1; max_attempts = pos 5 })
    ≡ "[verification_failed] batch=b-1 | task=issue-1 (A task) | status=succeeded | attempt=1/5"
unfolding text_for_event trim_space join itoa
retrying_test = refl

notify_event-error_example : ((notify_event webhook "https://hook" finished 0).0 ≡ none) ↔ (
    (body : String) × (code : ℕ) × (webhook.marshal (payload_of finished) ≡ ok body)
    × ((webhook.send "https://hook" body 0).0 ≡ ok code)
    × (200 ≤ code)
    × (code < 300))
notify_event-error_example = notify_event-error webhook "https://hook" finished 0
