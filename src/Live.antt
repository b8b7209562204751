-- ===== src/Live.antt =====
-- internal/app/run_events_live_handler.go: the stream of a run's events over a websocket. `Stream` is
-- the backfill and the live loop, `Handler` what comes before them, `Order` what holds of the events
-- that are sent.
pub mod Stream
pub mod Handler
pub mod Order
mod Scenarios
