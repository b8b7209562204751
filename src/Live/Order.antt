-- ===== src/Live/Order.antt =====
-- The events that internal/app/run_events_live_handler.go sends are in the order of their times, each
-- time once.
use yaralpho.Base.{
  ◌<◌, ◌≡◌, ◌∙◌, ap, map, refl, sym, subst, inl, inr, Bool-cases, Option-cases, Bool, true, false,
  none, some, List, [], ◌∷◌, ◌++◌, Error, arith,
}
use yaralpho.Storage.Models.{SessionEvent, Time, is_zero}
use yaralpho.Live.Stream.{
  Frame, event, error, heartbeat, ping, close, Connection, Arrival, context_done, read_error, tick,
  published, subscription_closed, Position, is_after, close_frame, heartbeat_frame, send_heartbeat,
  advance, is_new, backfill, live, stream,
}

-- The events among the frames have increasing times, all after the given one.
abbrev pub IsIncreasing : Time → List Frame → Type 0
IsIncreasing t [] = Unit
IsIncreasing t (event e ∷ frames) = (t < e.ingested_at) × IsIncreasing e.ingested_at frames
IsIncreasing t (error m ∷ frames) = IsIncreasing t frames
IsIncreasing t (heartbeat c ∷ frames) = IsIncreasing t frames
IsIncreasing t (ping ∷ frames) = IsIncreasing t frames
IsIncreasing t (close code reason ∷ frames) = IsIncreasing t frames

is_after-lt : (t : Time) (e : SessionEvent) → is_after t e ≡ true → t < e.ingested_at
is_after-lt t e h = ground arith

-- A backfill that begins with an event.
abbrev pub after_event :
    {C : Type 0}
    → SessionEvent
    → List Frame × Bool × Position × C
    → List Frame × Bool × Position × C
after_event evt r = (event evt ∷ r.0, r.1, r.2, r.3)

heartbeat_frame-IsIncreasing :
    (t : Time) (frames : List Frame)
    → IsIncreasing t frames
    → IsIncreasing t (heartbeat_frame t ∷ frames)
unfolding heartbeat_frame
heartbeat_frame-IsIncreasing t frames h = elim (Bool-cases (is_zero t)) [
  | inl e ↦ rw (heartbeat_frame, e) h
  | inr e ↦ rw (heartbeat_frame, e) h
]

module _ {C : Type 0} (conn : Connection C) where
  is_new-lt : (p : Position) (e : SessionEvent) → is_new conn p e ≡ true → p.cursor < e.ingested_at
  unfolding is_new
  is_new-lt p e h = elim (Bool-cases (is_after p.cursor e)) [
    | inl a ↦ is_after-lt p.cursor e a
    | inr a ↦ let q = rw a at h in absurd (cc)
  ]

  send_heartbeat-IsIncreasing :
      (t : Time) (c : C) (frames : List Frame)
      → IsIncreasing t frames
      → IsIncreasing t ((send_heartbeat conn t c).0 ++ frames)
  unfolding send_heartbeat
  send_heartbeat-IsIncreasing t c frames h =
      elim (Option-cases (conn.write (heartbeat_frame t) c).0) [
        | inl w ↦ rw (send_heartbeat, w) (heartbeat_frame-IsIncreasing t (ping ∷ frames) h)
        | inr (x, w) ↦ rw (send_heartbeat, w) (heartbeat_frame-IsIncreasing t frames h)
      ]

  -- What a backfill from a position leaves: with increasing frames after it, all are increasing.
  abbrev Continues : Position → List Frame × Bool × Position × C → Type 0
  Continues p r =
      (frames : List Frame)
      → ((t : Time) → r.1 ≡ true → IsIncreasing t frames)
      → (r.1 ≡ false → IsIncreasing r.2.cursor frames)
      → IsIncreasing p.cursor (r.0 ++ frames)

  module _ (evt : SessionEvent) (rest : List SessionEvent) (p : Position) (c : C) where
    pub backfill_skips :
        is_after p.cursor evt ≡ false → backfill conn (evt ∷ rest) p c ≡ backfill conn rest p c
    unfolding backfill
    backfill_skips e = rw (backfill, e) refl

    backfill-failed :
        (x : Error)
        → is_after p.cursor evt ≡ true
        → (conn.write (event evt) c).0 ≡ some x
        → backfill conn (evt ∷ rest) p c ≡ (event evt ∷ [], true, p, (conn.write (event evt) c).1)
    unfolding backfill
    backfill-failed x e w = rw (backfill, e, w) refl

    pub backfill_sends :
        is_after p.cursor evt ≡ true
        → (conn.write (event evt) c).0 ≡ none
        → backfill conn (evt ∷ rest) p c
          ≡ after_event evt (backfill conn rest (advance conn evt p) (conn.write (event evt) c).1)
    unfolding backfill
    backfill_sends e w = rw (backfill, e, w) refl

  backfill-Continues :
      (events : List SessionEvent) (p : Position) (c : C) → Continues p (backfill conn events p c)
  unfolding backfill advance
  backfill-Continues [] p c = λ frames a b. b refl
  backfill-Continues (evt ∷ rest) p c = elim (Bool-cases (is_after p.cursor evt)) [
    | inr e ↦
        subst (Continues p) (sym (backfill_skips evt rest p c e)) (backfill-Continues rest p c)
    | inl e ↦ elim (Option-cases (conn.write (event evt) c).0) [
      | inl w ↦ subst (Continues p) (sym (backfill_sends evt rest p c e w)) (λ frames a b.
          (is_after-lt p.cursor evt e, backfill-Continues rest (advance conn evt p) _ frames a b))
      | inr (x, w) ↦
          subst (Continues p) (sym (backfill-failed evt rest p c x e w))
            (λ frames a b. (is_after-lt p.cursor evt e, a evt.ingested_at refl))
    ]
  ]

  module _ (evt : SessionEvent) (rest : List Arrival) (p : Position) (c : C) where
    live_skips :
        is_new conn p evt ≡ false → live conn (published evt ∷ rest) p c ≡ live conn rest p c
    unfolding live
    live_skips e = rw (live, e) refl

    live-failed :
        (x : Error)
        → is_new conn p evt ≡ true
        → (conn.write (event evt) c).0 ≡ some x
        → live conn (published evt ∷ rest) p c ≡ event evt ∷ close_frame 1001 "write failed" ∷ []
    unfolding live
    live-failed x e w = rw (live, e, w) refl

    live_sends :
        is_new conn p evt ≡ true
        → (conn.write (event evt) c).0 ≡ none
        → live conn (published evt ∷ rest) p c
          ≡ event evt ∷ live conn rest (advance conn evt p) (conn.write (event evt) c).1
    unfolding live
    live_sends e w = rw (live, e, w) refl

  live-IsIncreasing :
      (arrivals : List Arrival) (p : Position) (c : C)
      → IsIncreasing p.cursor (live conn arrivals p c)
  unfolding live close_frame advance
  live-IsIncreasing [] p c = tt
  live-IsIncreasing (context_done ∷ rest) p c = tt
  live-IsIncreasing (read_error e ∷ rest) p c = tt
  live-IsIncreasing (subscription_closed ∷ rest) p c = tt
  live-IsIncreasing (tick ∷ rest) p c = elim (Option-cases (send_heartbeat conn p.cursor c).1) [
    | inl e ↦ rw (live, e) (send_heartbeat-IsIncreasing p.cursor c _ (live-IsIncreasing rest p _))
    | inr (x, e) ↦ rw (live, e) (send_heartbeat-IsIncreasing p.cursor c _ tt)
  ]
  live-IsIncreasing (published evt ∷ rest) p c = elim (Bool-cases (is_new conn p evt)) [
    | inr e ↦
        subst (IsIncreasing p.cursor) (sym (live_skips evt rest p c e)) (live-IsIncreasing rest p c)
    | inl e ↦ elim (Option-cases (conn.write (event evt) c).0) [
      | inl w ↦
          subst (IsIncreasing p.cursor) (sym (live_sends evt rest p c e w))
            (is_new-lt p evt e, live-IsIncreasing rest (advance conn evt p) _)
      | inr (x, w) ↦
          subst (IsIncreasing p.cursor) (sym (live-failed evt rest p c x e w))
            (is_new-lt p evt e, tt)
    ]
  ]

  -- Whatever is stored and published, in whatever order, and however the writes go, the events that a
  -- stream sends have increasing times after the cursor.
  pub stream-IsIncreasing :
      (events : List SessionEvent) (arrivals : List Arrival) (cursor : Time) (c : C)
      → IsIncreasing cursor (stream conn events arrivals cursor c)
  unfolding stream close_frame
  stream-IsIncreasing events arrivals cursor c =
      let p : Position = record { cursor = cursor; seen = [] } in
      elim (Bool-cases (backfill conn events p c).1) [
        | inl e ↦
            rw (stream, e)
              (backfill-Continues events p c (close_frame 1001 "write failed during backfill" ∷ [])
                (λ t h. tt) (λ h. absurd (cc)))
        | inr e ↦
            rw (stream, e)
              (backfill-Continues events p c _ (λ t h. absurd (cc))
                (λ h.
                  live-IsIncreasing arrivals (backfill conn events p c).2
                    (backfill conn events p c).3))
      ]

  -- Stored events whose times increase from the cursor on are all sent, in their order, if the
  -- connection takes them.
  pub backfill_all :
      ((f : Frame) (c : C) → (conn.write f c).0 ≡ none)
      → (events : List SessionEvent) (p : Position) (c : C)
      → IsIncreasing p.cursor (map event events)
      → ((backfill conn events p c).0 ≡ map event events) × ((backfill conn events p c).1 ≡ false)
  unfolding backfill advance
  backfill_all takes [] p c h = (refl, refl)
  backfill_all takes (evt ∷ rest) p c (l, h) =
      let e : is_after p.cursor evt ≡ true = ground arith in
      let (a, b) = backfill_all takes rest (advance conn evt p) (conn.write (event evt) c).1 h in
      let q = backfill_sends evt rest p c e (takes (event evt) c) in
      (ap (λ r. r.0) q ∙ ap (λ fs. event evt ∷ fs) a, ap (λ r. r.1) q ∙ b)
