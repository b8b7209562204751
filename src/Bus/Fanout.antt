-- ===== src/Bus/Fanout.antt =====
-- `Publish` of internal/bus/memory_bus.go over all the subscribers of a session.
use yaralpho.Base.{
  ℕ, Error, ◌≡◌, refl, sym, subst, ◌∙◌, ◌≢◌, ◌⊎◌, inl, inr, arith, true, Option, none, some, List,
  [], ◌∷◌, String, All, All-set, All-get_elem?, Option-cases, set, get_elem?, get_elem?-set_ne,
  get_elem?-set_self, get_elem?-some_lt,
}
use yaralpho.Storage.Models.{SessionEvent}
use yaralpho.Bus.State.{Bus, Subscriber, SlowPolicy, BusError, has_room}
use yaralpho.Bus.Subscribe.{snapshot}
use yaralpho.Bus.Publish.{
  Env, Sent, sent, waits, Published, finished, waiting, publish, publish_loop,
  publish_to_subscriber, first_error,
}
use yaralpho.Bus.Delivery.{Delivered, publish_to_subscriber-delivers}
use yaralpho.Bus.Fits.{Fits, Bounded, IsOpen, publish_to_subscriber-Bounded}

-- The bus that a call leaves.
unfoldable pub bus_after : Published → Bus
bus_after (finished e b) = b
bus_after (waiting e ids b) = b

pub Sent-cases :
    (r : Sent)
    → ((s : Subscriber) × (r ≡ waits s))
      ⊎ ((e : Option BusError) × (s : Subscriber) × (r ≡ sent e s))
Sent-cases (waits s) = inl (s, refl)
Sent-cases (sent e s) = inr (e, s, refl)

-- The steps of the loop.
module _ (env : Env) (evt : SessionEvent) (id : ℕ) (rest : List ℕ) (first : Option BusError)
    (b : Bus) where
  pub loop-gone :
      get_elem? b.heap id ≡ none
      → publish_loop env evt (id ∷ rest) first b ≡ publish_loop env evt rest first b
  unfolding publish_loop
  loop-gone h = rw (publish_loop, h) refl

  pub loop-waits :
      (s t : Subscriber)
      → get_elem? b.heap id ≡ some s
      → publish_to_subscriber b.cfg.slow_policy env evt s ≡ waits t
      → publish_loop env evt (id ∷ rest) first b
        ≡ waiting first (id ∷ rest) (record b { heap = set b.heap id t })
  unfolding publish_loop
  loop-waits s t h r = rw (publish_loop, h, r) refl

  pub loop-sent :
      (s t : Subscriber) (e : Option BusError)
      → get_elem? b.heap id ≡ some s
      → publish_to_subscriber b.cfg.slow_policy env evt s ≡ sent e t
      → publish_loop env evt (id ∷ rest) first b
        ≡ publish_loop env evt rest (first_error first e) (record b { heap = set b.heap id t })
  unfolding publish_loop
  loop-sent s t e h r = rw (publish_loop, h, r) refl

module _ (env : Env) (session : String) (evt : SessionEvent) (b : Bus) where
  pub publish-runs :
      env.ctx_err ≡ none
      → publish env session evt b ≡ publish_loop env evt (snapshot b session) none b
  unfolding publish
  publish-runs e = ground arith

  pub publish-done :
      (x : Error)
      → env.ctx_err ≡ some x
      → publish env session evt b ≡ finished (some (BusError.context x)) b
  unfolding publish
  publish-done x e = ground arith

-- What a publication keeps: the configuration, the buckets, and buffers that fit.
unfoldable pub Keeps : Bus → Bus → Type 0
Keeps b c = (c.cfg ≡ b.cfg) × (c.subs ≡ b.subs) × All Fits c.heap

Keeps-trans : (b c d : Bus) → Keeps b c → Keeps c d → Keeps b d
unfolding Keeps
Keeps-trans b c d (p, q, r) (s, t, u) = (s ∙ p, t ∙ q, u)

pub sent-Fits :
    (env : Env) (evt : SessionEvent) (p : SlowPolicy) (s t : Subscriber) (e : Option BusError)
    → Fits s
    → publish_to_subscriber p env evt s ≡ sent e t
    → Fits t
unfolding Bounded
sent-Fits env evt p s t e f h = subst Bounded h (publish_to_subscriber-Bounded p env evt s f)

waiting-Fits :
    (env : Env) (evt : SessionEvent) (p : SlowPolicy) (s t : Subscriber)
    → Fits s
    → publish_to_subscriber p env evt s ≡ waits t
    → Fits t
unfolding Bounded
waiting-Fits env evt p s t f h = subst Bounded h (publish_to_subscriber-Bounded p env evt s f)

pub loop-Keeps :
    (env : Env) (evt : SessionEvent) (ids : List ℕ) (first : Option BusError) (b : Bus)
    → All Fits b.heap
    → Keeps b (bus_after (publish_loop env evt ids first b))
unfolding Keeps bus_after publish_loop
loop-Keeps env evt [] first b f = (refl, refl, f)
loop-Keeps env evt (id ∷ rest) first b f = elim (Option-cases (get_elem? b.heap id)) [
  | inl h ↦ rw (loop-gone env evt id rest first b h) (loop-Keeps env evt rest first b f)
  | inr (s, h) ↦ elim (Sent-cases (publish_to_subscriber b.cfg.slow_policy env evt s)) [
    | inl (t, r) ↦ rw (loop-waits env evt id rest first b s t h r) (
      refl,
      refl,
      All-set Fits b.heap id t f
          (waiting-Fits env evt _ s t (All-get_elem? Fits b.heap id s f h) r),
    )
    | inr (e, t, r) ↦ rw (loop-sent env evt id rest first b s t e h r) (
        loop-Keeps env evt rest (first_error first e) (record b { heap = set b.heap id t })
          (All-set Fits b.heap id t f
            (sent-Fits env evt _ s t e (All-get_elem? Fits b.heap id s f h) r)))
  ]
]

-- A publication, finished or waiting, leaves the configuration and the buckets as they were and no
-- buffer over its capacity, when none was over it before.
pub publish-Keeps :
    (env : Env) (session : String) (evt : SessionEvent) (b : Bus)
    → All Fits b.heap
    → Keeps b (bus_after (publish env session evt b))
unfolding publish Keeps bus_after
publish-Keeps env session evt b f = elim (Option-cases env.ctx_err) [
  | inl e ↦ rw (publish-runs env session evt b e) (loop-Keeps env evt (snapshot b session) none b f)
  | inr (x, e) ↦ rw (publish-done env session evt b x e) (refl, refl, f)
]

-- Distinct members.
unfoldable pub Distinct : List ℕ → Type 0
Distinct [] = Unit
Distinct (x ∷ xs) = All (λ y. x ≢ y) xs × Distinct xs

-- The subscriber is there, open, and has room.
unfoldable pub IsReady : List Subscriber → ℕ → Type 0
IsReady heap id = (s : Subscriber) × (get_elem? heap id ≡ some s) × IsOpen s × (has_room s ≡ true)

-- The subscriber is one that got the event.
pub IsServed : SessionEvent → List Subscriber → List Subscriber → ℕ → Type 0
IsServed evt before after id =
    (s : Subscriber) × (t : Subscriber) × (get_elem? before id ≡ some s)
    × (get_elem? after id ≡ some t)
    × Delivered evt s t

IsReady-set :
    (heap : List Subscriber) (id : ℕ) (t : Subscriber) (ids : List ℕ)
    → All (λ y. id ≢ y) ids
    → All (IsReady heap) ids
    → All (IsReady (set heap id t)) ids
unfolding IsReady
IsReady-set heap id t [] d r = tt
IsReady-set heap id t (x ∷ ids) (n, d) ((s, g, o, room), r) =
    ((s, get_elem?-set_ne heap id x t n ∙ g, o, room), IsReady-set heap id t ids d r)

-- The loop leaves alone who is not in the list.
loop-apart :
    (env : Env) (evt : SessionEvent) (ids : List ℕ) (first : Option BusError) (b : Bus) (id : ℕ)
    → All (λ y. id ≢ y) ids
    → get_elem? (bus_after (publish_loop env evt ids first b)).heap id ≡ get_elem? b.heap id
unfolding publish_loop bus_after
loop-apart env evt [] first b id d = refl
loop-apart env evt (x ∷ rest) first b id (n, d) = elim (Option-cases (get_elem? b.heap x)) [
  | inl h ↦ rw (loop-gone env evt x rest first b h) (loop-apart env evt rest first b id d)
  | inr (s, h) ↦ elim (Sent-cases (publish_to_subscriber b.cfg.slow_policy env evt s)) [
    | inl (t, r) ↦
        rw (loop-waits env evt x rest first b s t h r)
          (get_elem?-set_ne b.heap x id t (λ q. n (sym q)))
    | inr (e, t, r) ↦ rw (loop-sent env evt x rest first b s t e h r) (
        loop-apart env evt rest (first_error first e) (record b { heap = set b.heap x t }) id d
        ∙ get_elem?-set_ne b.heap x id t (λ q. n (sym q)))
  ]
]

IsServed-set :
    (evt : SessionEvent) (heap after : List Subscriber) (id : ℕ) (t : Subscriber) (ids : List ℕ)
    → All (λ y. id ≢ y) ids
    → All (IsServed evt (set heap id t) after) ids
    → All (IsServed evt heap after) ids
unfolding IsServed
IsServed-set evt heap after id t [] d r = tt
IsServed-set evt heap after id t (x ∷ ids) (n, d) ((s, u, g, a, o), r) = (
  (s, u, sym (get_elem?-set_ne heap id x t n) ∙ g, a, o),
  IsServed-set evt heap after id t ids d r,
)

-- What the loop does when all are ready.
IsDelivery : SessionEvent → List ℕ → Bus → Published → Type 0
IsDelivery evt ids b p =
    (p ≡ finished none (bus_after p)) × All (IsServed evt b.heap (bus_after p).heap) ids

loop-delivers :
    (env : Env) (evt : SessionEvent) (ids : List ℕ) (b : Bus)
    → env.ctx_err ≡ none
    → Distinct ids
    → All (IsReady b.heap) ids
    → IsDelivery evt ids b (publish_loop env evt ids none b)
unfolding publish_loop bus_after IsDelivery Distinct IsReady IsServed IsOpen first_error
loop-delivers env evt [] b c d r = (refl, tt)
loop-delivers env evt (id ∷ rest) b c (n, d) ((s, g, o, room), r) =
    let (t, sends, got) = publish_to_subscriber-delivers b.cfg.slow_policy env evt s o room c in
    let later = record b { heap = set b.heap id t } in
    let (ends, served) = loop-delivers env evt rest later c d (IsReady-set b.heap id t rest n r) in
    let at =
      loop-apart env evt rest none later id n
      ∙ get_elem?-set_self b.heap id t (get_elem?-some_lt b.heap id s g) in
    subst (IsDelivery evt (id ∷ rest) b) (sym (loop-sent env evt id rest none b s t none g sends))
      (ends, ((s, t, g, at, got), IsServed-set evt b.heap _ id t rest n served))

-- A publication to a session whose members are distinct, open and have room finishes without an
-- error, whatever the policy, and appends the event to the buffer of each member; a subscriber `id`
-- that is no member stays as it was.
pub publish-delivers :
    (env : Env) (session : String) (evt : SessionEvent) (b : Bus) (id : ℕ)
    → env.ctx_err ≡ none
    → Distinct (snapshot b session)
    → All (IsReady b.heap) (snapshot b session)
    → All (λ y. id ≢ y) (snapshot b session)
    → (publish env session evt b ≡ finished none (bus_after (publish env session evt b)))
      × All (IsServed evt b.heap (bus_after (publish env session evt b)).heap) (snapshot b session)
      × (get_elem? (bus_after (publish env session evt b)).heap id ≡ get_elem? b.heap id)
unfolding IsDelivery
publish-delivers env session evt b id c d r n =
    let e = publish-runs env session evt b c in
    let (p, q) = loop-delivers env evt (snapshot b session) b c d r in
    rw e (p, q, loop-apart env evt (snapshot b session) none b id n)
