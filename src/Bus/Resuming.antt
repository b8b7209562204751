-- ===== src/Bus/Resuming.antt =====
-- A publication of internal/bus/memory_bus.go that has waited and goes on.
use yaralpho.Base.{
  ℕ, ◌≡◌, refl, subst, inl, inr, Option, none, some, List, [], ◌∷◌, All, All-set, All-get_elem?,
  Option-cases, set, get_elem?,
}
use yaralpho.Storage.Models.{SessionEvent}
use yaralpho.Bus.State.{Bus, Subscriber, BusError}
use yaralpho.Bus.Publish.{Env, sent, waits, waiting, publish_loop, first_error}
use yaralpho.Bus.Fits.{Fits, Bounded}
use yaralpho.Bus.Publish.{resume_publish, send_again}
use yaralpho.Bus.Fits.{send_again-Bounded}
use yaralpho.Bus.Fanout.{bus_after, Sent-cases, Keeps, loop-Keeps}

module _ (env : Env) (evt : SessionEvent) (id : ℕ) (rest : List ℕ) (first : Option BusError)
    (b : Bus) where
  resume_publish-gone :
      get_elem? b.heap id ≡ none
      → resume_publish env evt (id ∷ rest) first b ≡ publish_loop env evt rest first b
  unfolding resume_publish
  resume_publish-gone h = rw (resume_publish, h) refl

  resume_publish-waits :
      (s t : Subscriber)
      → get_elem? b.heap id ≡ some s
      → send_again b.cfg.slow_policy env evt s ≡ waits t
      → resume_publish env evt (id ∷ rest) first b
        ≡ waiting first (id ∷ rest) (record b { heap = set b.heap id t })
  unfolding resume_publish
  resume_publish-waits s t h r = rw (resume_publish, h, r) refl

  resume_publish-sent :
      (s t : Subscriber) (e : Option BusError)
      → get_elem? b.heap id ≡ some s
      → send_again b.cfg.slow_policy env evt s ≡ sent e t
      → resume_publish env evt (id ∷ rest) first b
        ≡ publish_loop env evt rest (first_error first e) (record b { heap = set b.heap id t })
  unfolding resume_publish
  resume_publish-sent s t e h r = rw (resume_publish, h, r) refl

-- A publication that goes on after it waited keeps the same.
pub resume_publish-Keeps :
    (env : Env) (evt : SessionEvent) (ids : List ℕ) (first : Option BusError) (b : Bus)
    → All Fits b.heap
    → Keeps b (bus_after (resume_publish env evt ids first b))
unfolding Keeps bus_after resume_publish Bounded
resume_publish-Keeps env evt [] first b f = (refl, refl, f)
resume_publish-Keeps env evt (id ∷ rest) first b f = elim (Option-cases (get_elem? b.heap id)) [
  | inl h ↦ rw (resume_publish-gone env evt id rest first b h) (loop-Keeps env evt rest first b f)
  | inr (s, h) ↦
      let fits =
        send_again-Bounded b.cfg.slow_policy env evt s (All-get_elem? Fits b.heap id s f h) in
      elim (Sent-cases (send_again b.cfg.slow_policy env evt s)) [
        | inl (t, r) ↦
            rw (resume_publish-waits env evt id rest first b s t h r)
              (refl, refl, All-set Fits b.heap id t f (subst Bounded r fits))
        | inr (e, t, r) ↦ rw (resume_publish-sent env evt id rest first b s t e h r) (
            loop-Keeps env evt rest (first_error first e) (record b { heap = set b.heap id t })
              (All-set Fits b.heap id t f (subst Bounded r fits)))
      ]
]
