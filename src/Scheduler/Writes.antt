-- ===== src/Scheduler/Writes.antt =====
-- What the calls of a tick of internal/scheduler/scheduler.go write: sound batches, and an agent that
-- is set free.
use yaralpho.Base.{ℕ, ◌≡◌, refl, subst, ◌⊎◌, inl, inr, Option, none, List, [], ◌∷◌, Error, ok, All}
use yaralpho.Base.Int.{ℤ}
use yaralpho.Storage.Models.{AgentStatus, Batch}
use yaralpho.Scheduler.Settle.{claim}
use yaralpho.Scheduler.Selection.{IsEligible, IsFirstEligible, select_iff}
use yaralpho.Scheduler.Invariant.{
  IsSound, IsRunningAt, claim-IsSound, settle-IsSound, rollback-IsSound, claim-IsRunningAt,
}
use yaralpho.Scheduler.Calls.{
  Call, listed_batches, updated_batch, updated_agent, processed, Protocol, no_batches, no_agents,
  no_idle, no_eligible, claim_refused, agent_refused, ran,
}

-- The store leaves the items and the status of a document that it is given to write.
abbrev pub LeavesContent : Call → Type 0
LeavesContent (updated_batch k b e b') = (b'.items ≡ b.items) × (b'.status ≡ b.status)
LeavesContent _ = Unit

abbrev pub ReadsSound : ℤ → Call → Type 0
ReadsSound m (listed_batches (ok bs)) = All (IsSound m) bs
ReadsSound m _ = Unit

abbrev pub WritesSound : ℤ → Call → Type 0
WritesSound m (updated_batch k b e b') = IsSound m b
WritesSound m _ = Unit

IsFirstEligible-All :
    (m : ℤ) (bs : List Batch) (b : Batch) (i : ℕ)
    → IsFirstEligible b i bs
    → All (IsSound m) bs
    → IsEligible b i × IsSound m b
IsFirstEligible-All m [] b i f h = absurd f
IsFirstEligible-All m (x ∷ rest) b i (inl (p, e)) h = (e, subst (IsSound m) p h.0)
IsFirstEligible-All m (x ∷ rest) b i (inr (_, f)) h = IsFirstEligible-All m rest b i f h.1

pub IsSound-content :
    (m : ℤ) (b b' : Batch)
    → (b'.items ≡ b.items) × (b'.status ≡ b.status)
    → IsSound m b
    → IsSound m b'
IsSound-content m b b' (p, q) s = record {
  one_busy = rw p s.one_busy;
  items_sound = rw p s.items_sound;
  done_all = λ h. rw p (s.done_all (cc));
  failed_some = λ h. rw p (s.failed_some (cc));
}

IsRunningAt-content :
    (i : ℕ) (b b' : Batch) → b'.items ≡ b.items → IsRunningAt i b → IsRunningAt i b'
IsRunningAt-content i b b' p r = rw p r

-- The claimed batch, as the store left it.
claimed :
    (m : ℤ) (bs : List Batch) (b b' : Batch) (i : ℕ)
    → IsFirstEligible b i bs
    → All (IsSound m) bs
    → (b'.items ≡ (claim i b).items) × (b'.status ≡ (claim i b).status)
    → IsSound m (claim i b) × IsSound m b' × IsRunningAt i b'
claimed m bs b b' i f h l =
    let (e, s) = IsFirstEligible-All m bs b i f h in
    let sc = claim-IsSound m b i e s in
    (
      sc,
      IsSound-content m (claim i b) b' l sc,
      IsRunningAt-content i (claim i b) b' l.0 (claim-IsRunningAt b i e),
    )

-- If the batches that a tick reads are sound, then so is every batch that it writes: at its claim, at
-- its rollback, and after the worker.
pub Protocol-WritesSound :
    (m : ℤ) (calls : List Call) (e : Option Error)
    → Protocol m calls e
    → All LeavesContent calls
    → All (ReadsSound m) calls
    → All (WritesSound m) calls
Protocol-WritesSound m _ _ (no_batches e) l r = (tt, tt)
Protocol-WritesSound m _ _ (no_agents bs e) l r = (tt, (tt, tt))
Protocol-WritesSound m _ _ (no_idle bs ags p) l r = (tt, (tt, tt))
Protocol-WritesSound m _ _ (no_eligible bs ags p) l r = (tt, (tt, tt))
Protocol-WritesSound m _ _ (claim_refused bs ags b b' i a e p q) l r =
    let c = claimed m bs b b' i ((select_iff bs b i).0 q) r.1.1.0 l.0 in (c.0, (tt, (tt, tt)))
Protocol-WritesSound m _ _ (agent_refused bs ags b b' b'' i a a' e u p q) l r =
    let c = claimed m bs b b' i ((select_iff bs b i).0 q) r.1.1.1.1.0 l.1.1.0 in
    (rollback-IsSound m b' i c.2 c.1, (tt, (c.0, (tt, (tt, tt)))))
Protocol-WritesSound m _ _ (ran bs ags b b' b'' i a a' a'' k w sv fr p q) l r =
    let c = claimed m bs b b' i ((select_iff bs b i).0 q) r.1.1.1.1.1.1.0 l.1.1.1.1.0 in
    (tt, (settle-IsSound m _ b' i c.2 c.1, (tt, (tt, (c.0, (tt, (tt, tt)))))))

-- The calls that take an agent: a write that succeeds and sets it busy, and the worker's run.
abbrev pub TakesAgent : Call → Type 0
TakesAgent (updated_agent k a none a') = a.status ≡ AgentStatus.busy
TakesAgent (processed item e) = Unit {0}
TakesAgent _ = ⊥

abbrev pub Frees : Call → Type 0
Frees (updated_agent k a e a') = a.status ≡ AgentStatus.idle
Frees _ = ⊥

abbrev pub EndsBy : (Call → Type 0) → List Call → Type 0
EndsBy P [] = ⊥
EndsBy P (c ∷ calls) = P c

-- An agent that a tick takes, it sets free by its last call, whatever the worker and the store
-- answer; a tick that takes none does not reach the worker.
pub Protocol-ends_idle :
    (m : ℤ) (calls : List Call) (e : Option Error)
    → Protocol m calls e
    → EndsBy Frees calls ⊎ All (λ c. ¬ TakesAgent c) calls
Protocol-ends_idle m _ _ (no_batches e) = inr (λ h. h, tt)
Protocol-ends_idle m _ _ (no_agents bs e) = inr (λ h. h, (λ h. h, tt))
Protocol-ends_idle m _ _ (no_idle bs ags p) = inr (λ h. h, (λ h. h, tt))
Protocol-ends_idle m _ _ (no_eligible bs ags p) = inr (λ h. h, (λ h. h, tt))
Protocol-ends_idle m _ _ (claim_refused bs ags b b' i a e p q) =
    inr (λ h. h, (λ h. h, (λ h. h, tt)))
Protocol-ends_idle m _ _ (agent_refused bs ags b b' b'' i a a' e u p q) =
    inr (λ h. h, (λ h. h, (λ h. h, (λ h. h, (λ h. h, tt)))))
Protocol-ends_idle m _ _ (ran bs ags b b' b'' i a a' a'' k w sv fr p q) = inl refl
