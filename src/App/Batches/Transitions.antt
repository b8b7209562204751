-- ===== src/App/Batches/Transitions.antt =====
-- The moves of a stored batch that the pause, resume and restart handlers of internal/app make.
use yaralpho.Base.{
  ℕ, ◌≡◌, refl, ap, ◌∙◌, All, ◌≢◌, subst, ◌⊎◌, inl, inr, ◌||◌, Option, some, arith, String, Error,
  str_eq, str_eq_iff, modify, Bool-cases, Option-cases, Result-cases,
}
use yaralpho.Storage.Models.{Repository, Batch, BatchStatus}
use yaralpho.Storage.Interface.{Storage, request}
use yaralpho.Storage.Contract.{View, IsNormal, Stores, IsBatchStorage}
use yaralpho.App.Http.{
  Response, Handler, write_storage_error, scoped_batch, check_owner, read_batch, after_read-ok,
  after_read-err, after_write-none, after_write-some,
}
use yaralpho.App.Batches.{summary_of, save_batch, first_failed, reset_item}

-- The moves of a batch, by its status and its items, which a store may bring into normal form.
abbrev pub Pauses : Batch → Batch → Type 0
Pauses b b' =
    (b.status ≢ BatchStatus.done)
    × (b.status ≢ BatchStatus.failed)
    × (b.status ≢ BatchStatus.paused)
    × (b'.status ≡ BatchStatus.paused)
    × (All IsNormal b.items → b'.items ≡ b.items)

abbrev pub Resumes : Batch → Batch → Type 0
Resumes b b' =
    (b.status ≡ BatchStatus.paused)
    × (b'.status ≡ BatchStatus.pending)
    × (All IsNormal b.items → b'.items ≡ b.items)

-- The first failed item is pending again, with no attempts; the other items are as they were.
abbrev pub Restarts : Batch → Batch → Type 0
Restarts b b' =
    (b.status ≡ BatchStatus.failed)
    × (b'.status ≡ BatchStatus.pending)
    × ((i : ℕ) × (first_failed b.items ≡ some i)
        × (All IsNormal b.items → b'.items ≡ modify b.items i reset_item))

-- The stored batches, as a view shows them.
abbrev pub Batches : Type 0
Batches = String → Option Batch

-- An answer other than 200, with no batch changed.
abbrev pub Refused : {W : Type 0} → View W → Batches → Response × W → Type 0
Refused view v (r, w') = (r.status ≢ 200) × ((id : String) → view w' id ≡ v id)

-- One move of the addressed batch of the addressed repository, and no other batch changes.
abbrev pub Moves :
    {W : Type 0} → (Batch → Batch → Type 0) → View W → String → String → Batches → W → Type 0
Moves Move view repo_id batch_id v w' =
    ((b : Batch) × (b' : Batch) × (v batch_id ≡ some b)
      × (view w' batch_id ≡ some b')
      × (b.repository_id ≡ repo_id)
      × Move b b')
    × ((id : String) → id ≢ batch_id → view w' id ≡ v id)

-- The three outcomes: a refusal; the answer 200 with the move; or the answer of a storage error that
-- the store has reported although it has made the move.
abbrev pub Outcome :
    {W : Type 0}
    → (Batch → Batch → Type 0)
    → View W
    → String
    → String
    → Batches
    → Response × W
    → Type 0
Outcome Move view repo_id batch_id v a =
    Refused view v a
    ⊎ ((a.0.status ≡ 200) × Moves Move view repo_id batch_id v a.1)
    ⊎ ((e : Error) × (a.0 ≡ write_storage_error e) × Moves Move view repo_id batch_id v a.1)

pub storage_error-status : (e : Error) → (write_storage_error e).status ≢ 200
unfolding write_storage_error
storage_error-status e = ground arith

module _ {W : Type 0} (st : Storage W) (view : View W) (laws : IsBatchStorage st view)
    (repo_id batch_id : String) (Move : Batch → Batch → Type 0) where
  unchanged :
      (w w' : W)
      → view w' batch_id ≡ view w batch_id
      → ((id : String) → id ≢ batch_id → view w' id ≡ view w id)
      → (id : String) → view w' id ≡ view w id
  unchanged w w' q others id = elim (Bool-cases (str_eq id batch_id)) [
    | inl e ↦ rw ((str_eq_iff id batch_id).0 e) q
    | inr e ↦ others id (λ p. ground (arith, str_eq_iff id batch_id))
  ]

  -- The move, of a document that is stored.
  stored-Moves :
      (b d d' : Batch) (w w' : W)
      → view w batch_id ≡ some b
      → b.repository_id ≡ repo_id
      → ((b' : Batch) → b'.items ≡ d'.items → b'.status ≡ d'.status → Move b b')
      → Stores (view w' batch_id) d'
      → ((id : String) → id ≢ batch_id → view w' id ≡ view w id)
      → Moves Move view repo_id batch_id (view w) w'
  stored-Moves b d d' w w' at own move (b', at', _, _, status, items) others =
      ((b, b', at, at', own, move b' items status), others)

  pub save-Outcome :
      (b d : Batch) (w : W)
      → view w batch_id ≡ some b
      → b.repository_id ≡ repo_id
      → d.id ≡ batch_id
      → ((b' : Batch)
          → (All IsNormal d.items → b'.items ≡ d.items)
          → b'.status ≡ d.status
          → Move b b')
      → Outcome Move view repo_id batch_id (view w) (save_batch st d w)
  unfolding save_batch
  save-Outcome b d w at own same move =
      let r = st.update_batch request d w in
      let kept = laws.leaves d w in
      let others : (id : String) → id ≢ batch_id → view r.2 id ≡ view w id =
        λ id ne. laws.others d w id (rw same ne) in
      let moves = λ (stored : Stores (view r.2 batch_id) r.1).
        stored-Moves b d r.1 w r.2 at own (λ b' p q. move b' (λ n. p ∙ kept.2 n) (q ∙ kept.1))
          stored others in
      elim (Option-cases r.0) [
        | inl p ↦
            rw (after_write-none write_storage_error (λ b' w'. (summary_of b', w')) r p)
              (inr (inl (refl, moves (rw (← same) (laws.saves d w p)))))
        | inr (e, p) ↦
            rw (after_write-some write_storage_error (λ b' w'. (summary_of b', w')) r e p)
              (elim (laws.atomic d w e p) [
                | inl q ↦ inl (storage_error-status e, unchanged w r.2 (rw (← same) q) others)
                | inr stored ↦ inr (inr (e, refl, moves (rw (← same) stored)))
              ])
      ]

  -- What a handler does with the batch that it is given.
  abbrev pub Handles : (Batch → Handler W) → Type 0
  Handles next =
      (b : Batch) (w : W)
      → view w batch_id ≡ some b
      → b.id ≡ batch_id
      → b.repository_id ≡ repo_id
      → Outcome Move view repo_id batch_id (view w) (next b w)

  owner-Outcome :
      (next : Batch → Handler W) (b : Batch) (w : W)
      → Handles next
      → view w batch_id ≡ some b
      → b.id ≡ batch_id
      → Outcome Move view repo_id batch_id (view w) (check_owner repo_id next b w)
  unfolding check_owner
  owner-Outcome next b w h at same = elim (Bool-cases (str_eq b.repository_id repo_id)) [
    | inl e ↦ rw e (h b w at same ((str_eq_iff _ _).0 e))
    | inr e ↦ rw e (inl (omega arith, λ id. refl))
  ]

  read-Outcome :
      (next : Batch → Handler W) (w : W)
      → Handles next
      → Outcome Move view repo_id batch_id (view w) (read_batch st repo_id batch_id next w)
  unfolding read_batch
  read-Outcome next w h =
      let r = st.get_batch request batch_id w in
      let k = laws.get_keeps batch_id w in
      elim (Result-cases r.0) [
        | inl (b, p) ↦
            let (at, same) = laws.gets batch_id w b p in
            rw (after_read-ok write_storage_error (check_owner repo_id next) r b p) (
              subst (λ v. Outcome Move view repo_id batch_id v (check_owner repo_id next b r.1)) k
                (owner-Outcome next b r.1 h (rw k at) same))
        | inr (e, p) ↦
            rw (after_read-err write_storage_error (check_owner repo_id next) r e p)
              (inl (storage_error-status e, λ id. ap (λ v. v id) k))
      ]

  pub scoped-Outcome :
      (next : Batch → Handler W) (w : W)
      → Handles next
      → Outcome Move view repo_id batch_id (view w) (scoped_batch st repo_id batch_id next w)
  unfolding scoped_batch
  scoped-Outcome next w h =
      let r = st.get_repository request repo_id w in
      let k = laws.repository_keeps repo_id w in
      let more = λ (repo : Repository). read_batch st repo_id batch_id next in
      elim (Bool-cases (str_eq repo_id "" || str_eq batch_id "")) [
        | inl e ↦ rw e (inl (omega arith, λ id. refl))
        | inr e ↦ rw e (elim (Result-cases r.0) [
          | inl (b, p) ↦ rw (after_read-ok write_storage_error more r b p) (
              subst
                (λ v.
                  Outcome Move view repo_id batch_id v (read_batch st repo_id batch_id next r.1))
                k (read-Outcome next r.1 h))
          | inr (e, p) ↦
              rw (after_read-err write_storage_error more r e p)
                (inl (storage_error-status e, λ id. ap (λ v. v id) k))
        ])
      ]
