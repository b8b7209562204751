-- ===== src/Storage/Contract.antt =====
-- What the batch handlers rely on of internal/storage/interfaces.go: the stored batches as a view, with
-- what a read and a write do to them.
use yaralpho.Base.{◌≡◌, ◌≢◌, ◌⊎◌, Option, none, some, String, Error, ok, All}
use yaralpho.Base.Int.{neg_part}
use yaralpho.Storage.Models.{Batch, BatchItem, BatchStatus, ItemStatus}
use yaralpho.Storage.Interface.{Storage, request}

abbrev pub View : Type 0 → Type 0
View W = W → String → Option Batch

-- An item with a status and a number of attempts that is not negative: what a store may change of an
-- item is to bring it into this form.
abbrev pub IsNormal : BatchItem → Type 0
IsNormal i = (i.status ≢ ItemStatus.unset) × (neg_part i.attempts ≡ 0)

-- A batch is stored with the identity, the repository, the status and the items of the document.
abbrev pub Stores : Option Batch → Batch → Type 0
Stores o d =
    (b : Batch) × (o ≡ some b)
    × (b.id ≡ d.id)
    × (b.repository_id ≡ d.repository_id)
    × (b.status ≡ d.status)
    × (b.items ≡ d.items)

-- A read returns what is stored and changes nothing of the batches; a write that succeeds stores the
-- document as the call leaves it; the call leaves its identity, its repository and its status, and its
-- items if they are normal; it touches no other batch; and a write with an error has stored the whole
-- document or nothing of it.
pub record IsBatchStorage {W : Type 0} (st : Storage W) (view : View W) : Type 0 where
  pub repository_keeps : (id : String) (w : W) → view (st.get_repository request id w).1 ≡ view w
  pub get_keeps : (id : String) (w : W) → view (st.get_batch request id w).1 ≡ view w
  pub gets :
      (id : String) (w : W) (b : Batch)
      → (st.get_batch request id w).0 ≡ ok b
      → (view w id ≡ some b) × (b.id ≡ id)
  pub saves :
      (b : Batch) (w : W)
      → (st.update_batch request b w).0 ≡ none
      → Stores (view (st.update_batch request b w).2 b.id) (st.update_batch request b w).1
  pub leaves :
      (b : Batch) (w : W)
      → ((st.update_batch request b w).1.repository_id ≡ b.repository_id)
        × ((st.update_batch request b w).1.status ≡ b.status)
        × (All IsNormal b.items → (st.update_batch request b w).1.items ≡ b.items)
  pub others :
      (b : Batch) (w : W) (id : String)
      → id ≢ b.id
      → view (st.update_batch request b w).2 id ≡ view w id
  pub atomic :
      (b : Batch) (w : W) (e : Error)
      → (st.update_batch request b w).0 ≡ some e
      → (view (st.update_batch request b w).2 b.id ≡ view w b.id)
        ⊎ Stores (view (st.update_batch request b w).2 b.id) (st.update_batch request b w).1

-- A creation that succeeds stores the document as the call leaves it; the call leaves its repository,
-- its status if it has one, and its items if they are normal.
pub record IsCreator {W : Type 0} (st : Storage W) (view : View W) : Type 0 where
  pub creates :
      (b : Batch) (w : W)
      → (st.create_batch request b w).0 ≡ none
      → Stores (view (st.create_batch request b w).2 b.id) (st.create_batch request b w).1
  pub leaves :
      (b : Batch) (w : W)
      → ((st.create_batch request b w).1.repository_id ≡ b.repository_id)
        × (b.status ≢ BatchStatus.unset → (st.create_batch request b w).1.status ≡ b.status)
        × (All IsNormal b.items → (st.create_batch request b w).1.items ≡ b.items)
