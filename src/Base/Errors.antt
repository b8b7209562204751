-- ===== src/Base/Errors.antt =====
-- Go's `error` values and the pairs `(value, error)` that fallible calls return.
use Prim.Native.String.{String}
use mathlib.Core.Path.{◌≡◌, refl}
use mathlib.Core.Logic.{◌⊎◌, inl, inr}
use mathlib.Core.Bool.{Bool, true, false}

-- `no_documents` is mongo.ErrNoDocuments, `conflict` is storage.ErrConflict of
-- internal/storage/errors.go; `message` is errors.New, `wrap` is fmt.Errorf with `%w`.
pub data Error : Type 0 where
  no_documents conflict canceled deadline_exceeded : Error
  message : String → Error
  wrap : String → Error → Error

pub data Result {ℓ} (A : Type ℓ) : Type ℓ where
  ok : A → Result A
  err : Error → Result A

-- errors.Is(err, mongo.ErrNoDocuments): through every wrapping.
pub is_no_documents : Error → Bool
is_no_documents no_documents = true
is_no_documents (wrap s e) = is_no_documents e
is_no_documents _ = false

pub Result-cases {ℓ} :
    {A : Type ℓ} (r : Result A) → ((a : A) × (r ≡ ok a)) ⊎ ((e : Error) × (r ≡ err e))
Result-cases (ok a) = inl (a, refl)
Result-cases (err e) = inr (e, refl)
