-- ===== src/Settings/Required.antt =====
-- What a configuration that `LoadWithPath` of internal/config/config.go returns is sure to have.
use yaralpho.Base.{
  ◌≡◌, refl, sym, subst, ap, ◌∙◌, inl, inr, arith, true, false, none, List, [], ◌∷◌, String, Result,
  ok, Bool-cases, Option-cases, All,
}
use yaralpho.Settings.Load.{
  Values, nonblank, is_unset, resolve, missing_keys, required_keys, check_required, load_with_path,
  load_json, config_path, Loaded, loaded, FileRead, get,
}
use yaralpho.Settings.Resolve.{chosen, resolve-chosen}

-- A setting that `Get` returns.
pub IsProvided : Values → String → Type 0
IsProvided values key = (v : String) × (get values key ≡ ok v)

unset-none : (values : Values) (key : String) → values key ≡ none → is_unset values key ≡ true
unfolding is_unset nonblank
unset-none values key e = rw (is_unset, e) refl

get-set : (values : Values) (key : String) → is_unset values key ≡ false → IsProvided values key
unfolding get IsProvided
get-set values key h = elim (Option-cases (values key)) [
  | inl e ↦ let u = unset-none values key e in absurd (cc)
  | inr (s, e) ↦ (s, rw (get, e, h) refl)
]

missing-none :
    (values : Values) (keys : List String)
    → missing_keys values keys ≡ []
    → All (IsProvided values) keys
unfolding missing_keys
missing-none values [] h = tt
missing-none values (key ∷ rest) h = elim (Bool-cases (is_unset values key)) [
  | inl e ↦ absurd (ground arith)
  | inr e ↦ (get-set values key e, missing-none values rest (ground arith))
]

loaded_values : Values → Loaded → Values
loaded_values v (loaded values) = values
loaded_values v _ = v

check-loaded :
    (values v : Values) (missing : List String)
    → check_required values missing ≡ loaded v
    → (missing ≡ []) × (values ≡ v)
unfolding check_required loaded_values
check-loaded values v [] h = (refl, ap (loaded_values v) h)
check-loaded values v (k ∷ ks) h = absurd (cc)

module _ (read_file : String → FileRead) (unmarshal : String → Result Values) (env : Values)
    (path : String) (json : Values) where
  load-check :
      load_json read_file unmarshal (config_path env path) ≡ ok json
      → load_with_path read_file unmarshal env path
        ≡ check_required (resolve env json) (missing_keys (resolve env json) required_keys)
  unfolding load_with_path
  load-check h = rw (load_with_path, h) refl

  -- A configuration that is loaded, with `json` the values of the file, gives a setting `k` the value
  -- that is chosen among the environment, the file and the defaults, and `Get` finds every required
  -- setting in it.
  pub load_with_path-chosen :
      (v : Values) (k : String)
      → load_json read_file unmarshal (config_path env path) ≡ ok json
      → load_with_path read_file unmarshal env path ≡ loaded v
      → (v k ≡ chosen env json k) × All (IsProvided v) required_keys
  load_with_path-chosen v k h l =
      let (none_missing, same) = check-loaded (resolve env json) v _ (sym (load-check h) ∙ l) in
      (
        ap (λ f. f k) (sym same) ∙ resolve-chosen env json k,
        subst (λ f. All (IsProvided f) required_keys) same
            (missing-none (resolve env json) required_keys none_missing),
      )
