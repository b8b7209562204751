-- ===== src/Settings/Override.antt =====
-- What the environment makes of a setting in internal/config/config.go.
use yaralpho.Base.{
  ◌≡◌, refl, subst, ap, ◌∙◌, inl, inr, arith, Bool, true, false, Option, none, some, List, [], ◌∷◌,
  String, str_eq, str_eq_iff, str_eq_refl, Bool-cases, Option-cases, if◌then◌else◌,
}
use yaralpho.Settings.Load.{Values, lookup_env, put, override}

-- The first of two that is there.
unfoldable pub or_else : Option String → Option String → Option String
or_else (some s) o = some s
or_else none o = o

pub listed : String → List String → Bool
listed k [] = false
listed k (key ∷ rest) = let later = listed k rest in if str_eq key k then true else later

unfoldable pub default_of : List (String × String) → String → Option String
default_of [] k = none
default_of (d ∷ rest) k = let later = default_of rest k in if str_eq d.0 k then some d.1 else later

pub put-same : (key v : String) (values : Values) → put key v values key ≡ some v
unfolding put
put-same key v values = rw (str_eq_refl key) refl

pub put-other :
    (key v k : String) (values : Values) → str_eq key k ≡ false → put key v values k ≡ values k
unfolding put
put-other key v k values h = rw h refl

-- What `override` gives a key.
unfoldable pub overridden : Values → List String → Values → String → Option String
overridden env keys values k =
    if listed k keys then or_else (lookup_env env k) (values k) else values k

module _ (env : Values) where
  override-some :
      (key v : String) (rest : List String) (values : Values)
      → lookup_env env key ≡ some v
      → override env (key ∷ rest) values ≡ override env rest (put key v values)
  unfolding override
  override-some key v rest values h = rw (override, h) refl

  override-none :
      (key : String) (rest : List String) (values : Values)
      → lookup_env env key ≡ none
      → override env (key ∷ rest) values ≡ override env rest values
  unfolding override
  override-none key rest values h = rw (override, h) refl

  overridden-put :
      (key v k : String) (rest : List String) (values : Values)
      → lookup_env env key ≡ some v
      → overridden env rest (put key v values) k ≡ overridden env (key ∷ rest) values k
  unfolding overridden listed or_else
  overridden-put key v k rest values h = elim (Bool-cases (str_eq key k)) [
    | inl e ↦
        let q = (str_eq_iff key k).0 e in
        let at = subst (λ x. put key v values x ≡ some v) q (put-same key v values) in
        let env_at = subst (λ x. lookup_env env x ≡ some v) q h in ground arith
    | inr e ↦ let at = put-other key v k values e in ground arith
  ]

  overridden-skip :
      (key k : String) (rest : List String) (values : Values)
      → lookup_env env key ≡ none
      → overridden env rest values k ≡ overridden env (key ∷ rest) values k
  unfolding overridden listed or_else
  overridden-skip key k rest values h = elim (Bool-cases (str_eq key k)) [
    | inl e ↦
        let env_at = subst (λ x. lookup_env env x ≡ none) ((str_eq_iff key k).0 e) h in ground arith
    | inr e ↦ ground arith
  ]

  pub override-overridden :
      (keys : List String) (values : Values) (k : String)
      → override env keys values k ≡ overridden env keys values k
  unfolding override overridden listed
  override-overridden [] values k = refl
  override-overridden (key ∷ rest) values k = elim (Option-cases (lookup_env env key)) [
    | inr (v, h) ↦
        ap (λ f. f k) (override-some key v rest values h)
        ∙ override-overridden rest (put key v values) k
        ∙ overridden-put key v k rest values h
    | inl h ↦
        ap (λ f. f k) (override-none key rest values h)
        ∙ override-overridden rest values k
        ∙ overridden-skip key k rest values h
  ]
