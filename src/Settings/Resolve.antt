-- ===== src/Settings/Resolve.antt =====
-- Which value a setting gets, and which settings a loaded configuration is sure to have.
use yaralpho.Base.{
  ◌≡◌, refl, sym, subst, ap, ◌∙◌, ◌⊎◌, inl, inr, arith, Bool, true, false, Option, none, some, List,
  [], ◌∷◌, String, str_eq, str_eq_iff, str_eq_refl, Bool-cases, Option-cases, All, if◌then◌else◌,
}
use yaralpho.Base.Text.{trim_space, trim_space-trim_space}
use yaralpho.Settings.Load.{
  Values, nonblank, lookup_env, put, is_unset, seed, override, set_defaults, resolve, defaults,
  env_override_keys,
}
use yaralpho.Settings.Override.{
  or_else, listed, default_of, put-same, put-other, overridden, override-overridden,
}

-- What `set_defaults` gives a key.
defaulted : List (String × String) → Values → String → Option String
defaulted ds values k = if is_unset values k then or_else (default_of ds k) (values k) else values k

-- A default that is more than white space.
IsGiven : String × String → Type 0
IsGiven d = (t : String) × (nonblank (some d.1) ≡ some t)

set-some :
    (values : Values) (k s t : String)
    → values k ≡ some s
    → nonblank (some s) ≡ some t
    → is_unset values k ≡ false
unfolding is_unset
set-some values k s t h e = rw (is_unset, h, e) refl

is_unset-ext : (v w : Values) (k : String) → v k ≡ w k → is_unset v k ≡ is_unset w k
unfolding is_unset
is_unset-ext v w k h = ap (λ o. elim (nonblank o) as (λ x. Bool) [ none ↦ true | some s ↦ false ]) h

with_default : String × String → Values → Values
with_default d values = if is_unset values d.0 then put d.0 d.1 values else values

with_default-unset :
    (d : String × String) (values : Values)
    → is_unset values d.0 ≡ true
    → with_default d values ≡ put d.0 d.1 values
unfolding with_default
with_default-unset d values h = rw h refl

with_default-set :
    (d : String × String) (values : Values)
    → is_unset values d.0 ≡ false
    → with_default d values ≡ values
unfolding with_default
with_default-set d values h = rw h refl

defaulted-ext :
    (ds : List (String × String)) (v w : Values) (k : String)
    → v k ≡ w k
    → defaulted ds v k ≡ defaulted ds w k
unfolding defaulted
defaulted-ext ds v w k h = let u = is_unset-ext v w k h in ground arith

defaulted-later :
    (d : String × String) (ds : List (String × String)) (values : Values) (k : String)
    → str_eq d.0 k ≡ false
    → defaulted ds values k ≡ defaulted (d ∷ ds) values k
unfolding defaulted default_of
defaulted-later d ds values k e = ground arith

defaulted-kept :
    (ds es : List (String × String)) (values : Values) (k : String)
    → is_unset values k ≡ false
    → defaulted ds values k ≡ defaulted es values k
unfolding defaulted
defaulted-kept ds es values k u = ground arith

defaulted-here :
    (d : String × String) (ds : List (String × String)) (values : Values)
    → IsGiven d
    → is_unset values d.0 ≡ true
    → defaulted ds (put d.0 d.1 values) d.0 ≡ defaulted (d ∷ ds) values d.0
unfolding IsGiven defaulted default_of or_else
defaulted-here d ds values (t, g) u =
    let at = put-same d.0 d.1 values in
    let set = set-some (put d.0 d.1 values) d.0 d.1 t at g in
    let same = str_eq_refl d.0 in ground arith

defaulted-step :
    (d : String × String) (ds : List (String × String)) (values : Values) (k : String)
    → IsGiven d
    → defaulted ds (with_default d values) k ≡ defaulted (d ∷ ds) values k
defaulted-step d ds values k g = elim (Bool-cases (is_unset values d.0)) [
  | inl u ↦
      ap (λ w. defaulted ds w k) (with_default-unset d values u)
      ∙ elim (Bool-cases (str_eq d.0 k)) [
        | inl e ↦
            subst (λ x. defaulted ds (put d.0 d.1 values) x ≡ defaulted (d ∷ ds) values x)
              ((str_eq_iff d.0 k).0 e) (defaulted-here d ds values g u)
        | inr e ↦
            defaulted-ext ds _ values k (put-other d.0 d.1 k values e)
            ∙ defaulted-later d ds values k e
      ]
  | inr u ↦
      ap (λ w. defaulted ds w k) (with_default-set d values u) ∙ elim (Bool-cases (str_eq d.0 k)) [
        | inl e ↦
            defaulted-kept ds (d ∷ ds) values k
              (subst (λ x. is_unset values x ≡ false) ((str_eq_iff d.0 k).0 e) u)
        | inr e ↦ defaulted-later d ds values k e
      ]
]

set_defaults-defaulted :
    (ds : List (String × String)) (values : Values) (k : String)
    → All IsGiven ds
    → set_defaults ds values k ≡ defaulted ds values k
unfolding set_defaults defaulted with_default default_of or_else
set_defaults-defaulted [] values k g = ground arith
set_defaults-defaulted (d ∷ ds) values k (g, gs) =
    set_defaults-defaulted ds (with_default d values) k gs ∙ defaulted-step d ds values k g

nonblank-trimmed :
    (s : String)
    → (nonblank (some s) ≡ none)
      ⊎ (nonblank (some s) ≡ some (trim_space s)) × (str_eq (trim_space s) "" ≡ false)
unfolding nonblank
nonblank-trimmed s = ground arith

trimmed-some :
    (s : String)
    → str_eq (trim_space s) "" ≡ false
    → nonblank (some (trim_space s)) ≡ some (trim_space s)
unfolding nonblank
trimmed-some s h = let e = trim_space-trim_space s in ground arith

nonblank-nonblank : (o : Option String) → nonblank (nonblank o) ≡ nonblank o
unfolding nonblank
nonblank-nonblank none = refl
nonblank-nonblank (some s) = elim (nonblank-trimmed s) [
  | inl e ↦ ap nonblank e ∙ sym e
  | inr (e, h) ↦ ap nonblank e ∙ trimmed-some s h ∙ sym e
]

-- A setting is the environment's where the environment may override it and holds more than white
-- space, else the file's where that holds more than white space, else the default.
pub chosen : Values → Values → String → Option String
chosen env json k =
    or_else (if listed k env_override_keys then nonblank (env k) else none)
      (or_else (nonblank (json k)) (default_of defaults k))

defaults-IsGiven : All IsGiven defaults
unfolding IsGiven nonblank trim_space
defaults-IsGiven = (
  (_, refl),
  (
    (_, refl),
    ((_, refl), ((_, refl), ((_, refl), ((_, refl), ((_, refl), ((_, refl), ((_, refl), tt))))))),
  ),
)

or_else-trimmed :
    (a b : Option String)
    → nonblank (or_else (nonblank a) (nonblank b)) ≡ or_else (nonblank a) (nonblank b)
unfolding or_else
or_else-trimmed a b = elim (Option-cases (nonblank a)) [
  | inl e ↦
      subst (λ o. nonblank (or_else o (nonblank b)) ≡ or_else o (nonblank b)) (sym e)
        (nonblank-nonblank b)
  | inr (t, e) ↦
      subst (λ o. nonblank (or_else o (nonblank b)) ≡ or_else o (nonblank b)) (sym e)
        (ap nonblank (sym e) ∙ nonblank-nonblank a ∙ e)
]

overridden-trimmed :
    (env json : Values) (keys : List String) (k : String)
    → nonblank (overridden env keys (seed json) k) ≡ overridden env keys (seed json) k
unfolding overridden lookup_env seed
overridden-trimmed env json keys k = elim (Bool-cases (listed k keys)) [
  | inl e ↦ rw e (or_else-trimmed (env k) (json k))
  | inr e ↦ rw e (nonblank-nonblank (json k))
]

default-last :
    (o d : Option String)
    → nonblank o ≡ o
    → (if elim (nonblank o) [ none ↦ true | some s ↦ false ] then or_else d o else o) ≡ or_else o d
unfolding or_else nonblank
default-last none none h = refl
default-last none (some s) h = refl
default-last (some s) d h = rw h refl

or_else_assoc :
    (b : Bool) (x y d : Option String)
    → or_else (if b then or_else x y else y) d ≡ or_else (if b then x else none) (or_else y d)
unfolding or_else
or_else_assoc false x y d = refl
or_else_assoc true none y d = refl
or_else_assoc true (some s) y d = refl

defaulted-trimmed :
    (ds : List (String × String)) (values : Values) (k : String)
    → nonblank (values k) ≡ values k
    → defaulted ds values k ≡ or_else (values k) (default_of ds k)
unfolding defaulted is_unset or_else
defaulted-trimmed ds values k h = default-last (values k) (default_of ds k) h

overridden-chosen :
    (env json : Values) (k : String)
    → or_else (overridden env env_override_keys (seed json) k) (default_of defaults k)
      ≡ chosen env json k
unfolding overridden chosen or_else lookup_env seed
overridden-chosen env json k =
    or_else_assoc (listed k env_override_keys) (nonblank (env k)) (nonblank (json k))
      (default_of defaults k)

-- Every setting has the environment's value where the environment may override it and holds more than
-- white space, trimmed; else the file's where that holds more than white space, trimmed; else its
-- default, if it has one.
pub resolve-chosen : (env json : Values) (k : String) → resolve env json k ≡ chosen env json k
unfolding resolve
resolve-chosen env json k =
    let values = override env env_override_keys (seed json) in
    let at = override-overridden env env_override_keys (seed json) k in
    set_defaults-defaulted defaults values k defaults-IsGiven
    ∙ defaulted-trimmed defaults values k
        (ap nonblank at ∙ overridden-trimmed env json env_override_keys k ∙ sym at)
    ∙ ap (λ o. or_else o (default_of defaults k)) at
    ∙ overridden-chosen env json k
