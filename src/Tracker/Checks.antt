-- ===== src/Tracker/Checks.antt =====
-- What internal/tracker/beads.go checks before it runs bd.
use yaralpho.Base.{
  ◌≡◌, ◌≢◌, refl, sym, ap, ◌∙◌, inl, inr, Bool-cases, Bool, true, false, Option, none, some, List,
  [], ◌∷◌, String, Error, Result, ok, err, str_eq, str_eq_iff,
}
use yaralpho.Base.Text.{◌&◌, trim_space}
use yaralpho.Tracker.Beads.{
  Shell, dir_path, check_context, check_dir, view_answer, view_checked, bd_answer, title_in,
  TitledIssue, issue_title, normalize_repo_path, check_call, run_bd, view, title_of, get_title,
}

dir_path-ok :
    (path found : String) (b : Result Bool)
    → dir_path path b ≡ ok found
    → (path ≡ found) × (b ≡ ok true)
unfolding dir_path
dir_path-ok path found (err e) h = absurd (cc)
dir_path-ok path found (ok false) h = absurd (cc)
dir_path-ok path found (ok true) h = (cc, refl)

check_context-ok :
    (ref : String) (path : Result String) (over : Option Error) (c : String × String)
    → check_context ref path over ≡ ok c
    → (c.1 ≡ ref) × (path ≡ ok c.0) × (over ≡ none)
unfolding check_context
check_context-ok ref (err e) over c h = absurd (cc)
check_context-ok ref (ok path) (some e) c h = absurd (cc)
check_context-ok ref (ok path) none (p, r) h = (cc, cc, refl)

title_in-ok :
    (ref t : String) (r : Result (List TitledIssue))
    → title_in ref r ≡ ok t
    → (issues : List TitledIssue) × (r ≡ ok issues) × (t ≡ issue_title ref issues)
unfolding title_in
title_in-ok ref t (err e) h = absurd (cc)
title_in-ok ref t (ok issues) h = (issues, refl, cc)

module _ {W : Type 0} (shell : Shell W) where
  -- A reference that is not blank, a path that is a directory, and a context that is not done.
  abbrev pub IsChecked : String → String → W → String × String → Type 0
  IsChecked repo_path ref w c =
      (c.1 ≡ trim_space ref)
      × (trim_space ref ≢ "")
      × (shell.abs (trim_space repo_path) ≡ ok c.0)
      × (shell.is_dir c.0 w ≡ ok true)
      × (shell.context_error w ≡ none)

  check_dir-ok :
      (path : Result String) (w : W) (found : String)
      → check_dir shell path w ≡ ok found
      → (path ≡ ok found) × (shell.is_dir found w ≡ ok true)
  unfolding check_dir
  check_dir-ok (err e) w found h = absurd (cc)
  check_dir-ok (ok path) w found h =
      let (p, d) = dir_path-ok path found (shell.is_dir path w) h in
      (ap ok p, ap (λ x. shell.is_dir x w) (sym p) ∙ d)

  normalize_repo_path-ok :
      (repo_path : String) (w : W) (found : String)
      → normalize_repo_path shell repo_path w ≡ ok found
      → (shell.abs (trim_space repo_path) ≡ ok found) × (shell.is_dir found w ≡ ok true)
  unfolding normalize_repo_path
  normalize_repo_path-ok repo_path w found h =
      elim (Bool-cases (str_eq (trim_space repo_path) "")) [
        | inl e ↦ let q = rw e at h in absurd (cc)
        | inr e ↦ let q = rw e at h in check_dir-ok (shell.abs (trim_space repo_path)) w found q
      ]

  check_call-IsChecked :
      (repo_path ref : String) (w : W) (c : String × String)
      → check_call shell repo_path ref w ≡ ok c
      → IsChecked repo_path ref w c
  unfolding check_call
  check_call-IsChecked repo_path ref w c h = elim (Bool-cases (str_eq (trim_space ref) "")) [
    | inl e ↦ let q = rw e at h in absurd (cc)
    | inr e ↦
        let q = rw e at h in
        let (r, p, d) =
          check_context-ok (trim_space ref) (normalize_repo_path shell repo_path w)
            (shell.context_error w) c q in
        let (a, i) = normalize_repo_path-ok repo_path w c.0 p in
        (r, (λ x. let y = (str_eq_iff (trim_space ref) "").1 x in absurd (cc)), a, i, d)
  ]

  bd_answer-ok :
      (what : String) (a : Result String × W) (output : String)
      → (bd_answer shell what a).0 ≡ ok output
      → a.0 ≡ ok output
  unfolding bd_answer
  bd_answer-ok what (ok o, w) output h = h
  bd_answer-ok what (err e, w) output h = absurd (cc)

  -- What stands behind a title that is returned.
  abbrev pub IsViewed : String → String → String → W → Type 0
  IsViewed path ref t w =
      (output : String) × (issues : List TitledIssue) × ((shell.run path
          ("bd" ∷ "view" ∷ ref ∷ "--json" ∷ []) w).0
        ≡ ok output)
      × (shell.unmarshal_titles output ≡ ok issues)
      × (t ≡ issue_title ref issues)

  title_answer-ok :
      (ref t : String) (a : Result String × W)
      → (view_answer (title_of shell ref) a).0 ≡ ok t
      → (output : String) × (issues : List TitledIssue) × (a.0 ≡ ok output)
        × (shell.unmarshal_titles output ≡ ok issues)
        × (t ≡ issue_title ref issues)
  unfolding view_answer title_of
  title_answer-ok ref t (err e, w) h = absurd (cc)
  title_answer-ok ref t (ok output, w) h =
      let (issues, u, p) = title_in-ok ref t (shell.unmarshal_titles output) h in
      (output, issues, refl, u, p)

  view_checked-ok :
      (repo_path ref t : String) (w : W) (c : Result (String × String))
      → (view_checked shell (title_of shell) c w).0 ≡ ok t
      → (found : String × String) × (c ≡ ok found) × IsViewed found.0 found.1 t w
  unfolding view_checked run_bd
  view_checked-ok repo_path ref t w (err e) h = absurd (cc)
  view_checked-ok repo_path ref t w (ok (path, r)) h =
      let (output, issues, a, u, p) =
        title_answer-ok r t (run_bd shell ("bd view " & r) path ("view" ∷ r ∷ "--json" ∷ []) w) h in
      (
        (path, r),
        refl,
        (
          output,
          issues,
          bd_answer-ok _ (shell.run path ("bd" ∷ "view" ∷ r ∷ "--json" ∷ []) w) output a,
          u,
          p,
        ),
      )

  -- A title is returned only if the reference is not blank, the path is a directory, the context is
  -- not done and bd printed issues; it is then that of the issue, or else of the first one.
  pub get_title-ok :
      (repo_path ref t : String) (w : W)
      → (get_title shell repo_path ref w).0 ≡ ok t
      → (found : String × String) × IsChecked repo_path ref w found × IsViewed found.0 found.1 t w
  unfolding get_title view
  get_title-ok repo_path ref t w h =
      let (found, c, v) = view_checked-ok repo_path ref t w (check_call shell repo_path ref w) h in
      (found, check_call-IsChecked repo_path ref w found c, v)
