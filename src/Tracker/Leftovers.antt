-- ===== src/Tracker/Leftovers.antt =====
-- The temporary files of AddComment in internal/tracker/beads.go.
use yaralpho.Base.{
  ◌≡◌, refl, ap, ◌∙◌, inl, inr, Bool-cases, Result-cases, Option-cases, ◌||◌, Option, none, some,
  List, ◌∷◌, String, Error, Result, ok, err,
}
use yaralpho.Base.Text.{contains}
use yaralpho.Tracker.Beads.{
  Shell, run_bd, bd_answer, fill_temp, send_file, add_by_file, add_comment, check_call,
}

-- The files of a directory for temporary files, and what the operations on files do to it: a file that
-- is created is a new one, and is gone when it is removed; nothing else adds or removes one.
pub record IsDisk {W : Type 0} (shell : Shell W) (files : W → List String) : Type 0 where
  pub runs :
      (path : String) (args : List String) (w : W) → files (shell.run path args w).1 ≡ files w
  pub creates :
      (w : W) (name : String)
      → (shell.create_temp w).0 ≡ ok name
      → files (shell.create_temp w).1 ≡ name ∷ files w
  pub creates_none :
      (w : W) (e : Error)
      → (shell.create_temp w).0 ≡ err e
      → files (shell.create_temp w).1 ≡ files w
  pub writes : (name text : String) (w : W) → files (shell.write_temp name text w).1 ≡ files w
  pub closes : (name : String) (w : W) → files (shell.close_temp name w).1 ≡ files w
  pub removes :
      (name : String) (l : List String) (w : W)
      → files w ≡ name ∷ l
      → files (shell.remove name w) ≡ l

module _ {W : Type 0} (shell : Shell W) (files : W → List String) (disk : IsDisk shell files) where
  bd_answer-world : (what : String) (a : Result String × W) → (bd_answer shell what a).1 ≡ a.1
  unfolding bd_answer
  bd_answer-world what (ok o, w) = refl
  bd_answer-world what (err e, w) = refl

  run_bd-files :
      (what path : String) (args : List String) (w : W)
      → files (run_bd shell what path args w).1 ≡ files w
  unfolding run_bd
  run_bd-files what path args w =
      ap files (bd_answer-world what (shell.run path ("bd" ∷ args) w))
      ∙ disk.runs path ("bd" ∷ args) w

  fill_temp-files : (name text : String) (w : W) → files (fill_temp shell name text w).1 ≡ files w
  unfolding fill_temp
  fill_temp-files name text w =
      let w1 = (shell.write_temp name text w).1 in
      let kept = disk.closes name w1 ∙ disk.writes name text w in
      elim (Option-cases (shell.write_temp name text w).0) [
        | inr (e, p) ↦ rw (fill_temp, p) kept
        | inl p ↦ elim (Option-cases (shell.close_temp name w1).0) [
          | inr (e, q) ↦ rw (fill_temp, p, q) kept
          | inl q ↦ rw (fill_temp, p, q) kept
        ]
      ]

  send_file-files :
      (path ref name : String) (filled : Option Error × W)
      → files (send_file shell path ref name filled).1 ≡ files filled.1
  unfolding send_file
  send_file-files path ref name (some e, w) = refl
  send_file-files path ref name (none, w) = run_bd-files _ path _ w

  add_by_file-files :
      (path ref text : String) (w : W)
      → files (add_by_file shell path ref text (shell.create_temp w)).1 ≡ files w
  unfolding add_by_file
  add_by_file-files path ref text w =
      let made = (shell.create_temp w).1 in
      elim (Result-cases (shell.create_temp w).0) [
        | inr (e, p) ↦ rw (add_by_file, p) (disk.creates_none w e p)
        | inl (name, p) ↦
            let filled = fill_temp shell name text made in
            rw (add_by_file, p)
              (disk.removes name (files w) (send_file shell path ref name filled).1 (
                send_file-files path ref name filled
                ∙ fill_temp-files name text made
                ∙ disk.creates w name p))
      ]

  -- AddComment leaves the temporary files as it found them, whether it fails or not and at whichever
  -- of its steps: a file that it has made is removed.
  pub add_comment-files :
      (repo_path ref text : String) (w : W)
      → files (add_comment shell repo_path ref text w).1 ≡ files w
  unfolding add_comment
  add_comment-files repo_path ref text w = elim (Result-cases (check_call shell repo_path ref w)) [
    | inr (e, p) ↦ rw (add_comment, p) refl
    | inl (found, p) ↦ elim (Bool-cases (contains text "\n" || contains text "\r")) [
      | inl q ↦ rw (add_comment, p, q) (add_by_file-files found.0 found.1 text w)
      | inr q ↦ rw (add_comment, p, q) (run_bd-files _ found.0 _ w)
    ]
  ]
