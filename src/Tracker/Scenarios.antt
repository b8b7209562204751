-- ===== src/Tracker/Scenarios.antt =====
-- A bd command with two issues, and the theorems about internal/tracker/beads.go applied to it.
use yaralpho.Base.{ℕ, suc, ◌≡◌, refl, true, none, some, List, [], ◌∷◌, message, ok, String, ap}
use yaralpho.Base.Text.{trim_space}
use yaralpho.Tracker.Beads.{
  Shell, CommentedIssue, RawComment, TitledIssue, issue_comments, add_comment, get_title,
}
use yaralpho.Tracker.Leftovers.{IsDisk, add_comment-files}

abbrev comment : RawComment
comment = record { id = "1"; author = "a"; text = "t"; created_at = ""; updated_at = "" }

-- The first issue has a comment, and the second none.
abbrev commented : List CommentedIssue
commented =
    record { id = "issue-1"; comments = some (comment ∷ []) }
    ∷ record { id = "issue-2"; comments = none }
    ∷ []

abbrev titled : List TitledIssue
titled = record { id = "issue-1"; title = "One" } ∷ record { id = "issue-2"; title = " Two " } ∷ []

-- The world counts the calls.
abbrev shell : Shell ℕ
shell = record {
  abs = λ path. ok path;
  is_dir = λ path w. ok true;
  context_error = λ w. none;
  run = λ path args w. (ok "[]", suc w);
  create_temp = λ w. (ok "f", suc w);
  write_temp = λ name text w. (some (message "no space"), suc w);
  close_temp = λ name w. (none, suc w);
  remove = λ name w. suc w;
  unmarshal_comments = λ output. ok commented;
  unmarshal_titles = λ output. ok titled;
  parse_time = λ raw. ok 1;
}

-- An issue without comments is given those of the first issue.
issue_comments_test : issue_comments "issue-2" commented ≡ comment ∷ []
unfolding issue_comments
issue_comments_test = refl

-- A disk whose files are the world; nothing can be written to a file.
abbrev first_gone : List String → List String
first_gone [] = []
first_gone (x ∷ rest) = rest

abbrev full_disk : Shell (List String)
full_disk = record {
  abs = λ path. ok path;
  is_dir = λ path w. ok true;
  context_error = λ w. none;
  run = λ path args w. (ok "[]", w);
  create_temp = λ w. (ok "f", "f" ∷ w);
  write_temp = λ name text w. (some (message "no space"), w);
  close_temp = λ name w. (none, w);
  remove = λ name w. first_gone w;
  unmarshal_comments = λ output. ok commented;
  unmarshal_titles = λ output. ok titled;
  parse_time = λ raw. ok 1;
}

full_disk-IsDisk : IsDisk full_disk (λ w. w)
full_disk-IsDisk = record {
  runs = λ path args w. refl;
  creates = λ w name h. let p : "f" ≡ name = cc in ap (λ x. x ∷ w) p;
  creates_none = λ w e h. absurd (cc);
  writes = λ name text w. refl;
  closes = λ name w. refl;
  removes = λ name l w h. ap first_gone h;
}

add_comment-files_example :
    (add_comment full_disk "/r" "issue-1" "a\nb" ("other" ∷ [])).1 ≡ "other" ∷ []
add_comment-files_example =
    add_comment-files full_disk (λ w. w) full_disk-IsDisk "/r" "issue-1" "a\nb" ("other" ∷ [])

get_title_test : (get_title shell "/r" " issue-2" 0).0 ≡ ok "Two"
unfolding get_title trim_space
get_title_test = refl
