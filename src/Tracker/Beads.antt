-- ===== src/Tracker/Beads.antt =====
-- internal/tracker/beads.go: `Beads`, the tracker that runs the bd command. The file system, the
-- command, the JSON decoder and time.Parse are parameters; the logger is left out, and a context that
-- is done is an answer of `context_error`.
use yaralpho.Base.{
  Bool, true, false, ◌||◌, Option, none, some, List, [], ◌∷◌, ◌++◌, String, Error, message, wrap,
  Result, ok, err, str_eq, if◌then◌else◌,
}
use yaralpho.Base.Text.{trim_space, contains, ◌&◌}
use yaralpho.Storage.Models.{Time}
use yaralpho.Storage.Interface.{Read}
use yaralpho.Tracker.Interface.{Comment, Tracker}

-- A comment as bd prints it.
pub record RawComment : Type 0 where
  pub id : String
  pub author : String
  pub text : String
  pub created_at : String
  pub updated_at : String

-- An issue that FetchComments decodes: a missing list of comments is a nil slice.
pub record CommentedIssue : Type 0 where
  pub id : String
  pub comments : Option (List RawComment)

-- An issue that GetTitle decodes.
pub record TitledIssue : Type 0 where
  pub id : String
  pub title : String

pub record Shell (W : Type 0) : Type 0 where
  pub abs : String → Result String
  pub is_dir : String → W → Result Bool
  pub context_error : W → Option Error
  pub run : String → List String → W → Result String × W
  pub create_temp : W → Result String × W
  pub write_temp : String → String → W → Option Error × W
  pub close_temp : String → W → Option Error × W
  pub remove : String → W → W
  pub unmarshal_comments : String → Result (List CommentedIssue)
  pub unmarshal_titles : String → Result (List TitledIssue)
  pub parse_time : String → Result Time

-- The comments of the issue `ref`, or of the first issue where that one is not there or has none.
pub find_comments : String → List CommentedIssue → Option (List RawComment)
find_comments ref [] = none
find_comments ref (i ∷ rest) = if str_eq i.id ref then i.comments else find_comments ref rest

or_empty : Option (List RawComment) → List RawComment
or_empty none = []
or_empty (some cs) = cs

unfoldable pub issue_comments : String → List CommentedIssue → List RawComment
unfolding find_comments or_empty
issue_comments ref [] = []
issue_comments ref (i ∷ rest) = elim (find_comments ref (i ∷ rest)) [
  | some cs ↦ cs
  | none ↦ or_empty i.comments
]

-- The title of the issue `ref`, or of the first issue.
pub find_title : String → List TitledIssue → Option String
find_title ref [] = none
find_title ref (i ∷ rest) = if str_eq i.id ref then some i.title else find_title ref rest

unfoldable pub issue_title : String → List TitledIssue → String
unfolding find_title
issue_title ref [] = ""
issue_title ref (i ∷ rest) = elim (find_title ref (i ∷ rest)) [
  | some t ↦ trim_space t
  | none ↦ trim_space i.title
]

-- The error of a command: the context's, where that is done.
abbrev pub command_error : String → Option Error → Error → Error
command_error what none e = wrap what e
command_error what (some x) e = x

-- A path that is a directory.
unfoldable pub dir_path : String → Result Bool → Result String
dir_path path (err e) = err (wrap "repo path" e)
dir_path path (ok true) = ok path
dir_path path (ok false) = err (message ("repo path is not a directory: " & path))

-- The path and the reference, where the context is not done.
unfoldable pub check_context : String → Result String → Option Error → Result (String × String)
check_context ref (err e) over = err e
check_context ref (ok path) (some e) = err e
check_context ref (ok path) none = ok (path, ref)

unfoldable pub view_answer : {A W : Type 0} → (String → Result A) → Result String × W → Read A W
view_answer read (err e, w) = (err e, w)
view_answer read (ok output, w) = (read output, w)

unfoldable pub title_in : String → Result (List TitledIssue) → Result String
unfolding issue_title
title_in ref (err e) = err (wrap ("parse bd view " & ref) e)
title_in ref (ok issues) = ok (issue_title ref issues)

dropped : Result String → Option Error
dropped (ok output) = none
dropped (err e) = some e

unfoldable pub comment_args : String → List String
comment_args ref = "comments" ∷ "add" ∷ ref ∷ []

module _ {W : Type 0} (shell : Shell W) where
  -- os.Stat of an absolute path.
  unfoldable pub check_dir : Result String → W → Result String
  unfolding dir_path
  check_dir (err e) w = err (wrap "repo path abs" e)
  check_dir (ok path) w = dir_path path (shell.is_dir path w)

  -- `normalizeRepoPath`
  unfoldable pub normalize_repo_path : String → W → Result String
  unfolding check_dir
  normalize_repo_path repo_path w =
      let trimmed = trim_space repo_path in
      if str_eq trimmed ""
      then err (message "repo path is required")
      else check_dir (shell.abs trimmed) w

  -- What every operation checks first: the reference, the path and the context.
  unfoldable pub check_call : String → String → W → Result (String × String)
  unfolding normalize_repo_path check_context
  check_call repo_path ref w =
      let trimmed = trim_space ref in
      if str_eq trimmed ""
      then err (message "ref is required")
      else check_context trimmed (normalize_repo_path repo_path w) (shell.context_error w)

  -- The answer of a command, whose error is the context's where that is done.
  unfoldable pub bd_answer : String → Result String × W → Result String × W
  bd_answer what (ok output, w) = (ok output, w)
  bd_answer what (err e, w) = (err (command_error what (shell.context_error w) e), w)

  -- bd with the arguments.
  unfoldable pub run_bd : String → String → List String → W → Result String × W
  unfolding bd_answer
  run_bd what path args w = bd_answer what (shell.run path ("bd" ∷ args) w)

  -- The text is written to a temporary file, which is closed.
  unfoldable pub fill_temp : String → String → W → Option Error × W
  fill_temp name text w =
      let (written, w1) = shell.write_temp name text w in
      let (closed, w2) = shell.close_temp name w1 in
      elim written [
        | some e ↦ (some (wrap "write temp file" e), w2)
        | none ↦ elim closed [ some e ↦ (some (wrap "close temp file" e), w2) | none ↦ (none, w2) ]
      ]

  -- The comment is added from the file.
  unfoldable pub send_file : String → String → String → Option Error × W → Option Error × W
  unfolding run_bd comment_args dropped
  send_file path ref name (some e, w) = (some e, w)
  send_file path ref name (none, w) =
      let (answer, w') =
        run_bd ("bd comments add " & ref) path (comment_args ref ++ ("-f" ∷ name ∷ [])) w in
      (dropped answer, w')

  -- A comment by a file that holds its text, which is removed in the end.
  unfoldable pub add_by_file : String → String → String → Result String × W → Option Error × W
  unfolding fill_temp send_file
  add_by_file path ref text (err e, w) = (some (wrap "create temp file" e), w)
  add_by_file path ref text (ok name, w) =
      let (e, w') = send_file path ref name (fill_temp name text w) in (e, shell.remove name w')

  -- `AddComment`
  unfoldable pub add_comment : String → String → String → W → Option Error × W
  unfolding check_call run_bd comment_args dropped add_by_file
  add_comment repo_path ref text w = elim (check_call repo_path ref w) [
    | err e ↦ (some e, w)
    | ok (path, trimmed) ↦
        if contains text "\n" || contains text "\r"
        then add_by_file path trimmed text (shell.create_temp w)
        else (let (answer, w1) =
              run_bd ("bd comments add " & trimmed) path (comment_args trimmed ++ (text ∷ [])) w in
            (dropped answer, w1))
  ]

  -- A time that bd prints, where it prints one.
  unfoldable pub optional_time : String → Result Time
  optional_time raw = if str_eq raw "" then ok 0 else shell.parse_time raw

  -- One comment, with its times parsed.
  unfoldable pub read_comment : String → RawComment → Result Comment
  unfolding optional_time
  read_comment ref c = elim (optional_time c.created_at) [
    | err e ↦ err (wrap ("parse created_at for " & ref) e)
    | ok created ↦ elim (optional_time c.updated_at) [
      | err e ↦ err (wrap ("parse updated_at for " & ref) e)
      | ok updated ↦ ok (record {
        id = c.id;
        author = c.author;
        text = c.text;
        created_at = created;
        updated_at = updated;
      })
    ]
  ]

  unfoldable pub read_comments : String → List RawComment → Result (List Comment)
  unfolding read_comment
  read_comments ref [] = ok []
  read_comments ref (c ∷ rest) =
      let later = read_comments ref rest in
      elim (read_comment ref c) [
        | err e ↦ err e
        | ok x ↦ elim later [ err e ↦ err e | ok xs ↦ ok (x ∷ xs) ]
      ]

  -- bd view of a reference that is checked.
  unfoldable pub view_checked :
      {A : Type 0} → (String → String → Result A) → Result (String × String) → W → Read A W
  unfolding run_bd view_answer
  view_checked read (err e) w = (err e, w)
  view_checked read (ok (path, ref)) w =
      view_answer (read ref) (run_bd ("bd view " & ref) path ("view" ∷ ref ∷ "--json" ∷ []) w)

  -- bd view, and what is made of its output.
  unfoldable pub view : {A : Type 0} → (String → String → Result A) → String → String → W → Read A W
  unfolding check_call view_checked
  view read repo_path ref w = view_checked read (check_call repo_path ref w) w

  unfoldable pub comments_of : String → String → Result (List Comment)
  unfolding issue_comments read_comments
  comments_of ref output = elim (shell.unmarshal_comments output) [
    | err e ↦ err (wrap ("parse bd view " & ref) e)
    | ok issues ↦ read_comments ref (issue_comments ref issues)
  ]

  -- `FetchComments`
  unfoldable pub fetch_comments : String → String → W → Read (List Comment) W
  unfolding view comments_of
  fetch_comments = view comments_of

  unfoldable pub title_of : String → String → Result String
  unfolding title_in
  title_of ref output = title_in ref (shell.unmarshal_titles output)

  -- `GetTitle`
  unfoldable pub get_title : String → String → W → Read String W
  unfolding view title_of
  get_title = view title_of

  -- `NewBeads`, as the tracker that the worker calls.
  unfoldable pub beads : Tracker W
  unfolding add_comment fetch_comments get_title
  beads = record {
    add_comment = add_comment;
    fetch_comments = fetch_comments;
    get_title = get_title;
  }
