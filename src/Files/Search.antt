-- ===== src/Files/Search.antt =====
-- server/files.go: `searchFiles`, over what a walk of its roots comes to.
use mango_agent.Base.{
  ℕ, ◌+◌, Bool, true, false, not, ◌&&◌, Option, none, some, List, [], ◌∷◌, ◌++◌, Text, length, take,
  if◌then◌else◌, leb, ltb,
}
use mango_agent.Strings.{is_nil, contains}

-- `searchResultLimit`
abbrev pub search_result_limit : ℕ
search_result_limit = 500

-- `searchMatch`; `path` is as `virtualizeFilePath` gives it.
pub record SearchMatch : Type 0 where
  pub path : Text
  pub line : ℕ
  pub text : Text
  pub is_dir : Bool

-- What `matchFileContent` reads of a file: its size and the lines that its scanner comes to.
pub record Content : Type 0 where
  pub size : ℕ
  pub lines : List Text

-- A call of the function that `filepath.WalkDir` is given: an error at the root, an error below it,
-- or an entry, with the content of its target if that is a file that can be read.
pub data Visit : Type 0 where
  root_error : Visit
  inner_error : Visit
  entry : Text → Text → Bool → Bool → Option Content → Visit

abbrev pub line_match : Text → Option (ℕ × Text) → List SearchMatch
line_match path none = []
line_match path (some (n, text)) =
    record { path = path; line = n; text = text; is_dir = false } ∷ []

abbrev pub is_root_error : Visit → Bool
is_root_error root_error = true
is_root_error _ = false

abbrev with_limit : Option (List SearchMatch) → Option (List SearchMatch × Bool)
with_limit none = none
with_limit (some matches) = some (matches, leb search_result_limit (length matches))

-- `to_lower` is `strings.ToLower`.
module _ (to_lower : Text → Text) where
  unfoldable pub find_line : Text → ℕ → List Text → Option (ℕ × Text)
  find_line lower_query n [] = none
  find_line lower_query n (l ∷ ls) =
      let rest = find_line lower_query (n + 1) ls in
      if contains (to_lower l) lower_query then some (n + 1, take 300 l) else rest

  -- `matchFileContent`
  unfoldable pub match_file_content : Text → Text → Option Content → List SearchMatch
  match_file_content lower_query path none = []
  match_file_content lower_query path (some c) =
      if ltb 10485760 c.size then [] else line_match path (find_line lower_query 0 c.lines)

  -- What one call adds to `matches`.
  unfoldable pub match_visit : Bool → Text → Visit → List SearchMatch
  match_visit include_content lower_query root_error = []
  match_visit include_content lower_query inner_error = []
  match_visit include_content lower_query (entry path name is_dir is_symlink content) =
      if contains (to_lower name) lower_query && not include_content
      then record { path = path; line = 0; text = []; is_dir = is_dir } ∷ []
      else if include_content && not is_dir && not is_symlink
      then match_file_content lower_query path content
      else []

  -- The walks over the roots, one after another; `none` is an error. A walk that is cut short by
  -- `fs.SkipAll` leaves all calls after it without effect.
  unfoldable pub walk_roots :
      Bool → Text → List Visit → List SearchMatch → Option (List SearchMatch)
  walk_roots include_content lower_query [] matches = some matches
  walk_roots include_content lower_query (v ∷ vs) matches =
      let rest =
        walk_roots include_content lower_query vs
          (matches ++ match_visit include_content lower_query v) in
      if leb search_result_limit (length matches)
      then some matches
      else if is_root_error v
      then none
      else rest

  -- `searchFiles`: the matches, and whether it reports them as limited.
  unfoldable pub search_files : Text → Bool → List Visit → Option (List SearchMatch × Bool)
  search_files query include_content visits =
      if is_nil query
      then none
      else with_limit (walk_roots include_content (to_lower query) visits [])
