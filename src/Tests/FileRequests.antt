-- ===== src/Tests/FileRequests.antt =====
-- server/files.go on small inputs.
use mango_agent.Base.{
  true, false, lookup, none, some, List, [], ◌∷◌, codes, length, take, leb, ◌≡◌, refl,
}
use mango_agent.Strings.{to_lower}
use mango_agent.Upload.Data.{text, arg_string}
use mango_agent.Files.Dispatch.{mkdir_call, select_operation, execute_file_operation}
use mango_agent.Files.Search.{Visit, inner_error, entry, search_files, search_result_limit}
use mango_agent.Files.Matches.{all_matches, search_files-take}

abbrev visits : List Visit
visits =
    entry (codes "/a") (codes "a") true false none
    ∷ inner_error
    ∷ entry (codes "/a/x") (codes "x") false false
        (some (record { size = 9; lines = codes "one" ∷ codes "TWO" ∷ [] }))
    ∷ []

search_files-take_example :
    search_files to_lower (codes "two") true visits
    ≡ some (
      take search_result_limit (all_matches to_lower true (to_lower (codes "two")) visits),
      leb search_result_limit (length (all_matches to_lower true (to_lower (codes "two")) visits)),
    )
search_files-take_example =
    search_files-take to_lower (codes "two") true visits refl (refl, (refl, (refl, tt)))

mkdir_selected :
    execute_file_operation false (codes "mkdir") ((codes "path", text (codes "/tmp/a")) ∷ [])
    ≡ some (mkdir_call (codes "/tmp/a") [])
unfolding execute_file_operation select_operation arg_string lookup
mkdir_selected = refl
