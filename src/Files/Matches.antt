-- ===== src/Files/Matches.antt =====
-- server/files.go: what a search returns.
use mango_agent.Base.{
  ℕ, zero, suc, ◌≤◌, Bool, false, Bool-cases, Option, none, some, List, [], ◌∷◌, ◌++◌, Text, length,
  take, length-append, leb, ltb, min, ◌≡◌, refl, ap, ◌∙◌, inl, inr, arith, All,
}
use mathlib.Core.List.{append-nil, append_assoc}
use mango_agent.Strings.{is_nil}
use mango_agent.Files.Search.{
  SearchMatch, Content, Visit, root_error, inner_error, entry, find_line, match_file_content,
  match_visit, line_match, is_root_error, walk_roots, search_files, search_result_limit,
}

take-exact : (n : ℕ) (xs ys : List SearchMatch) → length xs ≡ n → take n (xs ++ ys) ≡ xs
take-exact zero [] ys h = refl
take-exact zero (x ∷ xs) ys h = absurd (omega (arith, h))
take-exact (suc n) [] ys h = absurd (omega (arith, h))
take-exact (suc n) (x ∷ xs) ys h = ap (λ zs. x ∷ zs) (take-exact n xs ys (omega (arith, h)))

take-all : (n : ℕ) (xs : List SearchMatch) → length xs ≤ n → take n xs ≡ xs
take-all zero [] h = refl
take-all zero (x ∷ xs) h = absurd (omega (arith, h))
take-all (suc n) [] h = refl
take-all (suc n) (x ∷ xs) h = ap (λ zs. x ∷ zs) (take-all n xs (omega (arith, h)))

line_match-length : (path : Text) (o : Option (ℕ × Text)) → length (line_match path o) ≤ 1
line_match-length path none = omega arith
line_match-length path (some (n, text)) = omega arith

length-take : (n : ℕ) (xs : List SearchMatch) → length (take n xs) ≡ min n (length xs)
length-take zero xs = omega arith
length-take (suc n) [] = omega arith
length-take (suc n) (x ∷ xs) = omega (arith, length-take n xs)

leb-min : (n m k : ℕ) → m ≡ min n k → leb n m ≡ leb n k
leb-min n m k h = ground (arith, h)

module _ (to_lower : Text → Text) where
  -- The matches of all calls, without a limit.
  unfoldable pub all_matches : Bool → Text → List Visit → List SearchMatch
  all_matches include_content lower_query [] = []
  all_matches include_content lower_query (v ∷ vs) =
      match_visit to_lower include_content lower_query v
      ++ all_matches include_content lower_query vs

  match_file_content-length :
      (q path : Text) (o : Option Content) → length (match_file_content to_lower q path o) ≤ 1
  unfolding match_file_content
  match_file_content-length q path none = omega arith
  match_file_content-length q path (some c) = elim (Bool-cases (ltb 10485760 c.size)) [
    | inl large ↦ rw large (omega arith)
    | inr small ↦ rw small (line_match-length path (find_line to_lower q 0 c.lines))
  ]

  match_visit-length : (b : Bool) (q : Text) (v : Visit) → length (match_visit to_lower b q v) ≤ 1
  unfolding match_visit
  match_visit-length b q root_error = omega arith
  match_visit-length b q inner_error = omega arith
  match_visit-length b q (entry path name is_dir is_symlink content) =
      ground (arith, match_file_content-length q path content)

  walk_roots-lem :
      (b : Bool) (q : Text) (vs : List Visit) (matches : List SearchMatch)
      → All (λ v. is_root_error v ≡ false) vs
      → length matches ≤ search_result_limit
      → walk_roots to_lower b q vs matches
        ≡ some (take search_result_limit (matches ++ all_matches b q vs))
  unfolding walk_roots all_matches
  walk_roots-lem b q [] matches h le = rw (append-nil, take-all search_result_limit matches le) refl
  walk_roots-lem b q (v ∷ vs) matches h le =
      elim (Bool-cases (leb search_result_limit (length matches))) [
        | inl full ↦
            let e : length matches ≡ search_result_limit = ground (arith, full, le) in
            simp (
              full,
              take-exact search_result_limit matches
                  (match_visit to_lower b q v ++ all_matches b q vs) e,
            )
        | inr free ↦
            let n = match_visit-length b q v in
            let k = length-append matches (match_visit to_lower b q v) in
            simp (free, h.0)
              (walk_roots-lem b q vs (matches ++ match_visit to_lower b q v) h.1
                  (ground (arith, n, k, free))
                ∙ ap (λ ms. some (take search_result_limit ms))
                    (append_assoc matches (match_visit to_lower b q v) (all_matches b q vs)))
      ]

  -- A search for a query that is not empty, over roots that can be read, returns the first 500
  -- matches of all that it comes to, in order, and reports them as limited exactly if there are 500
  -- or more.
  pub search_files-take :
      (query : Text) (include_content : Bool) (vs : List Visit)
      → is_nil query ≡ false
      → All (λ v. is_root_error v ≡ false) vs
      → let found = all_matches include_content (to_lower query) vs in
        search_files to_lower query include_content vs
        ≡ some (take search_result_limit found, leb search_result_limit (length found))
  unfolding search_files
  search_files-take query include_content vs named readable =
      let found = all_matches include_content (to_lower query) vs in
      let e = walk_roots-lem include_content (to_lower query) vs [] readable (omega arith) in
      let n = length-take search_result_limit found in
      simp (named, e)
        (ap (λ l. some (take search_result_limit found, l))
          (leb-min search_result_limit (length (take search_result_limit found)) (length found) n))
