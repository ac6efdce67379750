-- ===== src/Update/Pages.antt =====
-- update/update.go: the pages of the list of releases.
use mango_agent.Base.{
  ℕ, zero, suc, ◌+◌, ◌≤◌, ◌<◌, true, false, Option, some, List, [], ◌++◌, length, ltb, ◌≡◌, refl,
  ap, ◌∙◌, arith,
}
use mathlib.Core.List.{append_assoc}
use mango_agent.Update.Releases.{Release, all_listed, page_size, list_from, list_github_releases}

-- The pages `page`, …, `page + n` one after another.
abbrev pub concat_pages : (ℕ → List Release) → ℕ → ℕ → List Release
concat_pages pages zero page = pages page
concat_pages pages (suc n) page = pages page ++ concat_pages pages n (page + 1)

list_from_lem :
    (pages : ℕ → Option (List Release)) (content : ℕ → List Release) (end n fuel page : ℕ)
    (acc : List Release)
    → end ≡ page + n
    → n < fuel
    → ((i : ℕ) → page ≤ i → i ≤ end → pages i ≡ some (content i))
    → ((i : ℕ) → page ≤ i → i < end → page_size ≤ length (content i))
    → length (content end) < page_size
    → list_from fuel pages acc page ≡ all_listed (acc ++ concat_pages content n page)
unfolding list_from
list_from_lem pages content end n zero page acc e f ok full last = absurd (omega (arith, f))
list_from_lem pages content end zero (suc fuel) page acc e f ok full last =
    let e' : end ≡ page = omega (arith, e) in
    let short : ltb (length (content page)) page_size ≡ true =
      let l : length (content page) < page_size = simp e' at last in ground (arith, l) in
    simp (ok page (omega arith) (omega (arith, e)), short)
list_from_lem pages content end (suc n) (suc fuel) page acc e f ok full last =
    let long : ltb (length (content page)) page_size ≡ false =
      ground (arith, full page (omega arith) (omega (arith, e))) in
    simp (ok page (omega arith) (omega (arith, e)), long)
      (list_from_lem pages content end n fuel (page + 1) (acc ++ content page) (omega (arith, e))
          (omega (arith, f)) (λ i lo hi. ok i (omega (arith, lo)) hi)
          (λ i lo hi. full i (omega (arith, lo)) hi) last
        ∙ ap all_listed (append_assoc acc (content page) (concat_pages content n (page + 1))))

-- When the pages up to the first that has fewer than 100 releases are answered without error, the
-- list ends after that one, with more requests allowed than there are pages, and it holds the
-- releases of these pages in their order.
pub list_github_releases-listed :
    (pages : ℕ → Option (List Release)) (content : ℕ → List Release) (n fuel : ℕ)
    → n < fuel
    → ((i : ℕ) → 1 ≤ i → i ≤ 1 + n → pages i ≡ some (content i))
    → ((i : ℕ) → 1 ≤ i → i < 1 + n → page_size ≤ length (content i))
    → length (content (1 + n)) < page_size
    → list_github_releases fuel pages ≡ all_listed (concat_pages content n 1)
unfolding list_github_releases
list_github_releases-listed pages content n fuel f ok full last =
    list_from_lem pages content (1 + n) n fuel 1 [] refl f ok full last
