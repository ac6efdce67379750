-- ===== src/Update/Latest.antt =====
-- update/update.go: the release that is chosen among those that have an asset for the machine.
use mango_agent.Base.{
  ◌<◌, ltb, >>=-eq-some, ◌||◌, not, ap, true, false, Bool-cases, Option, none, some, List, [], ◌∷◌,
  Text, All, ◌≡◌, ◌⊎◌, refl, inl, inr, arith,
}
use mango_agent.Strings.{has_prefix}
use mango_agent.Update.Releases.{
  Asset, find_release_asset, candidate_of, snapshot_version_prefix, Release, Candidate, candidate,
  text_lt, is_newer, take_newer, select_from, select_latest_snapshot_release,
}

text_le_trans : (a b c : Text) → text_lt b a ≡ false → text_lt c b ≡ false → text_lt c a ≡ false
unfolding text_lt
text_le_trans [] b c h k = refl
text_le_trans (x ∷ a) [] c h k = cc
text_le_trans (x ∷ a) (y ∷ b) [] h k = cc
text_le_trans (x ∷ a) (y ∷ b) (z ∷ c) h k = ground (arith, text_le_trans a b c, h, k)

text_lt_asym : (a b : Text) → text_lt a b ≡ true → text_lt b a ≡ false
unfolding text_lt
text_lt_asym a [] h = cc
text_lt_asym [] (y ∷ b) h = refl
text_lt_asym (x ∷ a) (y ∷ b) h = ground (arith, text_lt_asym a b, h)

not_newer_trans :
    (a b c : Candidate) → is_newer a b ≡ false → is_newer b c ≡ false → is_newer a c ≡ false
unfolding is_newer
not_newer_trans a b c h k = ground (
  arith,
  text_le_trans a.tag_name b.tag_name c.tag_name,
  text_le_trans c.tag_name b.tag_name a.tag_name,
  h,
  k,
)

is_newer_asym : (a b : Candidate) → is_newer a b ≡ true → is_newer b a ≡ false
unfolding is_newer
is_newer_asym a b h = ground (arith, text_lt_asym b.tag_name a.tag_name, h)

-- The candidate `d` is not after `c`, by publication and then by tag.
abbrev pub IsNotAfter : Candidate → Candidate → Type 0
IsNotAfter d c =
    (d.published_at < c.published_at)
    ⊎ ((d.published_at ≡ c.published_at) × (text_lt c.tag_name d.tag_name ≡ false))

not_newer-IsNotAfter : (d c : Candidate) → is_newer d c ≡ false → IsNotAfter d c
unfolding is_newer
not_newer-IsNotAfter d c h = elim (Bool-cases (ltb d.published_at c.published_at)) [
  | inl before ↦ inl (ground (arith, before))
  | inr later ↦
      let same : d.published_at ≡ c.published_at = ground (arith, later, h) in
      inr (same, ground (arith, same, h))
]

-- The release is one to choose, with the candidate `c`: a published pre-release of the snapshot track
-- with an asset for the machine.
pub record IsCandidate (asset_name : Text) (r : Release) (c : Candidate) : Type 0 where
  pub published : r.draft ≡ false
  pub is_prerelease : r.prerelease ≡ true
  pub prefixed : has_prefix r.tag_name snapshot_version_prefix ≡ true
  pub asset : Asset
  pub has_asset : find_release_asset r asset_name ≡ some asset
  pub is_candidate : candidate_of r asset ≡ c

candidate-IsCandidate :
    (asset_name : Text) (r : Release) (c : Candidate)
    → candidate asset_name r ≡ some c
    → IsCandidate asset_name r c
unfolding candidate
candidate-IsCandidate asset_name r c h =
    let prefixed = has_prefix r.tag_name snapshot_version_prefix in
    elim (Bool-cases (r.draft || not r.prerelease || not prefixed)) [
      | inl skipped ↦ cc (simp skipped at h)
      | inr taken ↦
          let (asset, e, k) =
            >>=-eq-some (find_release_asset r asset_name) (λ a. some (candidate_of r a))
              (simp taken at h) in
          record {
            published = ground (arith, taken);
            is_prerelease = ground (arith, taken);
            prefixed = ground (arith, taken);
            asset = asset;
            has_asset = e;
            is_candidate = cc;
          }
    ]

IsCandidate-candidate :
    (asset_name : Text) (r : Release) (c : Candidate)
    → IsCandidate asset_name r c
    → candidate asset_name r ≡ some c
unfolding candidate
IsCandidate-candidate asset_name r c h =
    let taken : (r.draft || not r.prerelease || not (has_prefix r.tag_name snapshot_version_prefix))
        ≡ false =
      ground (arith, h.published, h.is_prerelease, h.prefixed) in
    simp (taken, h.has_asset) (ap some h.is_candidate)

-- No candidate of the releases is after it.
abbrev pub IsLatest : Text → List Release → Candidate → Type 0
IsLatest asset_name releases c =
    All (λ r. (d : Candidate) → IsCandidate asset_name r d → IsNotAfter d c) releases

-- Some release has the candidate.
abbrev pub IsFrom : Text → List Release → Candidate → Type 0
IsFrom asset_name [] c = ⊥
IsFrom asset_name (r ∷ rs) c = IsCandidate asset_name r c ⊎ IsFrom asset_name rs c

abbrev NoNewer : Option Candidate → Candidate → Type 0
NoNewer o c = (d : Candidate) → o ≡ some d → is_newer d c ≡ false

the_newer : (l x c : Candidate) → is_newer l x ≡ false → NoNewer (some x) c → NoNewer (some l) c
the_newer l x c h p d e = let e' : l ≡ d = cc in rw⁻¹ e' (not_newer_trans l x c h (p x refl))

later-NoNewer :
    (o m : Option Candidate) (c : Candidate)
    → NoNewer (take_newer o m) c
    → NoNewer o c × NoNewer m c
later-NoNewer none none c p = (p, p)
later-NoNewer none (some x) c p = (λ d e. cc, p)
later-NoNewer (some l) none c p = (p, λ d e. cc)
later-NoNewer (some l) (some x) c p = elim (Bool-cases (is_newer x l)) [
  | inl new ↦
      let q : NoNewer (some x) c = simp new at p in (the_newer l x c (is_newer_asym x l new) q, q)
  | inr old ↦ let q : NoNewer (some l) c = simp old at p in (q, the_newer x l c old q)
]

later-either :
    (o m : Option Candidate) (c : Candidate) → take_newer o m ≡ some c → (o ≡ some c) ⊎ (m ≡ some c)
later-either o none c h = inl h
later-either none (some x) c h = inr h
later-either (some l) (some x) c h = elim (Bool-cases (is_newer x l)) [
  | inl new ↦ inr (simp new at h)
  | inr old ↦ inl (simp old at h)
]

select_from-IsLatest :
    (asset_name : Text) (rs : List Release) (o : Option Candidate) (c : Candidate)
    → select_from asset_name o rs ≡ some c
    → NoNewer o c × IsLatest asset_name rs c × ((o ≡ some c) ⊎ IsFrom asset_name rs c)
unfolding select_from
select_from-IsLatest asset_name [] o c h = (λ d e. let e' : d ≡ c = cc in rw e' (self c), tt, inl h)
  where
    self : (c : Candidate) → is_newer c c ≡ false
    self c = elim (Bool-cases (is_newer c c)) [ inl new ↦ is_newer_asym c c new | inr old ↦ old ]
select_from-IsLatest asset_name (r ∷ rs) o c h =
    let m = candidate asset_name r in
    let (p, latest, from) = select_from-IsLatest asset_name rs (take_newer o m) c h in
    let (q, q') = later-NoNewer o m c p in
    (
      q,
      (λ d e. not_newer-IsNotAfter d c (q' d (IsCandidate-candidate asset_name r d e)), latest),
      elim from [
        | inl e ↦ elim (later-either o m c e) [
          | inl e' ↦ inl e'
          | inr e' ↦ inr (inl (candidate-IsCandidate asset_name r c e'))
        ]
        | inr f ↦ inr (inr f)
      ],
    )

some-later : (o m : Option Candidate) → take_newer o m ≡ none → (o ≡ none) × (m ≡ none)
some-later none none h = (refl, refl)
some-later none (some x) h = cc
some-later (some l) none h = cc
some-later (some l) (some x) h = elim (Bool-cases (is_newer x l)) [
  | inl new ↦ cc (simp new at h)
  | inr old ↦ cc (simp old at h)
]

select_from-none :
    (asset_name : Text) (rs : List Release) (o : Option Candidate)
    → select_from asset_name o rs ≡ none
    → (o ≡ none) × All (λ r. candidate asset_name r ≡ none) rs
unfolding select_from
select_from-none asset_name [] o h = (h, tt)
select_from-none asset_name (r ∷ rs) o h =
    let (e, rest) = select_from-none asset_name rs (take_newer o (candidate asset_name r)) h in
    let (e', none_here) = some-later o (candidate asset_name r) e in (e', (none_here, rest))

none_eligible :
    (asset_name : Text) (rs : List Release)
    → All (λ r. candidate asset_name r ≡ none) rs
    → All (λ r. (c : Candidate) → ¬ IsCandidate asset_name r c) rs
none_eligible asset_name [] h = tt
none_eligible asset_name (r ∷ rs) h = (
  λ c k. let e = IsCandidate-candidate asset_name r c k in let e' = h.0 in cc,
  none_eligible asset_name rs h.1,
)

-- The release that is chosen is a published pre-release of the snapshot track with an asset for the
-- machine, none of those is after it by publication and then by tag, and when none is chosen there
-- is none.
pub select_latest_snapshot_release-IsLatest :
    (releases : List Release) (asset_name : Text)
    → ((c : Candidate)
        → select_latest_snapshot_release releases asset_name ≡ some c
        → IsFrom asset_name releases c × IsLatest asset_name releases c)
      × (select_latest_snapshot_release releases asset_name ≡ none
          → All (λ r. (c : Candidate) → ¬ IsCandidate asset_name r c) releases)
unfolding select_latest_snapshot_release
select_latest_snapshot_release-IsLatest releases asset_name = (
  λ c h.
      let (p, latest, from) = select_from-IsLatest asset_name releases none c h in
      (elim from [ inl e ↦ cc | inr f ↦ f ], latest),
  λ h. none_eligible asset_name releases (select_from-none asset_name releases none h).1,
)
