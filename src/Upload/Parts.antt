-- ===== src/Upload/Parts.antt =====
-- server/file_stream.go: sets of chunk indices, and the bytes that `WriteAt` leaves.
use mango_agent.Base.{
  ℕ, zero, suc, ◌+◌, ◌-◌, ◌≤◌, ◌<◌, true, false, Bool-cases, Option, none, some, List, [], ◌∷◌,
  length, take, drop, All, if◌then◌else◌, ◌==◌, ◌≡◌, refl, ap, inl, inr, arith,
}
use mango_agent.Upload.Chunks.{has_part, add_part, write_at}

abbrev pub Distinct : List ℕ → Type 0
Distinct [] = Unit
Distinct (p ∷ ps) = (has_part p ps ≡ false) × Distinct ps

abbrev pub Below : ℕ → List ℕ → Type 0
Below n = All (λ p. p < n)

remove_part : ℕ → List ℕ → List ℕ
remove_part i [] = []
remove_part i (p ∷ ps) = if p == i then remove_part i ps else p ∷ remove_part i ps

remove_absent : (i : ℕ) (ps : List ℕ) → has_part i ps ≡ false → remove_part i ps ≡ ps
unfolding has_part remove_part
remove_absent i [] h = refl
remove_absent i (p ∷ ps) h = ground (arith, remove_absent i ps)

length-remove_part :
    (i : ℕ) (ps : List ℕ) → Distinct ps → length ps ≤ suc (length (remove_part i ps))
unfolding has_part remove_part
length-remove_part i [] d = omega arith
length-remove_part i (p ∷ ps) d =
    ground (arith, length-remove_part i ps d.1, remove_absent i ps, remove_absent p ps)

has_part-remove_part :
    (i j : ℕ) (ps : List ℕ) → has_part j ps ≡ false → has_part j (remove_part i ps) ≡ false
unfolding has_part remove_part
has_part-remove_part i j [] h = refl
has_part-remove_part i j (p ∷ ps) h = ground (arith, has_part-remove_part i j ps)

remove_part-Distinct : (i : ℕ) (ps : List ℕ) → Distinct ps → Distinct (remove_part i ps)
unfolding remove_part
remove_part-Distinct i [] d = tt
remove_part-Distinct i (p ∷ ps) d = elim (Bool-cases (p == i)) [
  | inl same ↦ rw same (remove_part-Distinct i ps d.1)
  | inr other ↦ rw other (has_part-remove_part i p ps d.0, remove_part-Distinct i ps d.1)
]

remove_part-Below : (n : ℕ) (ps : List ℕ) → Below (suc n) ps → Below n (remove_part n ps)
unfolding remove_part
remove_part-Below n [] h = tt
remove_part-Below n (p ∷ ps) h = elim (Bool-cases (p == n)) [
  | inl same ↦ rw same (remove_part-Below n ps h.1)
  | inr other ↦ rw other (ground arith, remove_part-Below n ps h.1)
]

-- Distinct numbers below `n` are at most `n`.
length-le_of_Below : (n : ℕ) (ps : List ℕ) → Distinct ps → Below n ps → length ps ≤ n
length-le_of_Below zero [] d h = omega arith
length-le_of_Below zero (p ∷ ps) d h = absurd (omega arith)
length-le_of_Below (suc n) ps d h = omega (
  arith,
  length-remove_part n ps d,
  length-le_of_Below n (remove_part n ps) (remove_part-Distinct n ps d) (remove_part-Below n ps h),
)

-- `n` distinct numbers below `n` are all of them.
pub has_part_of_full :
    (n i : ℕ) (ps : List ℕ)
    → Distinct ps
    → Below n ps
    → length ps ≡ n
    → i < n
    → has_part i ps ≡ true
has_part_of_full n i ps d h full lt = elim (Bool-cases (has_part i ps)) [
  | inl there ↦ there
  | inr missing ↦ absurd (omega (arith, length-le_of_Below n (i ∷ ps) (missing, d) (lt, h)))
]

pub add_part-Distinct : (i : ℕ) (ps : List ℕ) → Distinct ps → Distinct (add_part i ps)
unfolding add_part
add_part-Distinct i ps d = elim (Bool-cases (has_part i ps)) [
  | inl there ↦ rw there d
  | inr new ↦ rw new (new, d)
]

pub add_part-Below : (n i : ℕ) (ps : List ℕ) → i < n → Below n ps → Below n (add_part i ps)
unfolding add_part
add_part-Below n i ps lt h = elim (Bool-cases (has_part i ps)) [
  | inl there ↦ rw there h
  | inr new ↦ rw new (lt, h)
]

pub has_part-add_part :
    (i j : ℕ) (ps : List ℕ) → has_part j (add_part i ps) ≡ (if i == j then true else has_part j ps)
unfolding add_part has_part
has_part-add_part i j ps = ground arith

-- The byte at a position.
abbrev pub get_elem? : List ℕ → ℕ → Option ℕ
get_elem? [] i = none
get_elem? (x ∷ xs) zero = some x
get_elem? (x ∷ xs) (suc i) = get_elem? xs i

-- After a write of some bytes at an offset, a position inside holds the byte written there, and
-- one that the file had and that lies outside is as it was.
pub get_elem?-write_at_in :
    (offset : ℕ) (bytes file : List ℕ) (x : ℕ)
    → offset ≤ x
    → x < offset + length bytes
    → get_elem? (write_at offset bytes file) x ≡ get_elem? bytes (x - offset)
unfolding write_at
get_elem?-write_at_in offset [] file x lo hi = absurd (omega arith)
get_elem?-write_at_in zero (b ∷ bs) [] zero lo hi = refl
get_elem?-write_at_in zero (b ∷ bs) [] (suc x) lo hi =
    rw (get_elem?-write_at_in zero bs [] x (omega arith) (omega arith)) (ground arith)
get_elem?-write_at_in zero (b ∷ bs) (y ∷ file) zero lo hi = refl
get_elem?-write_at_in zero (b ∷ bs) (y ∷ file) (suc x) lo hi =
    rw (get_elem?-write_at_in zero bs file x (omega arith) (omega arith)) (ground arith)
get_elem?-write_at_in (suc offset) (b ∷ bs) [] zero lo hi = absurd (omega arith)
get_elem?-write_at_in (suc offset) (b ∷ bs) [] (suc x) lo hi =
    rw (get_elem?-write_at_in offset (b ∷ bs) [] x (omega arith) (omega arith)) (ground arith)
get_elem?-write_at_in (suc offset) (b ∷ bs) (y ∷ file) zero lo hi = absurd (omega arith)
get_elem?-write_at_in (suc offset) (b ∷ bs) (y ∷ file) (suc x) lo hi =
    rw (get_elem?-write_at_in offset (b ∷ bs) file x (omega arith) (omega arith)) (ground arith)

pub get_elem?-write_at_out :
    (offset : ℕ) (bytes file : List ℕ) (x v : ℕ)
    → (offset ≤ x → offset + length bytes ≤ x)
    → get_elem? file x ≡ some v
    → get_elem? (write_at offset bytes file) x ≡ some v
unfolding write_at
get_elem?-write_at_out offset [] file x v out h = h
get_elem?-write_at_out offset (b ∷ bs) [] x v out h = cc
get_elem?-write_at_out zero (b ∷ bs) (y ∷ file) zero v out h =
    absurd (omega (arith, out (omega arith)))
get_elem?-write_at_out zero (b ∷ bs) (y ∷ file) (suc x) v out h =
    get_elem?-write_at_out zero bs file x v (λ _. omega (arith, out (omega arith))) h
get_elem?-write_at_out (suc offset) (b ∷ bs) (y ∷ file) zero v out h = h
get_elem?-write_at_out (suc offset) (b ∷ bs) (y ∷ file) (suc x) v out h =
    get_elem?-write_at_out offset (b ∷ bs) file x v (λ le. omega (arith, out (omega arith))) h

-- A slice of a list.
pub get_elem?-slice :
    (n offset : ℕ) (xs : List ℕ) (x : ℕ)
    → x < n
    → get_elem? (take n (drop offset xs)) x ≡ get_elem? xs (offset + x)
get_elem?-slice zero offset xs x h = absurd (omega arith)
get_elem?-slice (suc n) zero [] x h = refl
get_elem?-slice (suc n) zero (y ∷ xs) zero h = refl
get_elem?-slice (suc n) zero (y ∷ xs) (suc x) h =
    rw (get_elem?-slice n zero xs x (omega arith)) (ground arith)
get_elem?-slice (suc n) (suc offset) [] x h = refl
get_elem?-slice (suc n) (suc offset) (y ∷ xs) x h =
    rw (get_elem?-slice (suc n) offset xs x h) (ground arith)

-- Lists that agree at every position of one of them, the other being at least as long.
pub take-eq_of_get_elem? :
    (xs ys : List ℕ)
    → ((x : ℕ) → x < length ys → get_elem? xs x ≡ get_elem? ys x)
    → take (length ys) xs ≡ ys
take-eq_of_get_elem? xs [] h = refl
take-eq_of_get_elem? [] (y ∷ ys) h = cc (h 0 (omega arith))
take-eq_of_get_elem? (x ∷ xs) (y ∷ ys) h =
    let first : x ≡ y = cc (h 0 (omega arith)) in
    rw (first, take-eq_of_get_elem? xs ys (λ i lt. h (suc i) (omega arith)))

pub length-slice :
    (n offset : ℕ) (xs : List ℕ) → offset + n ≤ length xs → length (take n (drop offset xs)) ≡ n
length-slice zero offset xs h = refl
length-slice (suc n) zero [] h = absurd (omega arith)
length-slice (suc n) zero (y ∷ xs) h = omega (arith, length-slice n zero xs (omega arith))
length-slice (suc n) (suc offset) [] h = absurd (omega arith)
length-slice (suc n) (suc offset) (y ∷ xs) h = length-slice (suc n) offset xs (omega arith)

pub get_elem?_of_lt : (xs : List ℕ) (x : ℕ) → x < length xs → (v : ℕ) × (get_elem? xs x ≡ some v)
get_elem?_of_lt [] x h = absurd (omega arith)
get_elem?_of_lt (y ∷ xs) zero h = (y, refl)
get_elem?_of_lt (y ∷ xs) (suc x) h = get_elem?_of_lt xs x (omega arith)

pub take-take {ℓ} : {A : Type ℓ} (n : ℕ) (xs : List A) → take n (take n xs) ≡ take n xs
take-take zero xs = refl
take-take (suc n) [] = refl
take-take (suc n) (x ∷ xs) = ap (◌∷◌ x) (take-take n xs)

pub length-lt_of_get_elem? : (xs : List ℕ) (x v : ℕ) → get_elem? xs x ≡ some v → x < length xs
length-lt_of_get_elem? [] x v h = cc
length-lt_of_get_elem? (y ∷ xs) zero v h = omega arith
length-lt_of_get_elem? (y ∷ xs) (suc x) v h = omega (arith, length-lt_of_get_elem? xs x v h)
