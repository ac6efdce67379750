-- ===== src/Sshauth/Scans.antt =====
-- sshauth/sshauth.go: what the loop of `reconcileLeasesAtPath` does with each line.
use mango_agent.Base.{
  ℕ, ℤ, pos, negsuc, Bool, true, false, Bool-cases, not, ◌&&◌, List, [], ◌∷◌, ◌++◌, Text, Dict,
  none, lookup, insert, lookup-insert, text_eq_refl, if◌then◌else◌, ◌≡◌, ◌≢◌, refl, sym, ◌∙◌, inl,
  inr, ◌⊎◌, arith, All, All-append, keep_if,
}
use mathlib.Core.List.{append_assoc, append-nil}
use mango_agent.Strings.{is_nil, trim_space, has_prefix}
use mango_agent.Strings.Lines.{IsLine}
use mango_agent.Sshauth.World.{lease_tag_prefix}
use mango_agent.Sshauth.Reconcile.{
  parse_lease, is_expired, is_active, Scan, keep_line, reconcile_tag, reconcile_line,
  reconcile_lines,
}

-- A tag line that names a ticket and a time of expiry that has passed, or that is to come.
abbrev pub expired_line : ℕ → Text → Bool
expired_line now l =
    has_prefix (trim_space l) lease_tag_prefix
    && (not (is_nil (parse_lease (trim_space l)).ticket)
        && is_expired now (parse_lease (trim_space l)).expires)

abbrev pub active_line : ℕ → Text → Bool
active_line now l =
    has_prefix (trim_space l) lease_tag_prefix
    && (not (is_nil (parse_lease (trim_space l)).ticket)
        && is_active now (parse_lease (trim_space l)).expires)

abbrev pub Unexpired : ℕ → List Text → Type 0
Unexpired now = All (λ l. expired_line now l ≡ false)

pub keep_if-concat :
    (p : Text → Bool) (xs : List Text) (y : Text)
    → keep_if p (xs ++ y ∷ []) ≡ keep_if p xs ++ (if p y then y ∷ [] else [])
keep_if-concat p [] y = refl
keep_if-concat p (x ∷ xs) y = ground (arith, keep_if-concat p xs y)

pub tag-nonblank : (s : Text) → has_prefix s lease_tag_prefix ≡ true → is_nil s ≡ false
unfolding has_prefix
tag-nonblank [] h = cc
tag-nonblank (c ∷ s) h = refl

-- One line is kept, and then it has not expired; or it is dropped, and then it is no active lease.
abbrev Verdict : ℕ → Text → Scan → Scan → Type 0
Verdict now line st st' =
    ((st'.new_lines ≡ st.new_lines ++ line ∷ []) × (expired_line now line ≡ false))
    ⊎ ((st'.new_lines ≡ st.new_lines) × (active_line now line ≡ false))

keep_line-tag :
    (line : Text) (st : Scan)
    → has_prefix (trim_space line) lease_tag_prefix ≡ true
    → (keep_line line st).new_lines ≡ st.new_lines ++ line ∷ []
unfolding keep_line
keep_line-tag line st tag = ground (arith, tag-nonblank (trim_space line) tag)

keep_line-Verdict :
    (now : ℕ) (line : Text) (st : Scan)
    → has_prefix (trim_space line) lease_tag_prefix ≡ false
    → Verdict now line st (keep_line line st)
unfolding keep_line
keep_line-Verdict now line st plain = elim (Bool-cases st.skip_next) [
  | inl skip ↦ inr (ground arith, ground arith)
  | inr stay ↦ elim (Bool-cases (is_nil (trim_space line))) [
    | inl blank ↦ inr (ground arith, ground arith)
    | inr text ↦ inl (ground arith, ground arith)
  ]
]

not_both : (now : ℕ) (e : ℤ) → is_expired now e ≡ true → is_active now e ≡ false
not_both now (pos e) h = ground arith
not_both now (negsuc e) h = refl

reconcile_tag-Verdict :
    (now : ℕ) (line : Text) (st : Scan)
    → has_prefix (trim_space line) lease_tag_prefix ≡ true
    → Verdict now line st (reconcile_tag now line (parse_lease (trim_space line)) st)
unfolding reconcile_tag
reconcile_tag-Verdict now line st tag =
    let l = parse_lease (trim_space line) in
    elim (Bool-cases (is_nil l.ticket)) [
      | inl unnamed ↦ inl (rw unnamed, rw (tag, unnamed))
      | inr named ↦ elim (Bool-cases (is_expired now l.expires)) [
        | inl over ↦ inr (rw (named, over), rw (tag, named, not_both now l.expires over))
        | inr on ↦ inl (
          rw (named, on)
              (elim (Bool-cases (is_active now l.expires)) [
                | inl going ↦ rw going (keep_line-tag line _ tag)
                | inr timeless ↦ rw timeless (keep_line-tag line st tag)
              ]),
          rw (tag, named, on),
        )
      ]
    ]

reconcile_line-tag :
    (now : ℕ) (line : Text) (st : Scan)
    → has_prefix (trim_space line) lease_tag_prefix ≡ true
    → reconcile_line now line st ≡ reconcile_tag now line (parse_lease (trim_space line)) st
unfolding reconcile_line
reconcile_line-tag now line st tag = rw tag

reconcile_line-plain :
    (now : ℕ) (line : Text) (st : Scan)
    → has_prefix (trim_space line) lease_tag_prefix ≡ false
    → reconcile_line now line st ≡ keep_line line st
unfolding reconcile_line
reconcile_line-plain now line st plain = rw plain

round : (now : ℕ) (line : Text) (st : Scan) → Verdict now line st (reconcile_line now line st)
round now line st = elim (Bool-cases (has_prefix (trim_space line) lease_tag_prefix)) [
  | inl tag ↦ rw (reconcile_line-tag now line st tag) (reconcile_tag-Verdict now line st tag)
  | inr plain ↦ rw (reconcile_line-plain now line st plain) (keep_line-Verdict now line st plain)
]

pub append_if :
    (b : Bool) (x : Text) (xs ys : List Text)
    → (xs ++ (if b then x ∷ [] else [])) ++ ys ≡ xs ++ (if b then x ∷ ys else ys)
append_if true x xs ys = append_assoc xs (x ∷ []) ys
append_if false x xs ys = rw append-nil

-- A set of expired tickets that is empty after a line was empty before, and the line has not
-- expired.
insert-nonempty : (k : Text) (m : Dict (Unit {0})) → is_nil (insert k tt m) ≡ false
unfolding insert
insert-nonempty k [] = refl
insert-nonempty k ((j, v) ∷ m) = ground arith

round_counted :
    (now : ℕ) (line : Text) (st : Scan)
    → is_nil (reconcile_line now line st).expired_tickets ≡ true
    → (is_nil st.expired_tickets ≡ true) × (expired_line now line ≡ false)
unfolding reconcile_line reconcile_tag keep_line
round_counted now line st h =
    ground (arith, insert-nonempty (parse_lease (trim_space line)).ticket st.expired_tickets)

adds_kept :
    (now : ℕ) (line : Text) (st st' : Scan)
    → Verdict now line st st'
    → Unexpired now st.new_lines
    → Unexpired now st'.new_lines
adds_kept now line st st' (inl (e, fresh)) h =
    rw e (All-append (λ l. expired_line now l ≡ false) st.new_lines (line ∷ []) h (fresh, tt))
adds_kept now line st st' (inr (e, idle)) h = rw e h

adds_active :
    (now : ℕ) (line : Text) (st st' : Scan)
    → Verdict now line st st'
    → keep_if (active_line now) st'.new_lines
      ≡ keep_if (active_line now) st.new_lines ++ (if active_line now line then line ∷ [] else [])
adds_active now line st st' (inl (e, fresh)) = rw (e, keep_if-concat)
adds_active now line st st' (inr (e, idle)) = rw (e, idle, append-nil)

adds_lines :
    (now : ℕ) (line : Text) (st st' : Scan)
    → Verdict now line st st'
    → IsLine line
    → All IsLine st.new_lines
    → All IsLine st'.new_lines
adds_lines now line st st' (inl (e, fresh)) l h =
    rw e (All-append IsLine st.new_lines (line ∷ []) h (l, tt))
adds_lines now line st st' (inr (e, idle)) l h = rw e h

-- The ticket that a tag line names.
abbrev pub ticket_in : Text → Text
ticket_in l = (parse_lease (trim_space l)).ticket

round_keeps :
    (now : ℕ) (line j : Text) (st : Scan)
    → lookup j st.active_leases ≢ none
    → lookup j (reconcile_line now line st).active_leases ≢ none
unfolding reconcile_line reconcile_tag keep_line
round_keeps now line j st h =
    let l = parse_lease (trim_space line) in
    ground (arith, h, lookup-insert l.ticket j l.expires st.active_leases)

round_records :
    (now : ℕ) (line : Text) (st : Scan)
    → active_line now line ≡ true
    → lookup (ticket_in line) (reconcile_line now line st).active_leases ≢ none
unfolding reconcile_line reconcile_tag keep_line
round_records now line st h =
    let l = parse_lease (trim_space line) in
    let at = lookup-insert l.ticket l.ticket l.expires st.active_leases in
    ground (arith, h, not_both now l.expires, at, text_eq_refl l.ticket)

-- Each active line's lease is recorded, and none is taken away.
pub reconcile_lines-keeps :
    (now : ℕ) (lines : List Text) (j : Text) (st : Scan)
    → lookup j st.active_leases ≢ none
    → lookup j (reconcile_lines now lines st).active_leases ≢ none
unfolding reconcile_lines
reconcile_lines-keeps now [] j st h = h
reconcile_lines-keeps now (line ∷ lines) j st h =
    reconcile_lines-keeps now lines j (reconcile_line now line st) (round_keeps now line j st h)

pub reconcile_lines-records :
    (now : ℕ) (lines : List Text) (st : Scan)
    → All
        (λ l.
          active_line now l ≡ true
          → lookup (ticket_in l) (reconcile_lines now lines st).active_leases ≢ none)
        lines
unfolding reconcile_lines
reconcile_lines-records now [] st = tt
reconcile_lines-records now (line ∷ lines) st = (
  λ h.
      reconcile_lines-keeps now lines (ticket_in line) (reconcile_line now line st)
        (round_records now line st h),
  reconcile_lines-records now lines (reconcile_line now line st),
)

-- The loop as a whole.
pub record Scanned (now : ℕ) (lines : List Text) (st st' : Scan) : Type 0 where
  pub unexpired : Unexpired now st.new_lines → Unexpired now st'.new_lines
  pub active :
      keep_if (active_line now) st'.new_lines
      ≡ keep_if (active_line now) st.new_lines ++ keep_if (active_line now) lines
  pub are_lines : All IsLine st.new_lines → All IsLine lines → All IsLine st'.new_lines
  pub counted :
      is_nil st'.expired_tickets ≡ true → (is_nil st.expired_tickets ≡ true) × Unexpired now lines

pub reconcile_lines-Scanned :
    (now : ℕ) (lines : List Text) (st : Scan) → Scanned now lines st (reconcile_lines now lines st)
unfolding reconcile_lines
reconcile_lines-Scanned now [] st = record {
  unexpired = λ h. h;
  active = sym (append-nil _);
  are_lines = λ h k. h;
  counted = λ h. (h, tt);
}
reconcile_lines-Scanned now (line ∷ lines) st =
    let mid = reconcile_line now line st in
    let v = round now line st in
    let rest = reconcile_lines-Scanned now lines mid in
    record {
      unexpired = λ h. rest.unexpired (adds_kept now line st mid v h);
      active =
          rest.active
          ∙ rw (adds_active now line st mid v) (append_if (active_line now line) line _ _);
      are_lines = λ h k. rest.are_lines (adds_lines now line st mid v k.0 h) k.1;
      counted = λ h.
          let after = rest.counted h in
          let before = round_counted now line st after.0 in (before.0, (before.1, after.1));
    }

pub blank_line : (now : ℕ) → (expired_line now [] ≡ false) × (active_line now [] ≡ false)
unfolding has_prefix trim_space
blank_line now = (refl, refl)
