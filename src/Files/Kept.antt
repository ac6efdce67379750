-- ===== src/Files/Kept.antt =====
-- server/files.go: when a move removes its source.
use mango_agent.Base.{
  Bool, true, false, Text, List, [], ◌∷◌, some, Bool-cases, ◌≡◌, ◌⊎◌, refl, inl, inr, ap, sym, ◌∙◌,
}
use mango_agent.Upload.Data.{Env, resolve_file_path, same_path}
use mango_agent.Files.Moves.{
  Kind, missing, unknown, directory, link, regular, Renamed, renamed, cross_device, not_renamed,
  WalkEntry, Fs, Failure, remove_failed, and_next, copy_symlink, copy_regular_file, copy_walked,
  copy_entries, copy_directory, Result, or_failure, then_remove, move_across, after_rename,
  after_mkdir, path_contains, move_resolved, move_path,
}

module _ (env : Env) (fs : Fs) (remove_all : Text → fs.S → fs.S × Bool) where
  -- The same system with another `os.RemoveAll`.
  abbrev pub other : Fs
  other = record fs { remove_all = remove_all }

  copy_symlink-other :
      (a t : Text) (s : fs.S) → copy_symlink env other a t s ≡ copy_symlink env fs a t s
  unfolding copy_symlink
  copy_symlink-other a t s = refl

  copy_regular_file-other :
      (a t : Text) (s : fs.S) → copy_regular_file env other a t s ≡ copy_regular_file env fs a t s
  unfolding copy_regular_file
  copy_regular_file-other a t s = refl

  copy_walked-other :
      (a t : Text) (e : WalkEntry) (s : fs.S)
      → copy_walked env other a t e s ≡ copy_walked env fs a t e s
  unfolding copy_symlink copy_regular_file
  copy_walked-other a t e s = refl

  and_next-other :
      (r : fs.S × Bool) (f h : fs.S → fs.S × Bool)
      → ((s : fs.S) → f s ≡ h s)
      → and_next env other r f ≡ and_next env fs r h
  and_next-other (s, false) f h e = refl
  and_next-other (s, true) f h e = e s

  copy_entries-other :
      (a t : Text) (es : List WalkEntry) (s : fs.S)
      → copy_entries env other a t es s ≡ copy_entries env fs a t es s
  unfolding copy_entries
  copy_entries-other a t [] s = refl
  copy_entries-other a t (e ∷ es) s = rw (copy_walked-other a t e s) (
      and_next-other (copy_walked env fs a t e s) (copy_entries env other a t es)
        (copy_entries env fs a t es) (copy_entries-other a t es))

  module _ (source destination : Text) where
    -- A copy of the source from one state that succeeded, and led to the other.
    abbrev pub Copied : fs.S → fs.S → Type 0
    Copied s s' =
        (copy_symlink env fs source destination s ≡ (s', true))
        ⊎ (copy_directory env fs source destination s ≡ (s', true))
        ⊎ (copy_regular_file env fs source destination s ≡ (s', true))

    -- The removal of the source is the last step, after a copy that succeeded.
    pub record RemovedLast (r r' : Result env fs) : Type 0 where
      pub before : fs.S
      pub after : fs.S
      pub copied : Copied before after
      pub removal : r ≡ or_failure env fs remove_failed (fs.remove_all source after)
      pub other_removal : r' ≡ or_failure env fs remove_failed (remove_all source after)

    abbrev pub IsSafe : Result env fs → Result env fs → Type 0
    IsSafe r r' = (r' ≡ r) ⊎ RemovedLast r r'

    then_remove-IsSafe :
        (s : fs.S) (o : fs.S × Bool)
        → ((s' : fs.S) → o ≡ (s', true) → Copied s s')
        → IsSafe (then_remove env fs source o) (then_remove env other source o)
    then_remove-IsSafe s (s', false) c = inl refl
    then_remove-IsSafe s (s', true) c = inr (record {
      before = s;
      after = s';
      copied = c s' refl;
      removal = refl;
      other_removal = refl;
    })

    move_across-IsSafe :
        (kind : Kind) (s : fs.S)
        → IsSafe
            (move_across env fs source destination kind s)
            (move_across env other source destination kind s)
    unfolding copy_directory
    move_across-IsSafe missing s = inl refl
    move_across-IsSafe unknown s = inl refl
    move_across-IsSafe link s =
        rw (copy_symlink-other source destination s)
          (then_remove-IsSafe s (copy_symlink env fs source destination s) (λ s' h. inl h))
    move_across-IsSafe directory s =
        rw (copy_entries-other source destination (fs.walk source s) s)
          (then_remove-IsSafe s (copy_directory env fs source destination s) (λ s' h. inr (inl h)))
    move_across-IsSafe regular s =
        rw (copy_regular_file-other source destination s) (
          then_remove-IsSafe s (copy_regular_file env fs source destination s)
            (λ s' h. inr (inr h)))

    after_rename-IsSafe :
        (r : fs.S × Renamed)
        → IsSafe
            (after_rename env fs source destination r)
            (after_rename env other source destination r)
    after_rename-IsSafe (s, renamed) = inl refl
    after_rename-IsSafe (s, not_renamed) = inl refl
    after_rename-IsSafe (s, cross_device) = move_across-IsSafe (fs.lstat source s) s

    after_mkdir-IsSafe :
        (r : fs.S × Bool)
        → IsSafe
            (after_mkdir env fs source destination r)
            (after_mkdir env other source destination r)
    after_mkdir-IsSafe (s, false) = inl refl
    after_mkdir-IsSafe (s, true) = after_rename-IsSafe (fs.rename source destination s)

    move_resolved-IsSafe :
        (s : fs.S)
        → IsSafe
            (move_resolved env fs source destination s)
            (move_resolved env other source destination s)
    unfolding move_resolved path_contains
    move_resolved-IsSafe s = elim (Bool-cases (same_path env source destination)) [
      | inl same ↦ inl (rw same refl)
      | inr differs ↦ elim (Bool-cases (path_contains env fs source destination)) [
        | inl inside ↦ inl (rw (differs, inside) refl)
        | inr outside ↦
            rw (differs, outside) (after_mkdir-IsSafe (fs.mkdir_all (env.dir destination) s))
      ]
    ]

  removal_error :
      (o : fs.S × Bool) (e : Failure)
      → (or_failure env fs remove_failed o).1 ≡ some e
      → e ≡ remove_failed
  removal_error (s, true) e h = cc
  removal_error (s, false) e h = cc

  IsSafe-error :
      (source destination : Text) (r r' : Result env fs) (e : Failure)
      → IsSafe source destination r r'
      → r.1 ≡ some e
      → (e ≡ remove_failed) ⊎ (r' ≡ r)
  IsSafe-error source destination r r' e (inl same) h = inr same
  IsSafe-error source destination r r' e (inr last) h =
      let k : (or_failure env fs remove_failed (fs.remove_all source last.after)).1 ≡ some e =
        sym (ap (λ (q : Result env fs). q.1) last.removal) ∙ h in
      inl (removal_error (fs.remove_all source last.after) e k)

  -- Whatever `os.RemoveAll` does, a move goes the same way, unless its last step is to remove the
  -- source alone, after a copy of the source to the destination that succeeded; and a move that
  -- returns an error other than that of this removal did not come to it.
  pub move_path-remove_all :
      (source destination : Text) (s : fs.S)
      → IsSafe
          (resolve_file_path env source)
          (resolve_file_path env destination)
          (move_path env fs source destination s)
          (move_path env other source destination s)
        × ((e : Failure)
            → (move_path env fs source destination s).1 ≡ some e
            → (e ≡ remove_failed)
              ⊎ (move_path env other source destination s ≡ move_path env fs source destination s))
  unfolding move_path
  move_path-remove_all source destination s =
      let src = resolve_file_path env source in
      let dst = resolve_file_path env destination in
      let safe = move_resolved-IsSafe src dst s in (safe, λ e h. IsSafe-error src dst _ _ e safe h)
