-- ===== src/Netstatic/Config.antt =====
-- monitoring/netstatic/static.go: the configuration in force after `SetNewConfig`.
use mango_agent.Base.{
  ℕ, suc, true, false, Bool-cases, some, List, [], ◌∷◌, Text, Dict, if◌then◌else◌, ◌≡◌, refl, sym,
  ap, inl, inr, arith, Option, none, All, >>=-eq-some, ◌∙◌,
}
use mathlib.Core.Bool.{false≢true}
use mathlib.Core.Path.{subst₂}
use mango_agent.Netstatic.Data.{
  Floats, Counters, NetStaticConfig, NetStatic, State, nic_list, listed, allowed_by,
  config_or_default,
}
use mango_agent.Netstatic.Ops.{ensure_init_locked, purge_expired_locked}
use mango_agent.Netstatic.Control.{
  Write, written, failed, no_directory, save_to_file_locked, start_tickers, keep_keys, nics_or,
  merge_config, drop_unlisted, reconfigure, set_new_config,
}

abbrev pub IsListed : {V : Type 0} → List Text → Text × V → Type 0
IsListed l e = allowed_by l e.0 ≡ true

keep_keys-IsListed :
    {V : Type 0} (n : Text) (l : List Text) (m : Dict V)
    → All (IsListed {V = V} (n ∷ l)) (keep_keys (λ name. listed name (n ∷ l)) m)
unfolding allowed_by
keep_keys-IsListed n l [] = tt
keep_keys-IsListed {V} n l ((k, v) ∷ m) = elim (Bool-cases (listed k (n ∷ l))) [
  | inl on ↦ rw on (on, keep_keys-IsListed n l m)
  | inr off ↦ rw off (keep_keys-IsListed n l m)
]

All-IsListed : {V : Type 0} (m : Dict V) → All (IsListed {V = V} []) m
unfolding allowed_by
All-IsListed [] = tt
All-IsListed (e ∷ m) = (refl, All-IsListed m)

module _ (fl : Floats) where
  open fl use {F, is_zero, of_ℕ, is_zero-of_ℕ}

  -- No period and no time to keep is zero.
  pub record HasPeriods (c : NetStaticConfig F) : Type 0 where
    pub day_nonzero : is_zero c.data_preserve_day ≡ false
    pub detect_nonzero : is_zero c.detect_interval ≡ false
    pub save_nonzero : is_zero c.save_interval ≡ false

  or_default-nonzero : (x : F) (n : ℕ) → is_zero (if is_zero x then of_ℕ (suc n) else x) ≡ false
  or_default-nonzero x n = elim (Bool-cases (is_zero x)) [
    | inl z ↦ rw z (is_zero-of_ℕ n)
    | inr nz ↦ rw nz nz
  ]

  config_or_default-HasPeriods : (c : NetStaticConfig F) → HasPeriods (config_or_default fl c)
  unfolding config_or_default
  config_or_default-HasPeriods c = record {
    day_nonzero = or_default-nonzero c.data_preserve_day 30;
    detect_nonzero = or_default-nonzero c.detect_interval 1;
    save_nonzero = or_default-nonzero c.save_interval 599;
  }

  -- A field comes from the new configuration unless it is zero there, then from the old one unless
  -- it is zero there too, and then it is the default.
  abbrev pub IsChosen : F → F → ℕ → F → Type 0
  IsChosen new old default x =
      (is_zero new ≡ false → x ≡ new)
      × (is_zero new ≡ true → is_zero old ≡ false → x ≡ old)
      × (is_zero new ≡ true → is_zero old ≡ true → x ≡ of_ℕ default)

  -- A whitelist comes from the new configuration unless it is nil there.
  abbrev pub IsChosenList : Option (List Text) → Option (List Text) → Option (List Text) → Type 0
  IsChosenList new old x = ((l : List Text) → new ≡ some l → x ≡ some l) × (new ≡ none → x ≡ old)

  -- What `SetNewConfig` leaves in force, in terms of the new configuration and the stored one.
  pub record InForce (new old : NetStaticConfig F) (s' : State F) : Type 0 where
    pub same : s'.config ≡ s'.store.config
    pub day : IsChosen new.data_preserve_day old.data_preserve_day 31 s'.config.data_preserve_day
    pub detect : IsChosen new.detect_interval old.detect_interval 2 s'.config.detect_interval
    pub save : IsChosen new.save_interval old.save_interval 600 s'.config.save_interval
    pub whitelist : IsChosenList new.nics old.nics s'.config.nics
    pub periods : HasPeriods s'.config

  or_default-IsChosen :
      (new old x : F) (default : ℕ)
      → x ≡ (
          if is_zero (if is_zero new then old else new)
          then of_ℕ default
          else (if is_zero new then old else new))
      → IsChosen new old default x
  or_default-IsChosen new old x default e =
      (λ n. e ∙ rw (n, n) refl, λ z n. e ∙ rw (z, n) refl, λ z y. e ∙ rw (z, y) refl)

  nics_or-IsChosenList : (new old : Option (List Text)) → IsChosenList new old (nics_or new old)
  nics_or-IsChosenList none old = (λ l h. cc, λ h. refl)
  nics_or-IsChosenList (some l) old = (λ l' h. h, λ h. cc)

  -- The configuration that `SetNewConfig` makes of two, field by field.
  record IsMerged (new old c : NetStaticConfig F) : Type 0 where
    day : IsChosen new.data_preserve_day old.data_preserve_day 31 c.data_preserve_day
    detect : IsChosen new.detect_interval old.detect_interval 2 c.detect_interval
    save : IsChosen new.save_interval old.save_interval 600 c.save_interval
    whitelist : IsChosenList new.nics old.nics c.nics

  merge_config-IsMerged :
      (new old : NetStaticConfig F)
      → IsMerged new old (config_or_default fl (merge_config fl new old))
  unfolding config_or_default merge_config
  merge_config-IsMerged new old = record {
    day = or_default-IsChosen new.data_preserve_day old.data_preserve_day _ 31 refl;
    detect = or_default-IsChosen new.detect_interval old.detect_interval _ 2 refl;
    save = or_default-IsChosen new.save_interval old.save_interval _ 600 refl;
    whitelist = nics_or-IsChosenList new.nics old.nics;
  }

  save_config :
      (w : Write) (s : State F)
      → s.store.config ≡ config_or_default fl s.config
      → ((save_to_file_locked fl w s).0.config ≡ s.config)
        × ((save_to_file_locked fl w s).0.store.config ≡ config_or_default fl s.config)
        × ((save_to_file_locked fl w s).0.last_counters ≡ s.last_counters)
        × ((save_to_file_locked fl w s).0.running ≡ s.running)
  unfolding save_to_file_locked
  save_config written s h = (refl, refl, refl, refl)
  save_config failed s h = (refl, refl, refl, refl)
  save_config no_directory s h = (refl, h, refl, refl)

  config_or_default_twice :
      (c : NetStaticConfig F)
      → config_or_default fl (config_or_default fl c) ≡ config_or_default fl c
  unfolding config_or_default
  config_or_default_twice c =
      let h = config_or_default-HasPeriods c in
      ground (arith, h.day_nonzero, h.detect_nonzero, h.save_nonzero)

  drop_unlisted_lem :
      (l : List Text) (s : State F)
      → ((drop_unlisted fl l s).config ≡ s.config)
        × ((drop_unlisted fl l s).store ≡ s.store)
        × ((drop_unlisted fl l s).running ≡ s.running)
        × All (IsListed {V = Counters} l) (drop_unlisted fl l s).last_counters
  unfolding drop_unlisted
  drop_unlisted_lem [] s = (refl, refl, refl, All-IsListed s.last_counters)
  drop_unlisted_lem (n ∷ l) s = (refl, refl, refl, keep_keys-IsListed n l s.last_counters)

  start_tickers_lem :
      (c : NetStaticConfig F) (s : State F) {s' : State F}
      → start_tickers fl c s ≡ some s'
      → (s'.config ≡ s.config) × (s'.store ≡ s.store) × (s'.running ≡ true)
  unfolding start_tickers
  start_tickers_lem c s h = (ground arith, ground arith, ground arith)

  reconfigure_lem :
      (c : NetStaticConfig F) (s : State F) {s' : State F}
      → reconfigure fl c s ≡ some s'
      → (s'.config ≡ s.config)
        × (s'.store ≡ s.store)
        × (s'.running ≡ s.running)
        × (s.running ≡ true → All (IsListed {V = Counters} (nic_list c.nics)) s'.last_counters)
  unfolding reconfigure
  reconfigure_lem c s {s'} h = elim (Bool-cases s.running) [
    | inl on ↦
        let (t, e, h') =
          >>=-eq-some (start_tickers fl c s) (λ t. some (drop_unlisted fl (nic_list c.nics) t))
            (simp on at h) in
        let (conf, stored, run) = start_tickers_lem c s e in
        let (conf', stored', run', listed') = drop_unlisted_lem (nic_list c.nics) t in
        let e' : drop_unlisted fl (nic_list c.nics) t ≡ s' = cc in
        rw (← e') (conf' ∙ conf, stored' ∙ stored, run' ∙ run ∙ sym on, λ _. listed')
    | inr off ↦
        let e' : s ≡ s' = let k = (simp off at h) in cc in
        rw (← e') (refl, refl, refl, λ on. absurd (false≢true (sym off ∙ on)))
  ]

  purge_config :
      (now : ℕ) (s : State F)
      → ((purge_expired_locked fl now s).config ≡ s.config)
        × ((purge_expired_locked fl now s).store.config ≡ s.store.config)
        × ((purge_expired_locked fl now s).last_counters ≡ s.last_counters)
  unfolding purge_expired_locked
  purge_config now s = (refl, refl, refl)

  set_new_config_lem :
      (now : ℕ) (w : Write) (new : NetStaticConfig F) (s : State F) {s' : State F}
      → set_new_config fl now w new s ≡ some s'
      → InForce new s.store.config s'
        × (s.running ≡ true
            → All (IsListed {V = Counters} (nic_list s'.config.nics)) s'.last_counters)
  unfolding set_new_config ensure_init_locked
  set_new_config_lem now w new s {s'} h =
      let cfg = config_or_default fl (merge_config fl new s.store.config) in
      let s₀ : State F = record (ensure_init_locked fl s) {
        store = record ((ensure_init_locked fl s).store) { config = cfg };
        config = cfg;
      } in
      let (t, e, h') =
        >>=-eq-some (reconfigure fl cfg s₀)
          (λ t. some (purge_expired_locked fl now (save_to_file_locked fl w t).0)) h in
      let (conf, kept, run, counters) = reconfigure_lem cfg s₀ e in
      let twice = config_or_default_twice (merge_config fl new s.store.config) in
      let ready : t.store.config ≡ config_or_default fl t.config =
        ap (λ (x : NetStatic F). x.config) kept
        ∙ sym twice
        ∙ sym (ap (config_or_default fl) conf) in
      let (conf', store', counters', run') = save_config w t ready in
      let (conf'', store'', counters'') = purge_config now (save_to_file_locked fl w t).0 in
      let e' : purge_expired_locked fl now (save_to_file_locked fl w t).0 ≡ s' = cc in
      let in_force : s'.config ≡ cfg = rw (← e') (conf'' ∙ conf' ∙ conf) in
      let stored : s'.store.config ≡ cfg =
        rw (← e') (store'' ∙ store' ∙ ap (config_or_default fl) conf ∙ twice) in
      let last : s'.last_counters ≡ t.last_counters = rw (← e') (counters'' ∙ counters') in
      let m = merge_config-IsMerged new s.store.config in
      (
        record {
          same = in_force ∙ sym stored;
          day = rw in_force m.day;
          detect = rw in_force m.detect;
          save = rw in_force m.save;
          whitelist = rw in_force m.whitelist;
          periods = rw in_force (config_or_default-HasPeriods _);
        },
        λ on.
            subst₂ (λ (c : NetStaticConfig F) m. All (IsListed {V = Counters} (nic_list c.nics)) m)
              (sym in_force) (sym last) (counters on),
      )

  -- Where `SetNewConfig` returns, the configuration in force is the one in the store: each time is
  -- that of the argument if it is not zero, otherwise the one stored before if that is not zero, and
  -- otherwise 31 days, 2 seconds or 600 seconds; the whitelist is that of the argument if it is not
  -- nil, and otherwise the one stored before. No time is zero.
  pub set_new_config-InForce :
      (now : ℕ) (w : Write) (new : NetStaticConfig F) (s : State F) {s' : State F}
      → set_new_config fl now w new s ≡ some s'
      → InForce new s.store.config s'
  set_new_config-InForce now w new s h = (set_new_config_lem now w new s h).0

  -- Where `SetNewConfig` returns while the collector runs, only interfaces on the whitelist then in
  -- force have counters, and all may where it is empty.
  pub set_new_config-IsListed :
      (now : ℕ) (w : Write) (new : NetStaticConfig F) (s : State F) {s' : State F}
      → set_new_config fl now w new s ≡ some s'
      → s.running ≡ true
      → All (IsListed {V = Counters} (nic_list s'.config.nics)) s'.last_counters
  set_new_config-IsListed now w new s h on = (set_new_config_lem now w new s h).1 on
