-- ===== src/Plugins/Gdrdrv/Node/Waiting.antt =====
-- How long `createGdrDrvLoop` polls.
use ocp_efa_operator.Prelude.{
  Bool, true, false, some, List, [], ◌∷◌, ◌≡◌, ◌↔◌, refl, sym, ap, ◌∙◌, true≢false, if◌then◌else◌,
}
use ocp_efa_operator.Plugins.Text.{Bytes}
use ocp_efa_operator.Plugins.Decimal.{ℤ}
use ocp_efa_operator.Plugins.System.{
  Errno, enodev, eintr, eexist, enoent, num_error, other, is_enodev, Result, ok, err, System,
}
use ocp_efa_operator.Plugins.Gdrdrv.Major.{get_gdrdrv_major}
use ocp_efa_operator.Plugins.Gdrdrv.Node.{
  State, Poll, signalled, asleep, LoopResult, done, polling, after_attempt, create_gdrdrv_loop,
}

is_enodev_sound : (e : Errno) → is_enodev e ≡ true → e ≡ enodev
is_enodev_sound enodev h = refl
is_enodev_sound eintr h = absurd (true≢false (sym h))
is_enodev_sound eexist h = absurd (true≢false (sym h))
is_enodev_sound enoent h = absurd (true≢false (sym h))
is_enodev_sound num_error h = absurd (true≢false (sym h))
is_enodev_sound (other n) h = absurd (true≢false (sym h))

abbrev is_missing : Result ℤ → Bool
is_missing (ok major) = false
is_missing (err e) = is_enodev e

module _ (sys : System) (devices_file target : Bytes) where
  -- no signal comes, and the module is missing now and after each sleep
  abbrev pub StillMissing : List (Poll sys) → sys.World → Type 0
  StillMissing [] w = get_gdrdrv_major sys devices_file w ≡ err enodev
  StillMissing (signalled ∷ polls) w = ⊥
  StillMissing (asleep env ∷ polls) w =
      (get_gdrdrv_major sys devices_file w ≡ err enodev) × StillMissing polls (env w)

  after_attempt-polling :
      (M : Type 0) (r : Result ℤ) (retry : State sys → LoopResult sys × State sys) (st : State sys)
      → ((retry st).0 ≡ polling) ↔ M
      → ((after_attempt sys target r retry st).0 ≡ polling) ↔ ((r ≡ err enodev) × M)
  after_attempt-polling M (ok major) retry st m = (λ h. cc, λ h. cc)
  after_attempt-polling M (err e) retry st m = split (is_enodev e) refl
    where
      split :
          (b : Bool)
          → is_enodev e ≡ b
          → ((if b then retry st else (done (some e), st)).0 ≡ polling)
            ↔ ((◌≡◌ {A = Result ℤ} (err e) (err enodev)) × M)
      split true h = (λ p. (ap err (is_enodev_sound e h), m.0 p), λ p. m.1 p.1)
      split false h = (λ p. cc, λ p. absurd (true≢false (sym (ap is_missing p.0) ∙ h)))

  -- Whatever the polls: `createGdrDrvLoop` still polls when they are over exactly when no poll found
  -- a signal and `getGdrdrvMajor` returned ENODEV each time; so it returns once the module is there,
  -- once a signal comes, and on any other error.
  pub create_gdrdrv_loop-StillMissing :
      (polls : List (Poll sys)) (st : State sys)
      → ((create_gdrdrv_loop sys devices_file target polls st).0 ≡ polling)
        ↔ StillMissing polls st.world
  unfolding create_gdrdrv_loop
  create_gdrdrv_loop-StillMissing [] st =
      let attempt =
        after_attempt-polling Unit (get_gdrdrv_major sys devices_file st.world)
          (λ st'. (polling, st')) st (λ h. tt, λ h. refl) in
      (λ h. (attempt.0 h).0, λ h. attempt.1 (h, tt))
  create_gdrdrv_loop-StillMissing (signalled ∷ polls) st =
      let attempt =
        after_attempt-polling ⊥ (get_gdrdrv_major sys devices_file st.world)
          (λ st'. (done (some eintr), st')) st (λ h. cc, λ h. absurd h) in
      (λ h. (attempt.0 h).1, λ h. absurd h)
  create_gdrdrv_loop-StillMissing (asleep env ∷ polls) st =
      after_attempt-polling (StillMissing polls (env st.world))
        (get_gdrdrv_major sys devices_file st.world) _ st
        (create_gdrdrv_loop-StillMissing polls (record st { world = env st.world }))
