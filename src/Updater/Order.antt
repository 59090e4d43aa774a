-- ===== src/Updater/Order.antt =====
-- The order of the updater's steps (src/Updater/updater_main.c).
use offs.Base.{
  Bool, true, false, ◌&&◌, any, none, some, List, [], ◌∷◌, Bytes, codes, str_eq, ◌≡◌, refl, ◌∙◌,
  arith, Bool-cases, inl, inr,
}
use offs.Service.{ServiceResult, result_ok, result_error, result_timeout, not_installed}
use offs.Updater.{
  Steps, stopped, started, waited_stop, copied, restored, logged, Services, UpdaterArgs,
  updater_args, take_dir, take_arg, parse_updater, Updated, exits, replaced, copy_to, copy_files,
  restore_done, restore_backup, stop_service, start_service, roll_back, conclude, check_daemon,
  restart_daemon, executed, self_replace, not_stopped, replace_files, update_from, run_updater,
  updater_main,
}

-- Whether the service was asked to stop, and not started since.
unfoldable pub is_halted : Steps → Bool
is_halted [] = false
is_halted (stopped ∷ steps) = true
is_halted (started ∷ steps) = false
is_halted (_ ∷ steps) = is_halted steps

-- Whether a wait has found it stopped, and it was not started since.
unfoldable pub is_down : Steps → Bool
is_down [] = false
is_down (waited_stop result_ok ∷ steps) = true
is_down (started ∷ steps) = false
is_down (_ ∷ steps) = is_down steps

-- A file is copied only while the service is down, and the backup only while it is halted.
unfoldable pub in_order : Steps → Bool
unfolding is_halted is_down
in_order [] = true
in_order (copied from to ∷ steps) = is_down steps && in_order steps
in_order (restored command ∷ steps) = is_halted steps && in_order steps
in_order (_ ∷ steps) = in_order steps

unfoldable pub steps_of : Updated → Steps
steps_of (exits status steps) = steps
steps_of (replaced program argv steps) = steps

-- Whether the mode is FINISH_SELF_REPLACE.
unfoldable pub is_finish : UpdaterArgs → Bool
is_finish (updater_args finish s i b) = finish

take_dir_mode : (arg : Bytes) (a : UpdaterArgs) → is_finish (take_dir arg a) ≡ is_finish a
unfolding take_dir is_finish
take_dir_mode arg (updater_args f none i b) = refl
take_dir_mode arg (updater_args f (some s) none b) = refl
take_dir_mode arg (updater_args f (some s) (some i) none) = refl
take_dir_mode arg (updater_args f (some s) (some i) (some b)) = refl

parse_updater_mode :
    (argv : List Bytes) (a : UpdaterArgs)
    → any (λ arg. str_eq arg (codes "--finish")) argv ≡ false
    → is_finish a ≡ false
    → is_finish (parse_updater argv a) ≡ false
unfolding parse_updater take_arg
parse_updater_mode [] a h normal = normal
parse_updater_mode (arg ∷ argv) a h normal = elim (Bool-cases (str_eq arg (codes "--finish"))) [
  | inl e ↦ absurd (ground arith)
  | inr e ↦
      rw e (parse_updater_mode argv (take_dir arg a) (ground arith) (take_dir_mode arg a ∙ normal))
]

module _ (S : Services) (staging install backup : Bytes) where
  restore_done-in_order :
      (done : Bool) (steps : Steps)
      → in_order steps ≡ true
      → in_order (restore_done S staging install backup done steps) ≡ true
  unfolding restore_done in_order
  restore_done-in_order true steps h = h
  restore_done-in_order false steps h = h

  roll_back-in_order :
      (steps : Steps)
      → in_order steps ≡ true
      → in_order (roll_back S staging install backup steps) ≡ true
  unfolding roll_back start_service restore_backup stop_service in_order is_halted
  roll_back-in_order steps h = restore_done-in_order _ _ h

  conclude-in_order :
      (up : Bool) (steps : Steps)
      → in_order steps ≡ true
      → in_order (steps_of (conclude S staging install backup up steps)) ≡ true
  unfolding conclude steps_of in_order
  conclude-in_order true steps h = h
  conclude-in_order false steps h = roll_back-in_order steps h

  restart_daemon-in_order :
      (steps : Steps)
      → in_order steps ≡ true
      → in_order (steps_of (restart_daemon S staging install backup steps)) ≡ true
  unfolding restart_daemon check_daemon in_order
  restart_daemon-in_order steps h = conclude-in_order _ _ h

  executed-in_order :
      (failed : Bool) (steps : Steps)
      → in_order steps ≡ true
      → in_order (steps_of (executed S staging install backup failed steps)) ≡ true
  unfolding executed steps_of in_order
  executed-in_order true steps h = h
  executed-in_order false steps h =
      restart_daemon-in_order
        (logged (codes "ERROR: exec of temp updater failed, attempting direct service restart")
          ∷ steps)
        h

  replace_files-in_order :
      (result : ServiceResult) (steps : Steps)
      → in_order steps ≡ true
      → in_order
          (steps_of (replace_files S staging install backup result (waited_stop result ∷ steps)))
        ≡ true
  unfolding replace_files self_replace copy_files copy_to not_stopped steps_of in_order is_down
  replace_files-in_order result_ok steps h = executed-in_order _ _ h
  replace_files-in_order result_error steps h = h
  replace_files-in_order result_timeout steps h = h
  replace_files-in_order not_installed steps h = h

run_updater-in_order :
    (S : Services) (a : UpdaterArgs)
    → is_finish a ≡ false
    → in_order (steps_of (run_updater S a)) ≡ true
unfolding run_updater update_from steps_of in_order is_finish
run_updater-in_order S (updater_args f none i b) h = refl
run_updater-in_order S (updater_args f (some s) none b) h = refl
run_updater-in_order S (updater_args f (some s) (some i) none) h = refl
run_updater-in_order S (updater_args true (some s) (some i) (some b)) h = absurd (ground arith)
run_updater-in_order S (updater_args false (some s) (some i) (some b)) h =
    replace_files-in_order S s i b _ _ refl

-- A run of the updater without `--finish` among its arguments, on any system: each file is copied
-- while the service is known to be down (a wait for its stop returned `service_result_ok`, and it
-- was not started since), and the backup is restored only behind a request to stop that no start
-- has followed.
pub updater_main-in_order :
    (S : Services) (argv : List Bytes)
    → any (λ arg. str_eq arg (codes "--finish")) argv ≡ false
    → in_order (steps_of (updater_main S argv)) ≡ true
unfolding updater_main is_finish
updater_main-in_order S argv h = run_updater-in_order S _ (parse_updater_mode argv _ h refl)
