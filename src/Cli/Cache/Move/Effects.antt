-- ===== src/Cli/Cache/Move/Effects.antt =====
-- What a run of `offs cache move` leaves: the staged directory agrees with where the files are.
use offs.Base.{
  ℕ, zero, suc, Bool, true, false, Option, none, some, List, [], ◌∷◌, if◌then◌else◌, Bytes, ◌≡◌,
  ◌∙◌, refl, ap, arith, codes, inl, inr, Bool-cases,
}
use offs.Cli.Host.{
  Verify, sha256, unverified, Event, asked_running, staged, moved, removed, Contents, empty,
  nonempty, unreadable, Host, return, Trace,
}
use offs.Cli.Daemon.{daemon_is_running, wait_stopped, cmd_stop}
use offs.Cli.Daemon.Footprint.{
  is_daemon_event, keeps-daemon_is_running, keeps-wait_stopped, keeps-cmd_stop, keeps-cmd_start,
}
use offs.Cli.Cache.Move.{
  stage_cache_dir, restart_if, finish_move, move_files, stage_and_move, stop_daemon, confirm_down,
  await_stop, stop_and_move, stage_only, act_on_source, prepare_dest,
}

-- A call that stages a field of a directory's pending configuration, and a move of files.
pub record Staging : Type 0 where
  pub dir : Bytes
  pub field : Bytes
  pub value : Option Bytes
  pub ok : Bool

pub record FileMove : Type 0 where
  pub src : Bytes
  pub dest : Bytes
  pub ok : Bool

-- What a trace says: the newest move, the newest staging of any field in any directory, and all
-- paths whose removal was tried, the newest first.
pub record View : Type 0 where
  pub newest_move : Option FileMove
  pub newest_stage : Option Staging
  pub removals : List Bytes

abbrev update : Event → View → View
update (staged dir field value ok) v = record v {
  newest_stage = some (record { dir = dir; field = field; value = value; ok = ok });
}
update (moved src dest mode ok) v = record v {
  newest_move = some (record { src = src; dest = dest; ok = ok });
}
update (removed path ok) v = record v { removals = path ∷ v.removals }
update _ v = v

abbrev pub view : Trace → View
view [] = record { newest_move = none; newest_stage = none; removals = [] }
view (e ∷ t) = update e (view t)

-- Of the field cache_dir.
abbrev pub of_cache_dir : Bytes → Option Bytes → Bool → Staging
of_cache_dir dir value ok = record { dir = dir; field = codes "cache_dir"; value = value; ok = ok }

view_passes : (e : Event) (t : Trace) → is_daemon_event e ≡ true → view (e ∷ t) ≡ view t
view_passes e t h = ground arith

-- A status and a view after a run with this configuration directory, if one was found. If a move was
-- made, it is the newest, and its result agrees with the status and with the newest staging, which
-- is of cache_dir and in that directory: the destination after a move that succeeded, null after one
-- that failed. After a move that succeeded its source is removed and nothing else; otherwise nothing
-- is.
pub record IsSettled (config : Option Bytes) (status : ℕ) (v : View) : Type 0 where
  pub after_success :
      (src dest : Bytes)
      → v.newest_move ≡ some (record { src = src; dest = dest; ok = true })
      → (status ≡ 0)
        × (v.removals ≡ src ∷ [])
        × (dir : Bytes) × (config ≡ some dir)
        × (v.newest_stage ≡ some (of_cache_dir dir (some dest) true))
  pub after_failure :
      (src dest : Bytes)
      → v.newest_move ≡ some (record { src = src; dest = dest; ok = false })
      → (status ≡ 1)
        × (v.removals ≡ [])
        × (dir : Bytes) × (config ≡ some dir)
        × (ok : Bool) × (v.newest_stage ≡ some (of_cache_dir dir none ok))
  pub unmoved : v.newest_move ≡ none → v.removals ≡ []

abbrev pub Settled : Option Bytes → ℕ × Trace → Type 0
Settled config (status, t) = IsSettled config status (view t)

-- Before the move.
pub record IsFresh (v : View) : Type 0 where
  pub no_move : v.newest_move ≡ none
  pub no_removal : v.removals ≡ []

pub fresh-IsSettled :
    (config : Option Bytes) (status : ℕ) (v : View) → IsFresh v → IsSettled config status v
fresh-IsSettled config status v f = record {
  after_success = λ src dest e. ground (arith, f.no_move);
  after_failure = λ src dest e. ground (arith, f.no_move);
  unmoved = λ e. f.no_removal;
}

module _ (H : Host) where
  restart_if-Settled :
      (config : Option Bytes) (up : Bool) (status : ℕ) (t : Trace)
      → IsSettled config status (view t)
      → Settled config (restart_if H up status t)
  unfolding restart_if
  restart_if-Settled config false status t h = h
  restart_if-Settled config true status t h = rw (keeps-cmd_start H view view_passes [] t) h

  finish_move-Settled :
      (src dest dir : Bytes) (up : Bool) (t : Trace)
      → (view t).newest_move ≡ some (record { src = src; dest = dest; ok = true })
      → (view t).newest_stage ≡ some (of_cache_dir dir (some dest) true)
      → (view t).removals ≡ []
      → Settled (some dir) (finish_move H src up t)
  unfolding finish_move
  finish_move-Settled src dest dir up t m s none_yet =
      restart_if-Settled (some dir) up 0 (removed src (H.remove t src) ∷ t) (record {
        after_success = λ src' dest' e.
            let same : (src ≡ src') × (dest ≡ dest') = ground (arith, m) in
            (
              refl,
              rw (none_yet, same.0) refl,
              dir,
              refl,
              s ∙ ap (λ d. some (of_cache_dir dir (some d) true)) same.1,
            );
        after_failure = λ src' dest' e. ground (arith, m);
        unmoved = λ e. ground (arith, m);
      })

  -- After a move that failed, null has been staged.
  revert-Settled :
      (src dest dir : Bytes) (mode : Verify) (up : Bool) (t : Trace)
      → IsFresh (view t)
      → Settled
          (some dir)
          (restart_if H up 1 (stage_cache_dir H dir none (moved src dest mode false ∷ t)).1)
  unfolding stage_cache_dir
  revert-Settled src dest dir mode up t f =
      restart_if-Settled (some dir) up 1
        (stage_cache_dir H dir none (moved src dest mode false ∷ t)).1
        (record {
          after_success = λ src' dest' e. ground arith;
          after_failure = λ src' dest' e. (refl, f.no_removal, dir, refl, _, refl);
          unmoved = λ e. f.no_removal;
        })

  move_files-Settled :
      (src dest config_dir : Bytes) (is_unsafe up : Bool) (t : Trace)
      → IsFresh (view t)
      → (view t).newest_stage ≡ some (of_cache_dir config_dir (some dest) true)
      → Settled (some config_dir) (move_files H src dest config_dir is_unsafe up t)
  unfolding move_files
  move_files-Settled src dest config_dir is_unsafe up t f s =
      elim (Bool-cases (H.move t src dest mode)) [
        | inl ok ↦ rw ok (
            finish_move-Settled src dest config_dir up (moved src dest mode true ∷ t) refl s
              f.no_removal)
        | inr failed ↦ rw failed (revert-Settled src dest config_dir mode up t f)
      ]
    where
      mode : Verify
      mode = if is_unsafe then unverified else sha256

  stage_and_move-Settled :
      (src dest config_dir : Bytes) (is_unsafe up : Bool) (t : Trace)
      → IsFresh (view t)
      → Settled (some config_dir) (stage_and_move H src dest config_dir is_unsafe up t)
  unfolding stage_and_move stage_cache_dir
  stage_and_move-Settled src dest config_dir is_unsafe up t f =
      elim (Bool-cases (H.stage t config_dir (codes "cache_dir") (some dest))) [
        | inl ok ↦ rw ok (
            move_files-Settled src dest config_dir is_unsafe up
              (staged config_dir (codes "cache_dir") (some dest) true ∷ t)
              (record { no_move = f.no_move; no_removal = f.no_removal }) refl)
        | inr failed ↦ rw failed (
            restart_if-Settled (some config_dir) up 1
              (staged config_dir (codes "cache_dir") (some dest) false ∷ t)
              (fresh-IsSettled (some config_dir) 1 _
                (record { no_move = f.no_move; no_removal = f.no_removal })))
      ]

  confirm_down-view : (down : Bool) (t : Trace) → view (confirm_down H down t).1 ≡ view t
  unfolding confirm_down
  confirm_down-view true t = keeps-daemon_is_running H view view_passes t
  confirm_down-view false t = refl

  await_stop-view : (status : ℕ) (t : Trace) → view (await_stop H status t).1 ≡ view t
  unfolding await_stop
  await_stop-view zero t =
      confirm_down-view (wait_stopped H 10000 t).0 (wait_stopped H 10000 t).1
      ∙ keeps-wait_stopped H view view_passes 10000 t
  await_stop-view (suc n) t = refl

  stop_daemon-view : (t : Trace) → view (stop_daemon H t).1 ≡ view t
  unfolding stop_daemon
  stop_daemon-view t =
      await_stop-view (cmd_stop H t).0 (cmd_stop H t).1 ∙ keeps-cmd_stop H view view_passes t

  pub IsFresh-view : (t u : Trace) → view u ≡ view t → IsFresh (view t) → IsFresh (view u)
  IsFresh-view t u e f = rw e f

  after_stop-Settled :
      (src dest config_dir : Bytes) (is_unsafe : Bool) (t : Trace)
      → IsFresh (view t)
      → (down : Bool)
      → Settled
          (some config_dir)
          ((if down then stage_and_move H src dest config_dir is_unsafe true else return 1) t)
  after_stop-Settled src dest config_dir is_unsafe t f true =
      stage_and_move-Settled src dest config_dir is_unsafe true t f
  after_stop-Settled src dest config_dir is_unsafe t f false =
      fresh-IsSettled (some config_dir) 1 (view t) f

  stop_and_move-Settled :
      (src dest config_dir : Bytes) (is_unsafe : Bool) (t : Trace)
      → IsFresh (view t)
      → Settled (some config_dir) (stop_and_move H src dest config_dir is_unsafe t)
  unfolding stop_and_move daemon_is_running
  stop_and_move-Settled src dest config_dir is_unsafe t f = elim (Bool-cases (H.running t)) [
    | inl up ↦ rw up (
        after_stop-Settled src dest config_dir is_unsafe (stop_daemon H (asked_running true ∷ t)).1
          (IsFresh-view t (stop_daemon H (asked_running true ∷ t)).1
            (stop_daemon-view (asked_running true ∷ t)) f)
          (stop_daemon H (asked_running true ∷ t)).0)
    | inr down ↦
        rw down
          (stage_and_move-Settled src dest config_dir is_unsafe false (asked_running false ∷ t) f)
  ]

  stage_only-Settled :
      (config_dir dest : Bytes) (t : Trace)
      → IsFresh (view t)
      → Settled (some config_dir) (stage_only H config_dir dest t)
  unfolding stage_only stage_cache_dir
  stage_only-Settled config_dir dest t f =
      fresh-IsSettled (some config_dir) _ _
        (record { no_move = f.no_move; no_removal = f.no_removal })

  pub act_on_source-Settled :
      (state : Contents) (keep : Bool) (src dest config_dir : Bytes) (is_unsafe : Bool) (t : Trace)
      → IsFresh (view t)
      → Settled (some config_dir) (act_on_source H state keep src dest config_dir is_unsafe t)
  unfolding act_on_source
  act_on_source-Settled nonempty false src dest config_dir is_unsafe t f =
      stop_and_move-Settled src dest config_dir is_unsafe t f
  act_on_source-Settled nonempty true src dest config_dir is_unsafe t f =
      stage_only-Settled config_dir dest t f
  act_on_source-Settled empty keep src dest config_dir is_unsafe t f =
      stage_only-Settled config_dir dest t f
  act_on_source-Settled unreadable keep src dest config_dir is_unsafe t f =
      stage_only-Settled config_dir dest t f

  pub prepare_dest-view : (dest : Bytes) (t : Trace) → view (prepare_dest H dest t).1 ≡ view t
  unfolding prepare_dest
  prepare_dest-view dest t = ground arith
