-- ===== src/Offsd/Daemonize/Descriptors.antt =====
-- What becomes of the descriptors in `_daemonize` (src/offsd/main.c).
use offs.Base.{
  ℕ, Bool, true, false, Option, none, some, Bytes, ◌==◌, ltb, ◌||◌, ◌<◌, ◌≡◌, ◌≢◌, ◌∙◌, sym, ap,
  refl, arith, if◌then◌else◌,
}
use offs.Offsd.Daemonize.{
  File, shut, null_device, log, Table, assign, dup2, Fork, fork_failed, parent, child, System,
  Daemonized, detached, redirect, redirect_log, redirect_output, close_null, after_open,
  after_second, after_first, daemonize,
}

-- The file behind the two output descriptors, and the log's descriptor.
unfoldable pub target : Option Bytes → Option ℕ → File
target none log_fd = null_device
target (some path) none = null_device
target (some path) (some log_fd) = log

unfoldable pub is_log : Option Bytes → Option ℕ → ℕ → Bool
is_log none log_fd fd = false
is_log (some path) none fd = false
is_log (some path) (some log_fd) fd = fd == log_fd

abbrev pub expected : ℕ → Option Bytes → Option ℕ → Table → Table
expected dev_null log_file log_fd table fd =
    if fd == 0
    then null_device
    else if ltb fd 3
    then target log_file log_fd
    else if fd == dev_null || is_log log_file log_fd fd
    then shut
    else table fd

-- The outputs' table behind the log's redirection.
redirect_log_lem :
    (l dev_null : ℕ) (table : Table) (fd : ℕ)
    → 2 < l
    → redirect_log (some l) dev_null table fd
      ≡ (if fd == l then shut else if fd == 1 || fd == 2 then log else table fd)
unfolding redirect_log redirect assign
redirect_log_lem l dev_null table fd far = ground arith

redirect_lem :
    (dev_null : ℕ) (table : Table) (fd : ℕ)
    → 2 < dev_null
    → redirect dev_null table fd ≡ (if fd == 1 || fd == 2 then table dev_null else table fd)
unfolding redirect assign
redirect_lem dev_null table fd far = ground arith

close_null_lem :
    (dev_null : ℕ) (table : Table) (fd : ℕ)
    → close_null dev_null table fd ≡ (if fd == dev_null then shut else table fd)
unfolding close_null assign
close_null_lem dev_null table fd = ground arith

null_lem :
    (dev_null : ℕ) (table : Table) (fd : ℕ)
    → dup2 dev_null 0 (assign dev_null null_device table) fd
      ≡ (if fd == 0 || fd == dev_null then null_device else table fd)
unfolding assign
null_lem dev_null table fd = ground arith

redirect_output_lem :
    (S : System) (dev_null : ℕ) (log_file : Option Bytes) (log_fd : Option ℕ) (table : Table)
    (fd : ℕ)
    → 2 < dev_null
    → S.open_log ≡ log_fd
    → table dev_null ≡ null_device
    → ((l : ℕ) → log_fd ≡ some l → 2 < l)
    → redirect_output S log_file dev_null table fd ≡ (
        if is_log log_file log_fd fd
        then shut
        else if fd == 1 || fd == 2
        then target log_file log_fd
        else table fd)
unfolding redirect_output redirect_log is_log target
redirect_output_lem S dev_null none log_fd table fd far e null far_log =
    redirect_lem dev_null table fd far ∙ rw null refl
redirect_output_lem S dev_null (some path) none table fd far e null far_log =
    rw e (redirect_lem dev_null table fd far ∙ rw null refl)
redirect_output_lem S dev_null (some path) (some l) table fd far e null far_log =
    rw e (redirect_log_lem l dev_null table fd (far_log l refl))

after_first_detached :
    (S : System) (f : Fork) (log_file : Option Bytes) (table new : Table)
    → after_first S f log_file table ≡ detached new
    → after_second S S.second_fork log_file table ≡ detached new
unfolding after_first
after_first_detached S fork_failed log_file table new h = ground arith
after_first_detached S parent log_file table new h = ground arith
after_first_detached S child log_file table new h = ground arith

after_second_detached :
    (S : System) (f : Fork) (log_file : Option Bytes) (table new : Table)
    → after_second S f log_file table ≡ detached new
    → after_open S S.open_null log_file table ≡ detached new
unfolding after_second
after_second_detached S fork_failed log_file table new h = ground arith
after_second_detached S parent log_file table new h = ground arith
after_second_detached S child log_file table new h = ground arith

abbrev table_of : Table → Daemonized → Table
table_of table (detached new) = new
table_of table _ = table

-- The table that a detached daemon has.
daemonize_table :
    (S : System) (log_file : Option Bytes) (table new : Table) (dev_null : ℕ)
    → daemonize S log_file table ≡ detached new
    → S.open_null ≡ some dev_null
    → new
      ≡ close_null dev_null (
          redirect_output S log_file dev_null (dup2 dev_null 0 (assign dev_null null_device table)))
unfolding daemonize after_open
daemonize_table S log_file table new dev_null h opened =
    let second = after_first_detached S S.first_fork log_file table new h in
    let third = after_second_detached S S.second_fork log_file table new second in
    ap (table_of table) (sym third ∙ ap (λ o. after_open S o log_file table) opened)

-- The order of the tests does not matter.
merge_lem :
    (fd dev_null : ℕ) (is_log : Bool) (out old : File)
    → 2 < dev_null
    → (is_log ≡ true → (2 < fd) × (fd ≢ dev_null))
    → (if fd == dev_null
        then shut
        else if is_log
        then shut
        else if fd == 1 || fd == 2
        then out
        else if fd == 0 || fd == dev_null
        then null_device
        else old)
      ≡ (if fd == 0
          then null_device
          else if ltb fd 3
          then out
          else if fd == dev_null || is_log
          then shut
          else old)
merge_lem fd dev_null true out old far apart = let (far_fd, other) = apart refl in ground arith
merge_lem fd dev_null false out old far apart = ground arith

-- A descriptor of the log is none of the others.
log_apart :
    (log_file : Option Bytes) (log_fd : Option ℕ) (fd dev_null : ℕ)
    → ((l : ℕ) → log_fd ≡ some l → (2 < l) × (l ≢ dev_null))
    → is_log log_file log_fd fd ≡ true
    → (2 < fd) × (fd ≢ dev_null)
unfolding is_log
log_apart none log_fd fd dev_null apart h = absurd (ground arith)
log_apart (some path) none fd dev_null apart h = absurd (ground arith)
log_apart (some path) (some l) fd dev_null apart h = let (far, other) = apart l refl in ground arith

-- A daemon that has detached, where open gave neither the null device nor the log one of the three
-- standard descriptors: the standard input is the null device, the outputs are the log, or the null
-- device without one, the two descriptors opened on the way are closed, and all others are as
-- before.
pub daemonize_descriptors :
    (S : System) (log_file : Option Bytes) (table new : Table) (dev_null fd : ℕ)
    → daemonize S log_file table ≡ detached new
    → S.open_null ≡ some dev_null
    → 2 < dev_null
    → ((l : ℕ) → S.open_log ≡ some l → (2 < l) × (l ≢ dev_null))
    → new fd ≡ expected dev_null log_file S.open_log table fd
daemonize_descriptors S log_file table new dev_null fd h opened far apart =
    rw (daemonize_table S log_file table new dev_null h opened) (
      close_null_lem dev_null
        (redirect_output S log_file dev_null (dup2 dev_null 0 (assign dev_null null_device table)))
        fd
      ∙ rw
          (redirect_output_lem S dev_null log_file S.open_log
            (dup2 dev_null 0 (assign dev_null null_device table)) fd far refl
            (null_lem dev_null table dev_null ∙ ground arith) (λ l e. (apart l e).0))
          (rw (null_lem dev_null table fd) (
            merge_lem fd dev_null (is_log log_file S.open_log fd) _ (table fd) far
              (log_apart log_file S.open_log fd dev_null apart))))

-- The descriptor that open gave for the null device is shut in a detached daemon, even where it is
-- one of the three standard ones.
pub daemonize_shut :
    (S : System) (log_file : Option Bytes) (table new : Table) (dev_null : ℕ)
    → daemonize S log_file table ≡ detached new
    → S.open_null ≡ some dev_null
    → new dev_null ≡ shut
daemonize_shut S log_file table new dev_null h opened =
    rw (daemonize_table S log_file table new dev_null h opened) (
      close_null_lem dev_null
        (redirect_output S log_file dev_null (dup2 dev_null 0 (assign dev_null null_device table)))
        dev_null
      ∙ ground arith)
