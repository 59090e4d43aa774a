-- ===== src/Offsd/Daemonize.antt =====
-- `_daemonize` on POSIX (src/offsd/main.c): the forks and what becomes of the descriptors.
pub mod Descriptors
use offs.Base.{
  ℕ, Bool, true, false, Option, none, some, Bytes, ◌==◌, ltb, ◌||◌, ◌<◌, ◌≡◌, ◌≢◌, ◌∙◌, sym, ap,
  refl, arith, if◌then◌else◌,
}

-- What a descriptor refers to.
pub data File : Type 0 where
  shut null_device log inherited : File

-- The open descriptors.
abbrev pub Table : Type 0
Table = ℕ → File

unfoldable pub assign : ℕ → File → Table → Table
assign fd file table other = if other == fd then file else table other

-- dup2(from, to)
abbrev pub dup2 : ℕ → ℕ → Table → Table
dup2 from to table = assign to (table from) table

abbrev pub close : ℕ → Table → Table
close fd table = assign fd shut table

-- fork: an error, the parent or the child.
pub data Fork : Type 0 where
  fork_failed parent child : Fork

-- The system calls' results; open gives the lowest free descriptor, or fails.
pub record System : Type 0 where
  pub first_fork : Fork
  pub setsid : Bool
  pub second_fork : Fork
  pub chdir : Bool
  pub open_null : Option ℕ
  pub open_log : Option ℕ

-- The process ends with _exit(0), `_daemonize` returns -1, or it returns 0 in the daemon.
pub data Daemonized : Type 0 where
  left refused : Daemonized
  detached : Table → Daemonized

-- The output goes to one file, whose descriptor stays open.
unfoldable pub redirect : ℕ → Table → Table
redirect fd table = dup2 fd 2 (dup2 fd 1 table)

-- The log's descriptor, which is closed again, or the null device where it could not be opened.
unfoldable pub redirect_log : Option ℕ → ℕ → Table → Table
redirect_log none dev_null table = redirect dev_null table
redirect_log (some log_fd) dev_null table = close log_fd (redirect log_fd (assign log_fd log table))

-- Both calls of close at the end.
unfoldable pub close_null : ℕ → Table → Table
close_null dev_null table =
    let once = close dev_null table in if ltb 2 dev_null then close dev_null once else once

module _ (S : System) where
  unfoldable pub redirect_output : Option Bytes → ℕ → Table → Table
  redirect_output none dev_null table = redirect dev_null table
  redirect_output (some path) dev_null table = redirect_log S.open_log dev_null table

  -- From the open of /dev/null on.
  unfoldable pub after_open : Option ℕ → Option Bytes → Table → Daemonized
  after_open none log_file table = refused
  after_open (some dev_null) log_file table = detached (
      close_null dev_null
        (redirect_output log_file dev_null (dup2 dev_null 0 (assign dev_null null_device table))))

  unfoldable pub after_second : Fork → Option Bytes → Table → Daemonized
  after_second fork_failed log_file table = refused
  after_second parent log_file table = left
  after_second child log_file table =
      if S.chdir then after_open S.open_null log_file table else refused

  unfoldable pub after_first : Fork → Option Bytes → Table → Daemonized
  after_first fork_failed log_file table = refused
  after_first parent log_file table = left
  after_first child log_file table =
      if S.setsid then after_second S.second_fork log_file table else refused

  unfoldable pub daemonize : Option Bytes → Table → Daemonized
  daemonize log_file table = after_first S.first_fork log_file table
