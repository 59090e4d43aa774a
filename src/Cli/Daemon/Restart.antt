-- ===== src/Cli/Daemon/Restart.antt =====
-- `offs restart` on POSIX (src/offs/commands/start_stop.c): through the service manager, or by a stop
-- and a start with the flags of the daemon that runs.
pub mod Preserved
pub mod Started
use offs.Base.{
  ℕ, zero, suc, Bool, true, false, not, Option, none, some, List, [], ◌∷◌, ◌++◌, ◌==◌,
  if◌then◌else◌, take, Bytes, codes, str_eq,
}
use offs.Cli.Host.{Host, M, ◌>>=◌, ◌>>◌, return}
use offs.Cli.Daemon.{cmd_stop, wait_stopped, cmd_start}

-- The bytes that are read of /proc/<pid>/cmdline.
abbrev pub cmdline_size : ℕ
cmdline_size = 4095

abbrev is_nil : Bytes → Bool
is_nil [] = true
is_nil (c ∷ cs) = false

-- The texts between the zero bytes, up to an empty one; `word` is what has been read of the next.
unfoldable pub split_words : Bytes → Bytes → List Bytes
split_words word [] = if is_nil word then [] else word ∷ []
split_words word (c ∷ cs) =
    let ends = split_words [] cs in
    let goes_on = split_words (word ++ (c ∷ [])) cs in
    if c == 0 then (if is_nil word then [] else word ∷ ends) else goes_on

behind_first : List Bytes → List Bytes
behind_first [] = []
behind_first (path ∷ args) = args

-- _read_running_offsd_args, of the process's command line if it can be read.
unfoldable pub read_running_offsd_args : Option Bytes → List Bytes
unfolding behind_first
read_running_offsd_args none = []
read_running_offsd_args (some bytes) = behind_first (split_words [] (take cmdline_size bytes))

-- The loop that strips `--foreground`.
unfoldable pub strip_foreground : List Bytes → List Bytes
strip_foreground [] = []
strip_foreground (arg ∷ args) =
    let rest = strip_foreground args in
    if str_eq arg (codes "--foreground") then rest else arg ∷ rest

-- The arguments of the start.
unfoldable pub start_argv : List Bytes → Option Bytes → List Bytes
start_argv [] cmdline = strip_foreground (read_running_offsd_args cmdline)
start_argv (arg ∷ argv) cmdline = arg ∷ argv

-- Whether the exit status of a shell's command is 0, and the running daemon's command line.
pub record Manager : Type 0 where
  pub system : Bytes → Bool
  pub cmdline : Option Bytes

-- _is_service_managed and _service_restart, on Linux
unfoldable pub is_service_managed : Manager → Bool
is_service_managed m = m.system (codes "systemctl is-active --quiet offs-daemon 2>/dev/null")

unfoldable pub service_restart : Manager → ℕ
service_restart m = if m.system (codes "systemctl restart offs-daemon 2>&1") then 0 else 1

module _ (H : Host) where
  -- From the status of cmd_stop on. The result of the wait is a warning only.
  start_again : ℕ → List Bytes → M ℕ
  start_again zero argv = do wait_stopped H 10000; cmd_start H argv
  start_again (suc n) argv = return (suc n)

  unfoldable pub cmd_restart : Manager → List Bytes → M ℕ
  unfolding start_again
  cmd_restart m argv =
      if is_service_managed m
      then return (service_restart m)
      else do status ← cmd_stop H; start_again status (start_argv argv m.cmdline)
