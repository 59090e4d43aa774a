-- ===== src/Offsd/Watchdog.antt =====
-- The shutdown watchdog: `_shutdown_watchdog_thread`, and the lines of `_shutdown` that arm and
-- disarm it (src/offsd/main.c). Time passes in milliseconds; a round of the thread takes no time but
-- those of its sleeps. On POSIX.
pub mod Fires
use offs.Base.{ℕ, zero, suc, Bool, true, false, not, ◌&&◌, ◌||◌, if◌then◌else◌, ◌≡◌, ◌<◌}

-- SHUTDOWN_WATCHDOG_MS
unfoldable pub shutdown_watchdog_ms : ℕ
shutdown_watchdog_ms = 45000

-- The sleep in front of _exit, which lets the log lines out.
unfoldable pub last_words_ms : ℕ
last_words_ms = 100

-- g_shutdown_active, whether the thread was created, whether it has decided to kill the process, and
-- whether _exit was called; how long the thread has slept in its round and how long since that
-- decision, how long the last shutdown has taken, and how many are over.
pub record Watch : Type 0 where
  pub active : Bool
  pub created : Bool
  pub killed : Bool
  pub gone : Bool
  pub slept_ms : ℕ
  pub dying_ms : ℕ
  pub teardown_ms : ℕ
  pub completed : ℕ

abbrev pub no_watch : Watch
no_watch = record {
  active = false;
  created = false;
  killed = false;
  gone = false;
  slept_ms = 0;
  dying_ms = 0;
  teardown_ms = 0;
  completed = 0;
}

-- The start of a shutdown, by whether platform_thread_create succeeds; it is tried again only where
-- it has not succeeded yet.
unfoldable pub arm : Bool → Watch → Watch
arm ok s = record s {
  active = true;
  created = s.created || ok;
  slept_ms = if s.created then s.slept_ms else 0;
  teardown_ms = 0;
}

unfoldable pub disarm : Watch → Watch
disarm s = record s { active = false; completed = suc s.completed }

-- A millisecond, in which the rest of the process goes on also while the thread is in its last sleep.
unfoldable pub pass : Watch → Watch
pass s = record s {
  slept_ms = if s.created && not s.killed then suc s.slept_ms else s.slept_ms;
  dying_ms = if s.killed then suc s.dying_ms else s.dying_ms;
  teardown_ms = if s.active then suc s.teardown_ms else s.teardown_ms;
}

-- The test of the thread behind the sleep of a round.
unfoldable pub wake : Watch → Watch
wake s = if s.active then record s { killed = true } else record s { slept_ms = 0 }

-- _exit(1)
unfoldable pub end_process : Watch → Watch
end_process s = record s { gone = true }

pub data Tick (s : Watch) : Watch → Type 0 where
  arms : (ok : Bool) → s.gone ≡ false → s.active ≡ false → Tick s (arm ok s)
  disarms : s.gone ≡ false → s.active ≡ true → Tick s (disarm s)
  passes : s.killed ≡ false → s.slept_ms < shutdown_watchdog_ms → Tick s (pass s)
  wakes_up :
      s.killed ≡ false → s.created ≡ true → s.slept_ms ≡ shutdown_watchdog_ms → Tick s (wake s)
  dies : s.killed ≡ true → s.gone ≡ false → s.dying_ms < last_words_ms → Tick s (pass s)
  ends : s.killed ≡ true → s.gone ≡ false → s.dying_ms ≡ last_words_ms → Tick s (end_process s)

pub data Ticks (s : Watch) : Watch → Type 0 where
  still : Ticks s s
  later : {t u : Watch} → Ticks s t → Tick t u → Ticks s u
