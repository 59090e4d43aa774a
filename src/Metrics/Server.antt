-- ===== src/Metrics/Server.antt =====
-- The metrics server as a program (src/offs-metrics/metrics_server.c): `_handle_metrics` and
-- `main`. The parts are the scheduler pool and the HTTP server, whose calls are those of the
-- daemon's library.
use offs.Base.{
  ℕ, Bool, true, false, ◌||◌, not, Option, none, some, List, [], ◌∷◌, length, leb, if◌then◌else◌,
  Bytes, codes, str_eq, atoi, uint16_of, ◌≡◌, refl,
}
use offs.Metrics.{NodeReport, Counters, Totals, totals_from, no_totals}
use offs.Metrics.Status.{Page, declined, failed, shown}
use offs.Offsd.Life.{
  pool, http_server, created, started, stopped, pool_started, pool_stopped, destroyed, Trace, live,
  safe, no_server,
}

module _ {NodeId Metrics : Type 0} (c : Counters Metrics)
    (render : ℕ → Totals → List (NodeReport NodeId Metrics) → Bytes) where
  -- `render` is the text of snprintf, of the number of nodes, the totals, and the average of the
  -- nodes' weights; it is sent if it fits the buffer with its terminator.
  unfoldable pub handle_metrics : Bool → Bytes → List (NodeReport NodeId Metrics) → Page Bytes
  handle_metrics is_get path nodes =
      if not is_get || not (str_eq path (codes "/metrics"))
      then declined
      else let body = render (length nodes) (totals_from c no_totals nodes) nodes in
        if leb 4096 (length body) then failed else shown body

pub record ServerArgs : Type 0 where
  pub port : ℕ
  pub host : Bytes

abbrev pub default_args : ServerArgs
default_args = record { port = 9090; host = codes "0.0.0.0" }

pub data ServerWord : Type 0 where
  port_word host_word help_word ignored_word : ServerWord

unfoldable pub server_word : Bytes → ServerWord
server_word arg =
    if str_eq arg (codes "--port")
    then port_word
    else if str_eq arg (codes "--host")
    then host_word
    else if str_eq arg (codes "--help")
    then help_word
    else ignored_word

-- The loop over the arguments; `none` after --help. What is not known is passed over, and so is a
-- last flag with no value.
unfoldable pub parse_server_args : List Bytes → ServerArgs → Option ServerArgs
parse_server_args [] a = some a
parse_server_args (arg ∷ []) a = elim (server_word arg) [
  | port_word ↦ some a
  | host_word ↦ some a
  | help_word ↦ none
  | ignored_word ↦ some a
]
parse_server_args (arg ∷ value ∷ argv) a = elim (server_word arg) [
  | port_word ↦ parse_server_args argv (record a { port = uint16_of (atoi value) })
  | host_word ↦ parse_server_args argv (record a { host = value })
  | help_word ↦ none
  | ignored_word ↦ parse_server_args (value ∷ argv) a
]

module _ (creates_pool : Bool) (creates_server : ServerArgs → Bool) where
  -- From the result of http_server_create on, up to the signal and the end.
  unfoldable pub run_server : Bool → Trace → ℕ × Trace
  run_server true t = (
    0,
    destroyed pool true
        ∷ pool_stopped
        ∷ destroyed http_server true
        ∷ stopped http_server
        ∷ started http_server
        ∷ created http_server true
        ∷ t,
  )
  run_server false t = (1, destroyed pool true ∷ pool_stopped ∷ created http_server false ∷ t)

  -- From the result of scheduler_pool_create on.
  unfoldable pub run_pool : Bool → ServerArgs → ℕ × Trace
  run_pool true a = run_server (creates_server a) (pool_started ∷ created pool true ∷ [])
  run_pool false a = (1, created pool false ∷ [])

  unfoldable pub run_metrics : Option ServerArgs → ℕ × Trace
  run_metrics none = (0, [])
  run_metrics (some a) = run_pool creates_pool a

  -- `main`: the exit status and the calls.
  unfoldable pub metrics_main : List Bytes → ℕ × Trace
  metrics_main argv = run_metrics (parse_server_args argv default_args)

  run_pool-live :
      (ok served : Bool) (a : ServerArgs)
      → creates_server a ≡ served
      → (live (run_pool ok a).1 ≡ no_server) × (safe (run_pool ok a).1 ≡ true)
  unfolding run_pool run_server live safe
  run_pool-live false served a e = (refl, refl)
  run_pool-live true true a e = simp e (refl, refl)
  run_pool-live true false a e = simp e (refl, refl)

  -- At whatever call it fails, and at the signal that ends it, the metrics server has destroyed the
  -- pool and the HTTP server that it made, each once, and the pool after it has stopped.
  pub metrics_main-live :
      (argv : List Bytes)
      → (live (metrics_main argv).1 ≡ no_server) × (safe (metrics_main argv).1 ≡ true)
  unfolding metrics_main run_metrics live safe
  metrics_main-live argv = by_args (parse_server_args argv default_args)
    where
      by_args :
          (a : Option ServerArgs)
          → (live (run_metrics a).1 ≡ no_server) × (safe (run_metrics a).1 ≡ true)
      by_args none = (refl, refl)
      by_args (some a) = run_pool-live creates_pool (creates_server a) a refl
