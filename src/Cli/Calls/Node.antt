-- ===== src/Cli/Calls/Node.antt =====
-- `offs bootstrap`, `offs health` and `offs status` (src/offs/commands/bootstrap.c, health.c and
-- status.c).
use offs.Base.{ℕ, zero, suc, List, [], ◌∷◌, ◌++◌, Bytes, codes, str_eq, if◌then◌else◌}
use offs.Cli.Calls.{
  Request, bootstrap_add, bootstrap_remove, bootstrap_list, health, update_status, World, Run,
  no_call, call, Reply, unencoded, unanswered, error_frame, other_frame, undecoded, answered,
}

-- bootstrap_send_and_report
unfoldable pub report_status : Reply → ℕ
report_status unencoded = 1
report_status unanswered = 1
report_status error_frame = 1
report_status other_frame = 1
report_status undecoded = 1
report_status (answered zero) = 0
report_status (answered (suc status)) = 1

-- The response to `bootstrap list`, which has no status.
unfoldable pub entries_status : Reply → ℕ
entries_status unencoded = 1
entries_status unanswered = 1
entries_status error_frame = 1
entries_status other_frame = 1
entries_status undecoded = 1
entries_status (answered status) = 0

-- The response of cmd_health, which has no status.
unfoldable pub health_status : Reply → ℕ
health_status unencoded = 1
health_status unanswered = 1
health_status error_frame = 1
health_status other_frame = 1
health_status undecoded = 1
health_status (answered status) = 0

-- The arguments behind `add` and `remove`, of which the first is the endpoint.
unfoldable pub send_endpoint : World → (Bytes → Request) → List Bytes → Run
send_endpoint W make [] = no_call 1
send_endpoint W make (endpoint ∷ argv) = call report_status W (make endpoint)

pub data BootstrapWord : Type 0 where
  add_word remove_word list_word unknown_word : BootstrapWord

unfoldable pub bootstrap_word : Bytes → BootstrapWord
bootstrap_word arg =
    if str_eq arg (codes "add")
    then add_word
    else if str_eq arg (codes "remove")
    then remove_word
    else if str_eq arg (codes "list")
    then list_word
    else unknown_word

unfoldable pub run_bootstrap : World → BootstrapWord → List Bytes → Run
run_bootstrap W add_word argv = send_endpoint W bootstrap_add argv
run_bootstrap W remove_word argv = send_endpoint W bootstrap_remove argv
run_bootstrap W list_word argv = call entries_status W bootstrap_list
run_bootstrap W unknown_word argv = no_call 1

unfoldable pub cmd_bootstrap : World → List Bytes → Run
cmd_bootstrap W [] = no_call 1
cmd_bootstrap W (subcommand ∷ argv) = run_bootstrap W (bootstrap_word subcommand) argv

-- The arguments are not looked at.
unfoldable pub cmd_health : World → List Bytes → Run
cmd_health W argv = call health_status W health

-- The health's status, whatever is answered about updates.
unfoldable pub cmd_status : World → List Bytes → Run
cmd_status W argv = record {
  status = (cmd_health W argv).status;
  requests = (cmd_health W argv).requests ++ (update_status ∷ []);
}
