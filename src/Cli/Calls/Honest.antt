-- ===== src/Cli/Calls/Honest.antt =====
-- What an exit status of 0 says of the daemon's answer (src/offs/commands).
use offs.Base.{
  ℕ, zero, suc, Bool, true, false, not, ◌||◌, Option, none, some, List, [], ◌∷◌, Bytes, all, ◌==◌,
  if◌then◌else◌, ◌≡◌, refl, arith,
}
use offs.Cli.Hex.{hex_decode_hash}
use offs.Cli.Calls.{
  Request, RepOp, rep_pin, rep_unpin, rep, ephemeral_list, health, bootstrap_list, bootstrap_add,
  bootstrap_remove, block_delete, Reply, unencoded, unanswered, error_frame, other_frame, undecoded,
  answered, World, Run, no_call, call, asks_help,
}
use offs.Cli.Calls.Node.{
  report_status, entries_status, health_status, send_endpoint, BootstrapWord, bootstrap_word,
  run_bootstrap, cmd_bootstrap, cmd_health,
}
use offs.Cli.Calls.Blocks.{
  pin_status, rep_status, claims_status, delete_status, hash_bytes, pin_command, cmd_pin, cmd_unpin,
  EphemeralWord, ephemeral_word, list_claims, run_ephemeral, ephemeral_from, cmd_ephemeral,
  send_delete, delete_force, run_block_delete,
}

-- Whether a request was answered as it has to be: by a frame of its type that could be decoded, and
-- whose status, where it has one, is CLIENT_API_STATUS_OK.
unfoldable pub is_accepted : Request → Reply → Bool
is_accepted bootstrap_list (answered status) = true
is_accepted health (answered status) = true
is_accepted _ (answered status) = status == 0
is_accepted _ _ = false

-- A run that does not exit with 0, or all of whose requests were accepted.
unfoldable pub is_honest : World → Run → Bool
is_honest W r =
    not (r.status == 0) || all (λ request. is_accepted request (W.reply request)) r.requests

-- A handler's exit status is not 0, or the request was accepted.
unfoldable is_sound : (Reply → ℕ) → Request → Reply → Bool
is_sound exit_code request reply = not (exit_code reply == 0) || is_accepted request reply

pin_status-is_sound :
    (op : RepOp) (url : Bytes) (reply : Reply) → is_sound pin_status (rep op url) reply ≡ true
unfolding is_sound is_accepted pin_status
pin_status-is_sound op url unencoded = refl
pin_status-is_sound op url unanswered = refl
pin_status-is_sound op url error_frame = refl
pin_status-is_sound op url other_frame = refl
pin_status-is_sound op url undecoded = refl
pin_status-is_sound op url (answered zero) = refl
pin_status-is_sound op url (answered (suc status)) = refl

rep_status-is_sound :
    (op : RepOp) (url : Bytes) (reply : Reply) → is_sound rep_status (rep op url) reply ≡ true
unfolding is_sound is_accepted rep_status
rep_status-is_sound op url unencoded = refl
rep_status-is_sound op url unanswered = refl
rep_status-is_sound op url error_frame = refl
rep_status-is_sound op url other_frame = refl
rep_status-is_sound op url undecoded = refl
rep_status-is_sound op url (answered zero) = refl
rep_status-is_sound op url (answered (suc status)) = refl

claims_status-is_sound : (reply : Reply) → is_sound claims_status ephemeral_list reply ≡ true
unfolding is_sound is_accepted claims_status
claims_status-is_sound unencoded = refl
claims_status-is_sound unanswered = refl
claims_status-is_sound error_frame = refl
claims_status-is_sound other_frame = refl
claims_status-is_sound undecoded = refl
claims_status-is_sound (answered zero) = refl
claims_status-is_sound (answered (suc status)) = refl

delete_status-is_sound :
    (hash : Bytes) (force : Bool) (reply : Reply)
    → is_sound delete_status (block_delete hash force) reply ≡ true
unfolding is_sound is_accepted delete_status
delete_status-is_sound hash force unencoded = refl
delete_status-is_sound hash force unanswered = refl
delete_status-is_sound hash force error_frame = refl
delete_status-is_sound hash force other_frame = refl
delete_status-is_sound hash force undecoded = refl
delete_status-is_sound hash force (answered zero) = refl
delete_status-is_sound hash force (answered (suc status)) = refl

entries_status-is_sound : (reply : Reply) → is_sound entries_status bootstrap_list reply ≡ true
unfolding is_sound is_accepted entries_status
entries_status-is_sound unencoded = refl
entries_status-is_sound unanswered = refl
entries_status-is_sound error_frame = refl
entries_status-is_sound other_frame = refl
entries_status-is_sound undecoded = refl
entries_status-is_sound (answered status) = refl

health_status-is_sound : (reply : Reply) → is_sound health_status health reply ≡ true
unfolding is_sound is_accepted health_status
health_status-is_sound unencoded = refl
health_status-is_sound unanswered = refl
health_status-is_sound error_frame = refl
health_status-is_sound other_frame = refl
health_status-is_sound undecoded = refl
health_status-is_sound (answered status) = refl

add_status-is_sound :
    (endpoint : Bytes) (reply : Reply)
    → is_sound report_status (bootstrap_add endpoint) reply ≡ true
unfolding is_sound is_accepted report_status
add_status-is_sound endpoint unencoded = refl
add_status-is_sound endpoint unanswered = refl
add_status-is_sound endpoint error_frame = refl
add_status-is_sound endpoint other_frame = refl
add_status-is_sound endpoint undecoded = refl
add_status-is_sound endpoint (answered zero) = refl
add_status-is_sound endpoint (answered (suc status)) = refl

remove_status-is_sound :
    (endpoint : Bytes) (reply : Reply)
    → is_sound report_status (bootstrap_remove endpoint) reply ≡ true
unfolding is_sound is_accepted report_status
remove_status-is_sound endpoint unencoded = refl
remove_status-is_sound endpoint unanswered = refl
remove_status-is_sound endpoint error_frame = refl
remove_status-is_sound endpoint other_frame = refl
remove_status-is_sound endpoint undecoded = refl
remove_status-is_sound endpoint (answered zero) = refl
remove_status-is_sound endpoint (answered (suc status)) = refl

module _ (W : World) where
  call-is_honest :
      (exit_code : Reply → ℕ) (request : Request)
      → ((reply : Reply) → is_sound exit_code request reply ≡ true)
      → is_honest W (call exit_code W request) ≡ true
  unfolding is_honest call is_sound
  call-is_honest exit_code request sound = ground (arith, sound (W.reply request))

  no_call-is_honest : (status : ℕ) → is_honest W (no_call status) ≡ true
  unfolding is_honest
  no_call-is_honest status = ground arith

  pin_command-is_honest :
      (exit_code : Reply → ℕ) (op : RepOp) (argv : List Bytes)
      → ((url : Bytes) (reply : Reply) → is_sound exit_code (rep op url) reply ≡ true)
      → is_honest W (pin_command exit_code W op argv) ≡ true
  unfolding pin_command
  pin_command-is_honest exit_code op [] sound = no_call-is_honest 1
  pin_command-is_honest exit_code op (url ∷ []) sound =
      call-is_honest exit_code (rep op url) (sound url)
  pin_command-is_honest exit_code op (url ∷ next ∷ argv) sound = no_call-is_honest 1

  helped-is_honest :
      (help : Bool) (r : Run)
      → is_honest W r ≡ true
      → is_honest W (if help then no_call 0 else r) ≡ true
  helped-is_honest true r h = no_call-is_honest 0
  helped-is_honest false r h = h

  run_ephemeral-is_honest :
      (word : EphemeralWord) (argv : List Bytes) → is_honest W (run_ephemeral W word argv) ≡ true
  unfolding run_ephemeral list_claims
  run_ephemeral-is_honest EphemeralWord.list_word [] = call-is_honest _ _ claims_status-is_sound
  run_ephemeral-is_honest EphemeralWord.list_word (arg ∷ argv) = no_call-is_honest 1
  run_ephemeral-is_honest EphemeralWord.commit_word argv =
      pin_command-is_honest rep_status _ argv (rep_status-is_sound _)
  run_ephemeral-is_honest EphemeralWord.remove_word argv =
      pin_command-is_honest rep_status _ argv (rep_status-is_sound _)
  run_ephemeral-is_honest EphemeralWord.bad_word argv = no_call-is_honest 1

  ephemeral_from-is_honest : (argv : List Bytes) → is_honest W (ephemeral_from W argv) ≡ true
  unfolding ephemeral_from
  ephemeral_from-is_honest [] = no_call-is_honest 1
  ephemeral_from-is_honest (subcommand ∷ argv) =
      run_ephemeral-is_honest (ephemeral_word subcommand) argv

  send_endpoint-is_honest :
      (make : Bytes → Request) (argv : List Bytes)
      → ((endpoint : Bytes) (reply : Reply) → is_sound report_status (make endpoint) reply ≡ true)
      → is_honest W (send_endpoint W make argv) ≡ true
  unfolding send_endpoint
  send_endpoint-is_honest make [] sound = no_call-is_honest 1
  send_endpoint-is_honest make (endpoint ∷ argv) sound = call-is_honest _ _ (sound endpoint)

  run_bootstrap-is_honest :
      (word : BootstrapWord) (argv : List Bytes) → is_honest W (run_bootstrap W word argv) ≡ true
  unfolding run_bootstrap
  run_bootstrap-is_honest BootstrapWord.add_word argv =
      send_endpoint-is_honest bootstrap_add argv add_status-is_sound
  run_bootstrap-is_honest BootstrapWord.remove_word argv =
      send_endpoint-is_honest bootstrap_remove argv remove_status-is_sound
  run_bootstrap-is_honest BootstrapWord.list_word argv = call-is_honest _ _ entries_status-is_sound
  run_bootstrap-is_honest BootstrapWord.unknown_word argv = no_call-is_honest 1

  cmd_bootstrap-is_honest : (argv : List Bytes) → is_honest W (cmd_bootstrap W argv) ≡ true
  unfolding cmd_bootstrap
  cmd_bootstrap-is_honest [] = no_call-is_honest 1
  cmd_bootstrap-is_honest (subcommand ∷ argv) =
      run_bootstrap-is_honest (bootstrap_word subcommand) argv

  send_delete-is_honest :
      (hash : Bytes) (force : Option Bool) → is_honest W (send_delete W hash force) ≡ true
  unfolding send_delete
  send_delete-is_honest hash none = no_call-is_honest 1
  send_delete-is_honest hash (some force) =
      call-is_honest _ _ (delete_status-is_sound (hash_bytes hash (hex_decode_hash hash)) force)

  run_block_delete-is_honest : (argv : List Bytes) → is_honest W (run_block_delete W argv) ≡ true
  unfolding run_block_delete
  run_block_delete-is_honest [] = no_call-is_honest 1
  run_block_delete-is_honest (hash ∷ argv) = send_delete-is_honest hash (delete_force argv false)

  -- Scripts may rely on the status of `offs pin`, `unpin`, `ephemeral`, `bootstrap`, `health` and
  -- `block delete`, each with its own reading of the answer: where one exits with 0, each request that
  -- it made was answered by a frame of its type that could be decoded and that says, where it has a
  -- status, that all is well.
  pub commands-is_honest :
      (argv : List Bytes)
      → (is_honest W (cmd_pin W argv) ≡ true)
        × (is_honest W (cmd_unpin W argv) ≡ true)
        × (is_honest W (cmd_ephemeral W argv) ≡ true)
        × (is_honest W (cmd_bootstrap W argv) ≡ true)
        × (is_honest W (cmd_health W argv) ≡ true)
        × (is_honest W (run_block_delete W argv) ≡ true)
  unfolding cmd_pin cmd_unpin cmd_ephemeral cmd_health
  commands-is_honest argv = (
    helped-is_honest (asks_help argv) _
        (pin_command-is_honest pin_status rep_pin argv (pin_status-is_sound _)),
    helped-is_honest (asks_help argv) _
        (pin_command-is_honest pin_status rep_unpin argv (pin_status-is_sound _)),
    helped-is_honest (asks_help argv) _ (ephemeral_from-is_honest argv),
    cmd_bootstrap-is_honest argv,
    call-is_honest _ _ health_status-is_sound,
    run_block_delete-is_honest argv,
  )
