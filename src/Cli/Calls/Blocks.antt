-- ===== src/Cli/Calls/Blocks.antt =====
-- `offs block`, `offs pin`, `offs unpin` and `offs ephemeral` (src/offs/commands/block.c, pin.c and
-- ephemeral.c).
use offs.Base.{
  ℕ, zero, suc, Bool, true, false, Option, none, some, List, [], ◌∷◌, Bytes, codes, str_eq,
  if◌then◌else◌,
}
use offs.Cli.Hex.{hex_decode_hash}
use offs.Cli.Calls.{
  RepOp, mark_permanent, delete_ephemeral, rep_pin, rep_unpin, rep, ephemeral_list, block_put,
  block_get, block_delete, World, Run, no_call, call, asks_help, Reply, unencoded, unanswered,
  error_frame, other_frame, undecoded, answered,
}
use offs.Cli.Calls.Peers.{blind_call}

-- The loop over the options of `put`: whether the data is in base58.
unfoldable pub put_encoding : List Bytes → Bool → Bool
put_encoding [] base58 = base58
put_encoding (arg ∷ []) base58 = base58
put_encoding (arg ∷ value ∷ argv) base58 =
    let behind = put_encoding argv (if str_eq value (codes "base58") then true else base58) in
    let passed = put_encoding (value ∷ argv) base58 in
    if str_eq arg (codes "--encoding") then behind else passed

unfoldable pub run_block_put : World → List Bytes → Run
run_block_put W [] = no_call 1
run_block_put W (contents ∷ argv) = blind_call W (block_put contents (put_encoding argv false))

unfoldable pub run_block_get : World → List Bytes → Run
run_block_get W [] = no_call 1
run_block_get W (hash ∷ argv) = blind_call W (block_get hash)

-- The options of `delete`; `none` for what is not known.
unfoldable pub delete_force : List Bytes → Bool → Option Bool
delete_force [] force = some force
delete_force (arg ∷ argv) force =
    let rest = delete_force argv true in if str_eq arg (codes "--force") then rest else none

-- The bytes of a hash: decoded, or as they are given.
unfoldable pub hash_bytes : Bytes → Option Bytes → Bytes
hash_bytes given none = given
hash_bytes given (some decoded) = decoded

-- The answer to `delete`.
unfoldable pub delete_status : Reply → ℕ
delete_status unencoded = 1
delete_status unanswered = 1
delete_status error_frame = 1
delete_status other_frame = 1
delete_status undecoded = 1
delete_status (answered zero) = 0
delete_status (answered (suc status)) = 1

unfoldable pub send_delete : World → Bytes → Option Bool → Run
send_delete W hash none = no_call 1
send_delete W hash (some force) =
    call delete_status W (block_delete (hash_bytes hash (hex_decode_hash hash)) force)

unfoldable pub run_block_delete : World → List Bytes → Run
run_block_delete W [] = no_call 1
run_block_delete W (hash ∷ argv) = send_delete W hash (delete_force argv false)

pub data BlockWord : Type 0 where
  put_word get_word delete_word unknown_word : BlockWord

unfoldable pub block_word : Bytes → BlockWord
block_word arg =
    if str_eq arg (codes "put")
    then put_word
    else if str_eq arg (codes "get")
    then get_word
    else if str_eq arg (codes "delete")
    then delete_word
    else unknown_word

unfoldable pub run_block : World → BlockWord → List Bytes → Run
run_block W put_word argv = run_block_put W argv
run_block W get_word argv = run_block_get W argv
run_block W delete_word argv = run_block_delete W argv
run_block W unknown_word argv = no_call 1

unfoldable pub cmd_block : World → List Bytes → Run
cmd_block W [] = no_call 1
cmd_block W (subcommand ∷ argv) = run_block W (block_word subcommand) argv

-- The answer in `_pin_op`.
unfoldable pub pin_status : Reply → ℕ
pin_status unencoded = 1
pin_status unanswered = 1
pin_status error_frame = 1
pin_status other_frame = 1
pin_status undecoded = 1
pin_status (answered zero) = 0
pin_status (answered (suc status)) = 1

-- The answer in `_ephemeral_rep_op`.
unfoldable pub rep_status : Reply → ℕ
rep_status unencoded = 1
rep_status unanswered = 1
rep_status error_frame = 1
rep_status other_frame = 1
rep_status undecoded = 1
rep_status (answered zero) = 0
rep_status (answered (suc status)) = 1

-- The answer in `_ephemeral_list`.
unfoldable pub claims_status : Reply → ℕ
claims_status unencoded = 1
claims_status unanswered = 1
claims_status error_frame = 1
claims_status other_frame = 1
claims_status undecoded = 1
claims_status (answered zero) = 0
claims_status (answered (suc status)) = 1

-- Exactly one URL: `_pin_command` with `_pin_op`, or the same of `_ephemeral_rep_op`.
unfoldable pub pin_command : (Reply → ℕ) → World → RepOp → List Bytes → Run
pin_command exit_code W op [] = no_call 1
pin_command exit_code W op (url ∷ []) = call exit_code W (rep op url)
pin_command exit_code W op (url ∷ next ∷ argv) = no_call 1

unfoldable pub cmd_pin : World → List Bytes → Run
cmd_pin W argv = if asks_help argv then no_call 0 else pin_command pin_status W rep_pin argv

unfoldable pub cmd_unpin : World → List Bytes → Run
cmd_unpin W argv = if asks_help argv then no_call 0 else pin_command pin_status W rep_unpin argv

pub data EphemeralWord : Type 0 where
  list_word commit_word remove_word bad_word : EphemeralWord

unfoldable pub ephemeral_word : Bytes → EphemeralWord
ephemeral_word arg =
    if str_eq arg (codes "list")
    then list_word
    else if str_eq arg (codes "commit")
    then commit_word
    else if str_eq arg (codes "delete")
    then remove_word
    else bad_word

-- `list` takes no arguments, the others exactly one.
unfoldable pub list_claims : World → List Bytes → Run
list_claims W [] = call claims_status W ephemeral_list
list_claims W (arg ∷ argv) = no_call 1

unfoldable pub run_ephemeral : World → EphemeralWord → List Bytes → Run
run_ephemeral W list_word argv = list_claims W argv
run_ephemeral W commit_word argv = pin_command rep_status W mark_permanent argv
run_ephemeral W remove_word argv = pin_command rep_status W delete_ephemeral argv
run_ephemeral W bad_word argv = no_call 1

unfoldable pub ephemeral_from : World → List Bytes → Run
ephemeral_from W [] = no_call 1
ephemeral_from W (subcommand ∷ argv) = run_ephemeral W (ephemeral_word subcommand) argv

unfoldable pub cmd_ephemeral : World → List Bytes → Run
cmd_ephemeral W argv = if asks_help argv then no_call 0 else ephemeral_from W argv
