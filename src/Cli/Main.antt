-- ===== src/Cli/Main.antt =====
-- The program `offs` (src/offs/main.c): the options that may stand anywhere are lifted out of the
-- command line, the command is looked up in the table of src/offs/cli_util.c, and its handler runs
-- with a connection where it needs one. What is printed is left out.
pub mod Lifting
pub mod Dispatch
use offs.Base.{
  Bool, true, false, not, ◌&&◌, ◌||◌, Option, none, some, List, [], ◌∷◌, if◌then◌else◌, Bytes,
  codes, str_eq,
}

-- The entries of g_commands that have a handler.
pub data Command : Type 0 where
  start stop restart put get load block ephemeral pin unpin peer config cache friend : Command
  health status version bootstrap : Command

-- An entry that is found: `help` has no handler.
pub data Entry : Type 0 where
  handled : Command → Entry
  unhandled unlisted : Entry

-- The search of g_commands for a name.
unfoldable pub find_command : Bytes → Entry
find_command name =
    if str_eq (codes "start") name
    then handled start
    else if str_eq (codes "stop") name
    then handled stop
    else if str_eq (codes "restart") name
    then handled restart
    else if str_eq (codes "put") name
    then handled put
    else if str_eq (codes "get") name
    then handled get
    else if str_eq (codes "load") name
    then handled load
    else if str_eq (codes "block") name
    then handled block
    else if str_eq (codes "ephemeral") name
    then handled ephemeral
    else if str_eq (codes "pin") name
    then handled pin
    else if str_eq (codes "unpin") name
    then handled unpin
    else if str_eq (codes "peer") name
    then handled peer
    else if str_eq (codes "config") name
    then handled config
    else if str_eq (codes "cache") name
    then handled cache
    else if str_eq (codes "friend") name
    then handled friend
    else if str_eq (codes "health") name
    then handled health
    else if str_eq (codes "status") name
    then handled status
    else if str_eq (codes "version") name
    then handled version
    else if str_eq (codes "bootstrap") name
    then handled bootstrap
    else if str_eq (codes "help") name
    then unhandled
    else unlisted

-- g_socket_path, g_lang and the arguments that are left.
pub record Lifted : Type 0 where
  pub socket_path : Bytes
  pub lang : Bytes
  pub args : List Bytes

keep : Bytes → Lifted → Lifted
keep arg l = record l { args = arg ∷ l.args }

-- The loop over argv behind the program's name. An option without a value is dropped.
unfoldable pub lift_options : List Bytes → Bytes → Bytes → Lifted
unfolding keep
lift_options [] socket lang = record { socket_path = socket; lang = lang; args = [] }
lift_options (arg ∷ []) socket lang =
    if str_eq arg (codes "--socket") || str_eq arg (codes "--lang")
    then record { socket_path = socket; lang = lang; args = [] }
    else record { socket_path = socket; lang = lang; args = arg ∷ [] }
lift_options (arg ∷ value ∷ argv) socket lang =
    let with_socket = lift_options argv value lang in
    let with_lang = lift_options argv socket value in
    let next = lift_options (value ∷ argv) socket lang in
    if str_eq arg (codes "--socket")
    then with_socket
    else if str_eq arg (codes "--lang")
    then with_lang
    else keep arg next

first_is : Bytes → List Bytes → Bool
first_is word [] = false
first_is word (arg ∷ args) = str_eq arg word

unfoldable pub needs_client : Bytes → List Bytes → Bool
unfolding first_is
needs_client name args =
    if str_eq name (codes "start")
      || str_eq name (codes "stop")
      || str_eq name (codes "restart")
      || str_eq name (codes "version")
      || str_eq name (codes "cache")
    then false
    else if str_eq name (codes "config")
        && (first_is (codes "help") args || first_is (codes "--help") args)
    then false
    else if str_eq name (codes "put") && first_is (codes "--help") args
    then false
    else if str_eq name (codes "load") && first_is (codes "--help") args
    then false
    else not (
        (str_eq name (codes "ephemeral")
          || str_eq name (codes "pin")
          || str_eq name (codes "unpin"))
        && first_is (codes "--help") args)

-- What `offs` does with a command line.
pub data Outcome : Type 0 where
  -- the help, for a command or for all
  helps : Option Bytes → Outcome
  -- no connection to the daemon at this socket: status 1
  unreachable : Bytes → Outcome
  -- the handler's arguments, and the socket that is connected; its status is returned
  runs : Command → List Bytes → Option Bytes → Outcome
  -- no handler: status 1
  unknown_command : Bytes → Outcome

abbrev first : List Bytes → Option Bytes
first [] = none
first (arg ∷ args) = some arg

run_entry : Entry → Bytes → List Bytes → Option Bytes → Outcome
run_entry (handled c) name args client = runs c args client
run_entry unhandled name args client = unknown_command name
run_entry unlisted name args client = unknown_command name

-- `connects` tells of a socket whether a connection to it is made.
unfoldable pub dispatch : (Bytes → Bool) → Bytes → List Bytes → Outcome
unfolding run_entry
dispatch connects socket [] = helps none
dispatch connects socket (name ∷ args) =
    if str_eq name (codes "help")
    then helps (first args)
    else if not (needs_client name args)
    then run_entry (find_command name) name args none
    else if connects socket
    then run_entry (find_command name) name args (some socket)
    else unreachable socket

-- The whole program, with the default socket and the language of the environment.
unfoldable pub main : (Bytes → Bool) → Bytes → Bytes → List Bytes → Outcome
main connects default_socket lang argv =
    let l = lift_options argv default_socket lang in dispatch connects l.socket_path l.args
