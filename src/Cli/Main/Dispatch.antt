-- ===== src/Cli/Main/Dispatch.antt =====
-- Which handlers of `offs` run with a connection.
use offs.Base.{
  Bool, true, false, ◌||◌, Option, none, some, List, [], ◌∷◌, Bytes, codes, str_eq, str_eq_iff, ◌≡◌,
  ◌⊎◌, inl, inr, refl, sym, arith, Bool-cases,
}
use offs.Cli.Main.{
  Command, start, stop, restart, put, get, load, block, ephemeral, pin, unpin, peer, config, cache,
  friend, health, status, version, bootstrap, Entry, handled, unhandled, unlisted, find_command,
  needs_client, runs, run_entry, dispatch, first_is,
}

-- The name that a command has in the table.
abbrev pub name_of : Command → Bytes
name_of start = codes "start"
name_of stop = codes "stop"
name_of restart = codes "restart"
name_of put = codes "put"
name_of get = codes "get"
name_of load = codes "load"
name_of block = codes "block"
name_of ephemeral = codes "ephemeral"
name_of pin = codes "pin"
name_of unpin = codes "unpin"
name_of peer = codes "peer"
name_of config = codes "config"
name_of cache = codes "cache"
name_of friend = codes "friend"
name_of health = codes "health"
name_of status = codes "status"
name_of version = codes "version"
name_of bootstrap = codes "bootstrap"

-- The commands that run on their own: those about processes and the cache.
abbrev pub stands_alone : Command → Bool
stands_alone start = true
stands_alone stop = true
stands_alone restart = true
stands_alone version = true
stands_alone cache = true
stands_alone _ = false

-- Where the arguments are a request for help.
abbrev pub asks_help : List Bytes → Bool
asks_help [] = false
asks_help (arg ∷ args) = str_eq arg (codes "--help") || str_eq arg (codes "help")

-- Without a client, a command stands alone or is asked for its help.
needs_client-false :
    (c : Command) (args : List Bytes)
    → needs_client (name_of c) args ≡ false
    → (stands_alone c || asks_help args) ≡ true
unfolding needs_client first_is str_eq codes
needs_client-false start args h = refl
needs_client-false stop args h = refl
needs_client-false restart args h = refl
needs_client-false version args h = refl
needs_client-false cache args h = refl
needs_client-false _ [] h = ground arith
needs_client-false _ (arg ∷ args) h = ground arith

find_command-name :
    (name : Bytes) (c : Command) → find_command name ≡ handled c → str_eq (name_of c) name ≡ true
unfolding find_command
find_command-name name c h = ground arith

-- What holds of a handler that runs.
pub record Ran (connects : Bytes → Bool) (socket name : Bytes) (args : List Bytes) (c : Command)
    (args' : List Bytes) (client : Option Bytes) : Type 0 where
  pub named : name ≡ name_of c
  pub same_args : args' ≡ args
  pub client_ok :
      ((client ≡ none) × ((stands_alone c || asks_help args) ≡ true))
      ⊎ ((client ≡ some socket) × (connects socket ≡ true))

dispatch-connected :
    (connects : Bytes → Bool) (socket name : Bytes) (args args' : List Bytes) (c : Command)
    (client : Option Bytes)
    → dispatch connects socket (name ∷ args) ≡ runs c args' client
    → find_command name ≡ handled c
unfolding dispatch run_entry
dispatch-connected connects socket name args args' c client h = go (find_command name) refl
  where
    go : (e : Entry) → find_command name ≡ e → find_command name ≡ handled c
    go (handled d) k = ground arith
    go unhandled k = absurd (ground arith)
    go unlisted k = absurd (ground arith)

-- A handler runs only under its own name in the table, with the arguments behind that name, and
-- either with a connection that was made to the socket, or without one, and then it is start, stop,
-- restart, version or cache, or its first argument asks for its help.
pub dispatch-Ran :
    (connects : Bytes → Bool) (socket name : Bytes) (args args' : List Bytes) (c : Command)
    (client : Option Bytes)
    → dispatch connects socket (name ∷ args) ≡ runs c args' client
    → Ran connects socket name args c args' client
unfolding dispatch run_entry
dispatch-Ran connects socket name args args' c client h =
    let found = dispatch-connected connects socket name args args' c client h in
    let same : name_of c ≡ name =
      (str_eq_iff (name_of c) name).0 (find_command-name name c found) in
    elim (Bool-cases (needs_client name args)) [
      | inl e ↦ elim (Bool-cases (connects socket)) [
        | inl up ↦ record {
          named = sym same;
          same_args = ground arith;
          client_ok = inr (ground arith, up);
        }
        | inr down ↦ absurd (ground arith)
      ]
      | inr e ↦ record {
        named = sym same;
        same_args = ground arith;
        client_ok = inl (ground arith, needs_client-false c args (rw same e));
      }
    ]
