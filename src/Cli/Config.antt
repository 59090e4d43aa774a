-- ===== src/Cli/Config.antt =====
-- `offs config` (src/offs/commands/config.c): the subcommands, what they ask the daemon to stage, and
-- the exit status. Frames, JSON and bcrypt are those of other libraries, so they are answers of a
-- host; printed texts are left out.
pub mod Staging
use offs.Base.{
  ℕ, ℤ, pos, negsuc, Bool, true, false, not, ◌&&◌, ◌||◌, Option, none, some, List, [], ◌∷◌, ltb,
  leb, ◌==◌, if◌then◌else◌, length, Bytes, codes, str_eq, Number, read_number, long_of,
}

-- What comes of a request that the daemon confirms by a response with a status.
pub data Answer : Type 0 where
  no_response accepted rejected undecoded other_frame : Answer

-- What comes of CONFIG_SHOW_REQUEST; a decoded response may hold no text.
pub data ShowReply : Type 0 where
  show_no_response show_undecoded show_other_frame : ShowReply
  shown : Option Bytes → ShowReply

-- _config_show: the text, or NULL.
unfoldable pub config_show : ShowReply → Option Bytes
config_show show_no_response = none
config_show show_undecoded = none
config_show show_other_frame = none
config_show (shown json_data) = json_data

pub record ConfigHost (Item : Type 0) : Type 0 where
  -- the answer to CONFIG_SHOW_REQUEST
  pub show_reply : ShowReply
  -- cJSON_Parse, cJSON_GetObjectItem and cJSON_PrintUnformatted
  pub parse : Bytes → Option Item
  pub get : Item → Bytes → Option Item
  pub print : Item → Option Bytes
  -- the answer to CONFIG_SET_REQUEST and to CONFIG_RELOAD_REQUEST
  pub set_answer : Bytes → Bytes → Answer
  pub reload_answer : Answer
  -- bcrypt_generate of a key with a cost
  pub bcrypt_generate : Bytes → ℕ → Option Bytes

-- The exit status, and the field and value of the request that was sent, if one was.
pub record Run : Type 0 where
  pub status : ℕ
  pub staged : Option (Bytes × Bytes)

abbrev pub exits : ℕ → Run
exits status = record { status = status; staged = none }

abbrev pub status_of : Answer → ℕ
status_of accepted = 0
status_of no_response = 1
status_of rejected = 1
status_of undecoded = 1
status_of other_frame = 1

-- The bytes in front of the hash's cost.
bcrypt_prefix : Bytes → Bool
bcrypt_prefix (c0 ∷ c1 ∷ c2 ∷ c3 ∷ rest) =
    c0 == b'$' && c1 == b'2' && (c2 == b'a' || c2 == b'b' || c2 == b'y') && c3 == b'$'
bcrypt_prefix _ = false

unfoldable pub is_bcrypt_hash : Bytes → Bool
unfolding bcrypt_prefix
is_bcrypt_hash s = length s == 60 && bcrypt_prefix s

-- strchr and the two texts beside the separator
unfoldable pub split_eq : Bytes → Option (Bytes × Bytes)
split_eq [] = none
split_eq (c ∷ cs) =
    let behind = split_eq cs in
    if c == b'='
    then some ([], cs)
    else elim behind [ none ↦ none | some parts ↦ some (c ∷ parts.0, parts.1) ]

-- The arguments of generate-auth behind the key.
pub data CostArgs : Type 0 where
  cost : ℕ → CostArgs
  cost_help cost_usage : CostArgs

abbrev is_nil : Bytes → Bool
is_nil [] = true
is_nil (c ∷ cs) = false

in_range : ℤ → Option ℕ
in_range (pos n) = if ltb n 4 || ltb 31 n then none else some n
in_range (negsuc n) = none

-- The value of `--cost`; a text without digits has `end == argv[i]`.
unfoldable pub cost_of : Bytes → Option ℕ
unfolding in_range
cost_of text =
    let n = read_number 10 text in
    if is_nil text || not (is_nil n.rest) then none else in_range (long_of n)

unfoldable pub parse_cost : List Bytes → ℕ → CostArgs
parse_cost [] n = cost n
parse_cost (arg ∷ []) n = if str_eq arg (codes "--help") then cost_help else cost_usage
parse_cost (arg ∷ value ∷ argv) n =
    if str_eq arg (codes "--cost")
    then elim (cost_of value) as (λ _. CostArgs) [ none ↦ cost_usage | some m ↦ parse_cost argv m ]
    else if str_eq arg (codes "--help")
    then cost_help
    else cost_usage

pub data Subcommand : Type 0 where
  help show get set add remove set_auth generate_auth reload unknown : Subcommand

unfoldable pub subcommand_of : Bytes → Subcommand
subcommand_of arg =
    if str_eq arg (codes "help") || str_eq arg (codes "--help")
    then help
    else if str_eq arg (codes "show")
    then show
    else if str_eq arg (codes "get")
    then get
    else if str_eq arg (codes "set")
    then set
    else if str_eq arg (codes "add")
    then add
    else if str_eq arg (codes "remove")
    then remove
    else if str_eq arg (codes "set-auth")
    then set_auth
    else if str_eq arg (codes "generate-auth")
    then generate_auth
    else if str_eq arg (codes "reload")
    then reload
    else unknown

module _ {Item : Type 0} (H : ConfigHost Item) where
  -- _config_send_set
  abbrev pub send_set : Bytes → Bytes → Run
  send_set field value = record {
    status = status_of (H.set_answer field value);
    staged = some (field, value);
  }

  -- _cmd_show: a text that is no JSON is printed as it is.
  cmd_show : Option Bytes → Run
  cmd_show none = exits 1
  cmd_show (some json_str) = exits 0

  printed : Option Bytes → Run
  printed none = exits 1
  printed (some value) = exits 0

  print_item : Option Item → Run
  unfolding printed
  print_item none = exits 1
  print_item (some item) = printed (H.print item)

  get_field : Bytes → Option Item → Run
  unfolding print_item
  get_field field none = exits 1
  get_field field (some root) = print_item (H.get root field)

  -- _cmd_get
  cmd_get : Bytes → Option Bytes → Run
  unfolding get_field
  cmd_get field none = exits 1
  cmd_get field (some json_str) = get_field field (H.parse json_str)

  set_pair : Option (Bytes × Bytes) → Run
  set_pair none = exits 1
  set_pair (some (field, value)) = send_set field value

  stage_hash : Option Bytes → Run
  stage_hash none = exits 1
  stage_hash (some hash) = send_set (codes "api_key_hash") hash

  -- _cmd_generate_auth
  cmd_generate_auth : Bytes → CostArgs → Run
  unfolding stage_hash
  cmd_generate_auth key (cost n) = stage_hash (H.bcrypt_generate key n)
  cmd_generate_auth key cost_help = exits 0
  cmd_generate_auth key cost_usage = exits 1

  -- _cmd_reload
  cmd_reload : Answer → Run
  cmd_reload answer = exits (status_of answer)

  unfoldable pub run_subcommand : Subcommand → List Bytes → Run
  unfolding cmd_show cmd_get set_pair cmd_generate_auth cmd_reload
  run_subcommand help rest = exits 0
  run_subcommand show rest = cmd_show (config_show H.show_reply)
  run_subcommand get [] = exits 1
  run_subcommand get (field ∷ rest) = cmd_get field (config_show H.show_reply)
  run_subcommand set [] = exits 1
  run_subcommand set (pair ∷ rest) = set_pair (split_eq pair)
  run_subcommand add [] = exits 1
  run_subcommand add (field ∷ []) = exits 1
  run_subcommand add (field ∷ value ∷ rest) = send_set field value
  run_subcommand remove [] = exits 1
  run_subcommand remove (field ∷ rest) = send_set field (codes "null")
  run_subcommand set_auth [] = exits 1
  run_subcommand set_auth (hash ∷ rest) =
      if is_bcrypt_hash hash then send_set (codes "api_key_hash") hash else exits 1
  run_subcommand generate_auth [] = exits 1
  run_subcommand generate_auth (key ∷ rest) = cmd_generate_auth key (parse_cost rest 12)
  run_subcommand reload rest = cmd_reload H.reload_answer
  run_subcommand unknown rest = exits 1

  unfoldable pub cmd_config : List Bytes → Run
  cmd_config [] = exits 1
  cmd_config (arg ∷ rest) = run_subcommand (subcommand_of arg) rest
