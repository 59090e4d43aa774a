-- ===== src/Tests/Config.antt =====
-- The configuration's command.
use offs.Base.{ℕ, ◌+◌, ◌*◌, ◌≤◌, true, false, none, some, List, ◌++◌, Bytes, ◌≡◌}
use offs.Cli.Config.{show_no_response, Answer, accepted, rejected, ConfigHost, Run}

-- The daemon accepts every field, and a hash is the key itself.
abbrev host : ConfigHost Bytes
host = record {
  show_reply = show_no_response;
  parse = λ text. some text;
  get = λ item field. some field;
  print = λ item. some item;
  set_answer = λ field value. accepted;
  reload_answer = rejected;
  bcrypt_generate = λ key n. some key;
}
