-- ===== src/Tests/Calls.antt =====
-- The commands that make one request, on concrete daemons.
use offs.Base.{ℕ, true, List, [], ◌∷◌, Bytes, codes, str_eq, ◌≡◌, if◌then◌else◌}
use offs.Cli.Cache.Gc.{unopened, sized}
use offs.Cli.Calls.{answered, World}
use offs.Cli.Calls.Node.{cmd_bootstrap, cmd_health}
use offs.Cli.Calls.Blocks.{cmd_pin, cmd_unpin, cmd_ephemeral, run_block_delete}
use offs.Cli.Calls.Honest.{is_honest, commands-is_honest}

-- A daemon that answers everything with one status, and one image.
abbrev world : ℕ → World
world status = record {
  reply = λ request. answered status;
  open_file = λ path. if str_eq path (codes "qr") then sized 2 (codes "P6") else unopened;
  writes = λ path. true;
  encodes_text = true;
}

abbrev one : List Bytes
one = codes "offs://x" ∷ []

commands-is_honest_example :
    (is_honest (world 4) (cmd_pin (world 4) one) ≡ true)
    × (is_honest (world 4) (cmd_unpin (world 4) one) ≡ true)
    × (is_honest (world 4) (cmd_ephemeral (world 4) one) ≡ true)
    × (is_honest (world 4) (cmd_bootstrap (world 4) one) ≡ true)
    × (is_honest (world 4) (cmd_health (world 4) one) ≡ true)
    × (is_honest (world 4) (run_block_delete (world 4) one) ≡ true)
commands-is_honest_example = commands-is_honest (world 4) one

abbrev qr : List Bytes
qr = codes "--qr" ∷ codes "qr" ∷ []
