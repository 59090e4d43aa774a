-- ===== src/Cli/Calls/Forced.antt =====
-- When `offs block delete` asks for a forced deletion (src/offs/commands/block.c).
use offs.Base.{
  Bool, true, false, ◌||◌, Option, none, some, List, [], ◌∷◌, Bytes, codes, str_eq, all, ◌≡◌, refl,
  sym, ap, ◌∙◌, arith,
}
use offs.Cli.Hex.{hex_decode_hash}
use offs.Cli.Calls.{Request, block_delete, World, call}
use offs.Cli.Calls.Blocks.{delete_force, hash_bytes, send_delete, run_block_delete}

abbrev pub is_force : Bytes → Bool
is_force arg = str_eq arg (codes "--force")

abbrev pub is_some_arg : List Bytes → Bool
is_some_arg [] = false
is_some_arg (arg ∷ argv) = true

delete_force_lem :
    (argv : List Bytes) (force result : Bool)
    → delete_force argv force ≡ some result
    → (all is_force argv ≡ true) × (result ≡ (force || is_some_arg argv))
unfolding delete_force
delete_force_lem [] force result h = ground arith
delete_force_lem (arg ∷ argv) force result h = ground (arith, delete_force_lem argv true result)

send_delete_lem :
    (W : World) (hash : Bytes) (argv : List Bytes) (force : Option Bool) (r : Request)
    → delete_force argv false ≡ force
    → (send_delete W hash force).requests ≡ r ∷ []
    → (all is_force argv ≡ true)
      × (block_delete (hash_bytes hash (hex_decode_hash hash)) (is_some_arg argv) ≡ r)
unfolding send_delete call
send_delete_lem W hash argv none r e h = absurd (ground arith)
send_delete_lem W hash argv (some force) r e h =
    let (forces, same) = delete_force_lem argv false force e in
    (
      forces,
      ap (block_delete (hash_bytes hash (hex_decode_hash hash))) (sym same) ∙ ap (head_or r) h,
    )
  where
    head_or : Request → List Request → Request
    head_or r [] = r
    head_or r (first ∷ rest) = first

-- `block delete` asks for a deletion only where all that follows the hash is --force, so that a
-- mistyped option deletes nothing; the deletion is forced just if --force was given, and is that of
-- the hash, decoded where it is one in hexadecimal.
pub run_block_delete_lem :
    (W : World) (hash : Bytes) (argv : List Bytes) (r : Request)
    → (run_block_delete W (hash ∷ argv)).requests ≡ r ∷ []
    → (all is_force argv ≡ true)
      × (block_delete (hash_bytes hash (hex_decode_hash hash)) (is_some_arg argv) ≡ r)
unfolding run_block_delete
run_block_delete_lem W hash argv r h =
    send_delete_lem W hash argv (delete_force argv false) r refl h
